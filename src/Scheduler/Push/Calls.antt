-- ===== src/Scheduler/Push/Calls.antt =====
-- A call of `scheduler_push_internal`: what it has sent and where it goes on.
use mathlib.Core.Path.{subst, sym}
use mathlib.Core.List.{[], append-nil}
use qproto.Common.{
  ℕ, zero, suc, ◌+◌, ◌*◌, ◌^◌, ◌<◌, ◌≡◌, refl, arith, Bool, true, false, List, Option, some, Result,
  ok, err, enomem, eagain, ◌&&◌, not, ltb, ◌==◌, if◌then◌else◌, Bool-cases, inl, inr, ◌⊎◌,
}
use qproto.Buffer.{AvtBuffer}
use qproto.Packet.{AvtPacketData, Body, Segmented, GenericSegment, segment}
use qproto.Fifo.{AvtPktd, AvtPacketFifo}
use qproto.Fifo.Queue.{contents, IsValid}
use qproto.Scheduler.Push.{
  Push, ◌>>>◌, send_segment, send_segments, finish, resume, send_hash, returns,
}
use qproto.Scheduler.Push.After.{After, After-bind, After-if, Enomem, After-weaken}
use qproto.Scheduler.Push.Tiling.{Sent}
use qproto.Scheduler.Push.Segments.{Sending, Less, send_segment-After}

hashless : (a b : Bool) → a ≡ false → a && b ≡ true → ⊥
hashless a b none_there is = ground arith

module _ (hdr_size : Body → ℕ) (encode : AvtPacketData → List ℕ)
    (realloc : AvtPacketFifo → Option AvtPktd) (lim seg_hdr tot : ℕ) (pl : AvtBuffer) (from : ℕ)
    (old : List AvtPktd) where
  -- The bucket has got the bytes from `from` to `off`. The packet's context goes on from there, or the packet is
  -- done.
  pub record Progress (r : Result ℕ) (w : Push) : Type 0 where
    pub off : ℕ
    pub left : ℕ
    pub tiled : Sent hdr_size lim tot pl from old w.dst off left
    pub resumes :
        ((w.state.seg_offset ≡ off) × (w.state.pl_left ≡ left))
        ⊎ ((r ≡ ok 0) × (left ≡ 0) × (w.state.present ≡ false))

  abbrev pub Outcome : Result ℕ → Push → Type 0
  Outcome r w = (r ≡ err enomem) ⊎ Progress r w

  abbrev pub IsSending : Push → Type 0
  IsSending = Sending hdr_size encode realloc lim seg_hdr tot pl from old

  pub progress : (r : Result ℕ) (w : Push) → IsSending w → Progress r w
  progress r w h = record {
    off = w.state.seg_offset;
    left = w.state.pl_left;
    tiled = h.tiled;
    resumes = inl (refl, refl);
  }

  finish-After :
      (w : Push)
      → IsSending w
      → w.state.pl_left ≡ 0
      → After (λ _. ⊥) Outcome (some (finish hdr_size encode realloc w))
  unfolding finish
  finish-After w h e = elim (Bool-cases (w.out_acc == 0)) [
    | inl nothing ↦ rw nothing (
        inr (record {
          off = w.state.seg_offset;
          left = w.state.pl_left;
          tiled = h.tiled;
          resumes = inr (refl, e, refl);
        }))
    | inr something ↦ rw something (inr (progress (ok w.out_acc) w h))
  ]

  module _ (fixed : (g : GenericSegment) → hdr_size (segment Segmented.stream_data g) ≡ seg_hdr)
      (room : seg_hdr < lim) (lim_fits : lim < 2 ^ 64) (tot_fits : tot < 2 ^ 32) (r : ℕ)
      (counted : pl.refcnt ≡ some r) where
    -- A round for each byte that is left is enough for the loop.
    send_segments-After :
        (rounds out_limit : ℕ) (w : Push)
        → IsSending w
        → w.state.pl_left < rounds
        → After
            (λ w'. IsSending w' × (w'.state.pl_left ≡ 0))
            Outcome
            (send_segments hdr_size encode realloc rounds lim out_limit tot w)
    unfolding send_segments
    send_segments-After zero out_limit w h enough = absurd (omega arith)
    send_segments-After (suc rounds) out_limit w h enough =
        let Q = λ (w' : Push). IsSending w' × (w'.state.pl_left ≡ 0) in
        After-if Q Outcome (w.state.pl_left == 0) _ _ (λ none_left. (h, ground arith))
          (λ some_left.
            After-bind (Less hdr_size encode realloc lim seg_hdr tot pl from old w) Q Outcome
              (send_segment hdr_size encode realloc lim tot w) _
              (After-weaken (Less hdr_size encode realloc lim seg_hdr tot pl from old w) Enomem
                Outcome (send_segment hdr_size encode realloc lim tot w)
                (send_segment-After hdr_size encode realloc lim seg_hdr tot pl from old fixed room
                  lim_fits tot_fits r counted w h (ground arith))
                (λ res w' e. inl e))
              (λ w' l.
                After-if Q Outcome (ltb out_limit (w'.out_acc + w'.state.seg_hdr_size + 1)) _ _
                  (λ full. inr (progress (ok w'.out_acc) w' l.sending))
                  (λ more.
                    send_segments-After rounds out_limit w' l.sending (omega (arith, l.less)))))

    send_hash-After :
        (out_limit : ℕ) (w : Push)
        → w.state.p.pl_has_hash ≡ false
        → After (λ w'. w ≡ w') Outcome (send_hash hdr_size encode realloc out_limit w)
    unfolding send_hash
    send_hash-After out_limit w no_hash =
        After-if (λ w'. w ≡ w') Outcome (w.state.p.pl_has_hash && not w.state.hash_sent) _ _
          (λ some_hash.
            absurd (hashless w.state.p.pl_has_hash (not w.state.hash_sent) no_hash some_hash))
          (λ none_left. refl)

    resume_goes :
        (out_limit : ℕ) (w : Push)
        → IsSending w
        → After
            (λ _. ⊥)
            Outcome
            (if ltb out_limit (w.state.seg_hdr_size + 1)
              then some (returns (err eagain) w)
              else (send_segments hdr_size encode realloc
                    (w.state.pl_left + out_limit + 1)
                    lim
                    out_limit
                    tot
                    w
                  >>> λ w2. some (finish hdr_size encode realloc w2)))
    resume_goes out_limit w h =
        After-if (λ _. ⊥) Outcome (ltb out_limit (w.state.seg_hdr_size + 1)) _ _
          (λ full. inr (progress (err eagain) w h))
          (λ fits.
            After-bind (λ w'. IsSending w' × (w'.state.pl_left ≡ 0)) (λ _. ⊥) Outcome
              (send_segments hdr_size encode realloc (w.state.pl_left + out_limit + 1) lim out_limit
                tot w)
              _ (send_segments-After (w.state.pl_left + out_limit + 1) out_limit w h (omega arith))
              (λ w' (h', e). finish-After w' h' e))

    -- A call that goes on from where `Sending` says.
    pub resume_tiled-Outcome :
        (out_limit : ℕ) (w : Push)
        → IsSending w
        → w.state.p.pl_has_hash ≡ false
        → After (λ _. ⊥) Outcome (resume hdr_size encode realloc lim out_limit tot w)
    unfolding resume
    resume_tiled-Outcome out_limit w h no_hash =
        After-bind (λ w'. w ≡ w') (λ _. ⊥) Outcome (send_hash hdr_size encode realloc out_limit w) _
          (send_hash-After out_limit w no_hash)
          (λ w' same. resume_goes out_limit w' (subst (λ x. IsSending x) same h))

-- What a call needs to go on with a packet: a bucket far below 2^31 packets, whatever it holds, and the
-- bytes of the payload that the context says are left.
pub record Resumable (tot : ℕ) (w : Push) : Type 0 where
  pub valid : IsValid w.dst
  pub small : w.dst.alloc < 2 ^ 31
  pub budget : 2 * (w.dst.nb + w.state.pl_left) + 8 < 2 ^ 31
  pub whole : w.state.seg_offset + w.state.pl_left ≡ tot
  pub no_hash : w.state.p.pl_has_hash ≡ false

-- A call for a packet that was begun, with a counted payload of `tot` bytes and no hash to send. The
-- bucket may be another one than before, and may have got packets of other streams since: only its
-- size is limited, far below 2^31 packets. Where the limit leaves room for a byte behind the header of a
-- segment, the call ends, a fault aside: without memory, or the bucket has kept the packets that it
-- held and got packets with the bytes of the payload from the offset of the context on, in order and each
-- byte once, none greater than the limit with its header and, but for one at byte 0, each saying in its
-- header which bytes it has; and the context goes on right after these bytes, or the packet is done.
pub resume-Outcome :
    (hdr_size : Body → ℕ) (encode : AvtPacketData → List ℕ)
    (realloc : AvtPacketFifo → Option AvtPktd) (lim out_limit tot : ℕ) (w : Push) (r : ℕ)
    → Resumable tot w
    → ((g : GenericSegment) → hdr_size (segment Segmented.stream_data g) ≡ w.state.seg_hdr_size)
    → w.state.seg_hdr_size < lim
    → lim < 2 ^ 64
    → tot < 2 ^ 32
    → w.state.p.pl.refcnt ≡ some r
    → After
        (λ _. ⊥)
        (Outcome hdr_size encode realloc lim w.state.seg_hdr_size tot w.state.p.pl
          w.state.seg_offset
          (contents w.dst))
        (resume hdr_size encode realloc lim out_limit tot w)
resume-Outcome hdr_size encode realloc lim out_limit tot w r h fixed room lim_fits tot_fits
      counted =
    resume_tiled-Outcome hdr_size encode realloc lim w.state.seg_hdr_size tot w.state.p.pl
      w.state.seg_offset (contents w.dst) fixed room lim_fits tot_fits r counted out_limit w
      (record {
        tiled = record {
          valid = h.valid;
          small = h.small;
          budget = h.budget;
          whole = h.whole;
          new = [];
          sent = sym (append-nil (contents w.dst));
          tiles = refl;
        };
        payload = refl;
        hdr = refl;
      })
      h.no_hash
