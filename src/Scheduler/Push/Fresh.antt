-- ===== src/Scheduler/Push/Fresh.antt =====
-- A whole call of `scheduler_push_internal` for a packet that was not begun.
use mathlib.Core.Path.{subst}
use qproto.Common.{
  ℕ, ◌+◌, ◌^◌, ◌<◌, ◌≡◌, refl, arith, min, true, List, Option, some, Result, err, eagain, not, u32,
  ltb, ◌==◌, if◌then◌else◌, inl, inr, ◌⊎◌,
}
use qproto.Buffer.{AvtBuffer, Heap, buffer_get_data_len}
use qproto.Packet.{AvtPacketData, Body, Segmented, GenericSegment, segment}
use qproto.Fifo.{AvtPktd, AvtPacketFifo}
use qproto.Fifo.Queue.{contents}
use qproto.Scheduler.{AvtScheduler, SchedulerPacketContext}
use qproto.Scheduler.Push.{Push, ◌>>>◌, resume, push_internal, send_first, send_bare, returns}
use qproto.Scheduler.Push.After.{After, After-bind, After-if, After-weaken}
use qproto.Scheduler.Push.Calls.{Outcome, resume_tiled-Outcome}
use qproto.Scheduler.Push.First.{Start, Begun, send_first-After}

-- What a call for a packet that was not begun comes to.
abbrev pub Called :
    (Body → ℕ)
    → (AvtPacketData → List ℕ)
    → (AvtPacketFifo → Option AvtPktd)
    → ℕ
    → ℕ
    → ℕ
    → AvtBuffer
    → Push
    → Result ℕ
    → Push
    → Type 0
Called hdr_size encode realloc lim seg_hdr tot pl w res w' =
    ((res ≡ err eagain) × (w'.dst ≡ w.dst))
    ⊎ Outcome hdr_size encode realloc lim seg_hdr tot pl 0 (contents w.dst) res w'

not_empty : (n : ℕ) → 0 < n → n == 0 ≡ true → ⊥
not_empty n h e = ground arith

whole_payload :
    (b : AvtBuffer) (r : ℕ)
    → b.refcnt ≡ some r
    → b.len < 2 ^ 32
    → b.len ≡ u32 (buffer_get_data_len b)
unfolding buffer_get_data_len
whole_payload b r counted fits = ground arith

module _ (hdr_size : Body → ℕ) (encode : AvtPacketData → List ℕ)
    (realloc : AvtPacketFifo → Option AvtPktd) (lim seg_hdr tot : ℕ) (pl : AvtBuffer)
    (fixed : (g : GenericSegment) → hdr_size (segment Segmented.stream_data g) ≡ seg_hdr)
    (room : seg_hdr < lim) (lim_fits : lim < 2 ^ 64) (tot_fits : tot < 2 ^ 32) (r : ℕ)
    (counted : pl.refcnt ≡ some r) where
  dispatched :
      (out_limit : ℕ) (w : Push)
      → Start hdr_size lim tot pl w
      → w.state.seg_offset ≡ 0
      → After
          (λ _. ⊥)
          (Called hdr_size encode realloc lim seg_hdr tot pl w)
          (if not (w.state.seg_offset == 0)
            then resume hdr_size encode realloc lim out_limit tot w
            else if ltb out_limit (hdr_size w.state.p.pkt.body + (if tot == 0 then 0 else 1))
            then some (returns (err eagain) w)
            else if tot == 0
            then send_bare hdr_size encode realloc w
            else (send_first hdr_size encode realloc lim out_limit tot w >>> λ w1.
                resume hdr_size encode realloc lim out_limit tot w1))
  dispatched out_limit w h fresh =
      let Q = λ (_ : Push). ⊥ in
      let Out = Outcome hdr_size encode realloc lim seg_hdr tot pl 0 (contents w.dst) in
      let R = Called hdr_size encode realloc lim seg_hdr tot pl w in
      After-if Q R (not (w.state.seg_offset == 0)) _ _ (λ begun. absurd (ground arith))
        (λ _.
          After-if Q R (ltb out_limit (hdr_size w.state.p.pkt.body + (if tot == 0 then 0 else 1)))
            (some (returns (err eagain) w))
            (if tot == 0
              then send_bare hdr_size encode realloc w
              else (send_first hdr_size encode realloc lim out_limit tot w >>> λ w1.
                  resume hdr_size encode realloc lim out_limit tot w1))
            (λ full. inl (refl, refl))
            (λ _.
              After-if Q R (tot == 0) (send_bare hdr_size encode realloc w)
                (send_first hdr_size encode realloc lim out_limit tot w >>> λ w1.
                  resume hdr_size encode realloc lim out_limit tot w1)
                (λ empty. absurd (not_empty tot h.some_bytes empty))
                (λ _.
                  After-weaken Q Out R
                    (send_first hdr_size encode realloc lim out_limit tot w >>> λ w1.
                      resume hdr_size encode realloc lim out_limit tot w1)
                    (After-bind (Begun hdr_size encode realloc lim seg_hdr tot pl (contents w.dst))
                      Q Out (send_first hdr_size encode realloc lim out_limit tot w) _
                      (send_first-After hdr_size encode realloc lim seg_hdr tot pl fixed room
                        lim_fits tot_fits r counted out_limit w h)
                      (λ w1 (sending, no_hash).
                        resume_tiled-Outcome hdr_size encode realloc lim seg_hdr tot pl 0
                          (contents w.dst) fixed room lim_fits tot_fits r counted out_limit w1
                          sending no_hash))
                    (λ res w' o. inr o))))

-- The scheduler sends a packet with a payload in one call or more. For a payload of `tot` bytes that is counted and without a hash, limits that leave room for a
-- byte behind the header of the packet and of a segment, and a bucket far below 2^31 packets, a call
-- for a packet that was not begun ends, a fault aside. It returns ENOMEM; or EAGAIN with the bucket
-- as it was; or the bucket has got packets whose payloads are the first bytes of the payload, in order
-- and each byte once, none greater than the limit with its header, and all after the first say in
-- their header which bytes they are; and the context goes on right after these bytes, or the packet
-- is done.
pub push_internal-Outcome :
    (hdr_size : Body → ℕ) (encode : AvtPacketData → List ℕ)
    (realloc : AvtPacketFifo → Option AvtPktd) (s : AvtScheduler) (state : SchedulerPacketContext)
    (dst : AvtPacketFifo) (seg_size_lim out_limit seg_hdr r : ℕ) (h : Heap)
    → let lim : ℕ = min seg_size_lim out_limit in
      let tot : ℕ = state.p.pl.len in
      ((g : GenericSegment) → hdr_size (segment Segmented.stream_data g) ≡ seg_hdr)
      → seg_hdr < lim
      → lim < 2 ^ 64
      → tot < 2 ^ 32
      → state.p.pl.refcnt ≡ some r
      → state.seg_offset ≡ 0
      → Start hdr_size lim tot state.p.pl
          (record { s = s; state = state; dst = dst; heap = h; out_acc = 0 })
      → After
          (λ _. ⊥)
          (Called hdr_size encode realloc lim seg_hdr tot state.p.pl
            (record { s = s; state = state; dst = dst; heap = h; out_acc = 0 }))
          (push_internal hdr_size encode realloc s state dst seg_size_lim out_limit h)
unfolding push_internal
push_internal-Outcome hdr_size encode realloc s state dst seg_size_lim out_limit seg_hdr r h fixed
      room lim_fits tot_fits counted fresh start =
    let lim : ℕ = min seg_size_lim out_limit in
    let w : Push = record { s = s; state = state; dst = dst; heap = h; out_acc = 0 } in
    let size : state.p.pl.len ≡ u32 (buffer_get_data_len state.p.pl) =
      whole_payload state.p.pl r counted tot_fits in
    subst
      (λ n.
        After (λ _. ⊥) (Called hdr_size encode realloc lim seg_hdr state.p.pl.len state.p.pl w)
          (if not (state.seg_offset == 0)
            then resume hdr_size encode realloc lim out_limit n w
            else if ltb out_limit (hdr_size state.p.pkt.body + (if n == 0 then 0 else 1))
            then some (returns (err eagain) w)
            else if n == 0
            then send_bare hdr_size encode realloc w
            else (send_first hdr_size encode realloc lim out_limit n w >>> λ w1.
                resume hdr_size encode realloc lim out_limit n w1)))
      size
      (dispatched hdr_size encode realloc lim seg_hdr state.p.pl.len state.p.pl fixed room lim_fits
        tot_fits r counted out_limit w start fresh)
