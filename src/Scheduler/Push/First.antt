-- ===== src/Scheduler/Push/First.antt =====
-- A call of `scheduler_push_internal` for a packet that was not begun.
use mathlib.Core.Path.{subst}
use qproto.Common.{
  overwrite, take, ℕ, ◌+◌, ◌-◌, ◌*◌, ◌^◌, ◌≤◌, ◌<◌, ◌≡◌, refl, ◌∙◌, sym, ap, arith, max, false,
  List, [], ◌∷◌, ◌++◌, Option, some, ok, leb, inl, inr,
}
use qproto.Buffer.{AvtBuffer}
use qproto.Packet.{AvtPacketData, Body, Segmented, GenericSegment, segment, packet_change_size}
use qproto.Fifo.{AvtPktd, AvtPacketFifo, on_last}
use qproto.Fifo.Queue.{contents, IsValid}
use qproto.Fifo.Pushing.{LastIs, on_last-keeps}
use qproto.Encode.{
  packet_encode_header, packet_encode_header-keeps, packet_create_segment,
  packet_create_segment-series,
}
use qproto.Scheduler.{SchedulerPacketContext, get_seq}
use qproto.Scheduler.Push.{Push, chunk, send_first, returns, goes_on}
use qproto.Scheduler.Push.After.{
  After, After-bind, After-ends, After-option, Enomem, After-weaken, Reserved, Accounted,
  reserve-After, account-After,
}
use qproto.Scheduler.Push.Tiling.{IsTile, Sent, Sent-next}
use qproto.Scheduler.Push.Segments.{Sending}
use qproto.Scheduler.Push.Calls.{Outcome, progress}

-- What the first packet needs.
pub record Start (hdr_size : Body → ℕ) (lim tot : ℕ) (pl : AvtBuffer) (w : Push) : Type 0 where
  pub valid : IsValid w.dst
  pub small : w.dst.alloc < 2 ^ 31
  pub budget : 2 * (w.dst.nb + tot) + 8 < 2 ^ 31
  pub payload : w.state.p.pl ≡ pl
  pub some_bytes : 0 < tot
  pub room : hdr_size w.state.p.pkt.body < lim
  pub no_hash : w.state.p.pl_has_hash ≡ false

append_nil : (xs : List AvtPktd) → xs ++ [] ≡ xs
append_nil [] = refl
append_nil (x ∷ xs) = ap (λ l. x ∷ l) (append_nil xs)

-- Begun, with the packet's hash as it was.
abbrev pub Begun :
    (Body → ℕ)
    → (AvtPacketData → List ℕ)
    → (AvtPacketFifo → Option AvtPktd)
    → ℕ
    → ℕ
    → ℕ
    → AvtBuffer
    → List AvtPktd
    → Push
    → Type 0
Begun hdr_size encode realloc lim seg_hdr tot pl old w =
    Sending hdr_size encode realloc lim seg_hdr tot pl 0 old w × (w.state.p.pl_has_hash ≡ false)

module _ (hdr_size : Body → ℕ) (encode : AvtPacketData → List ℕ)
    (realloc : AvtPacketFifo → Option AvtPktd) (lim seg_hdr tot : ℕ) (pl : AvtBuffer)
    (fixed : (g : GenericSegment) → hdr_size (segment Segmented.stream_data g) ≡ seg_hdr)
    (room : seg_hdr < lim) (lim_fits : lim < 2 ^ 64) (tot_fits : tot < 2 ^ 32) (r : ℕ)
    (counted : pl.refcnt ≡ some r) where
  nothing-Sent :
      (w : Push)
      → Start hdr_size lim tot pl w
      → Sent hdr_size lim tot pl 0 (contents w.dst) w.dst 0 tot
  nothing-Sent w h = record {
    valid = h.valid;
    small = h.small;
    budget = h.budget;
    whole = omega arith;
    new = [];
    sent = sym (append_nil (contents w.dst));
    tiles = refl;
  }

  first-IsTile :
      (w w1 : Push) (seg : ℕ) (p' : AvtPktd) (x : AvtPktd)
      → Start hdr_size lim tot pl w
      → (res : Reserved w 0 seg w1) → x.pl ≡ res.pushed.x.pl
      → x.pkt ≡ p'.pkt
      → hdr_size p'.pkt.body ≡ hdr_size w.state.p.pkt.body
      → 0 < seg
      → hdr_size w.state.p.pkt.body + seg ≤ lim
      → IsTile hdr_size lim tot pl 0 x × (x.pl.len ≡ seg)
  first-IsTile w w1 seg p' x h res payload header kind some_seg fits =
      let size : x.pl.len ≡ seg = ap (λ (b : AvtBuffer). b.len) payload ∙ res.pushed.size in
      let same : hdr_size x.pkt.body ≡ hdr_size w.state.p.pkt.body =
        ap (λ (q : AvtPacketData). hdr_size q.body) header ∙ kind in
      (
        record {
          start =
              ap (λ (b : AvtBuffer). b.data_) payload
              ∙ res.pushed.start
              ∙ ap (λ (b : AvtBuffer). b.data_ + 0) h.payload;
          some_bytes = omega arith;
          fits = omega arith;
          header = λ later. absurd (later refl);
        },
        size,
      )

  -- The context and the bucket after the first packet.
  first-Begun :
      (w w1 w2 : Push) (seg : ℕ) (p' : AvtPktd) (g : AvtPacketData) (dst' : AvtPacketFifo)
      → Start hdr_size lim tot pl w
      → Reserved w 0 seg w1
      → packet_encode_header encode
          (record w1.state.p { pkt = record w1.state.p.pkt { seq = (get_seq w1.s).0 } })
        ≡ some p'
      → w2.state ≡ record w1.state { p = p' }
      → w2.dst ≡ w1.dst
      → on_last
          (λ slot. record slot {
            pkt = p'.pkt;
            hdr_len = p'.hdr_len;
            hdr = overwrite slot.hdr 0 (take p'.hdr_len p'.hdr);
          })
          w2.dst
        ≡ some dst'
      → packet_create_segment p' 0 0 0 0 ≡ some g
      → 0 < seg
      → hdr_size w.state.p.pkt.body + seg ≤ lim
      → seg ≤ tot
      → Begun hdr_size encode realloc lim seg_hdr tot pl (contents w.dst) (record w2 {
        dst = dst';
        state = record w2.state {
          seg_offset = seg;
          pl_left = tot - seg;
          seg_hdr_size = hdr_size g.body;
        };
      })
  first-Begun w w1 w2 seg p' g dst' h res encoded same_state same_dst put made some_seg fits
        in_all =
      let old = contents w.dst in
      let (header, payload, flag) = packet_encode_header-keeps encode _ p' encoded in
      let kind : hdr_size p'.pkt.body ≡ hdr_size w.state.p.pkt.body =
        ap (λ (q : AvtPacketData). hdr_size q.body) header
        ∙ ap (λ (st : SchedulerPacketContext). hdr_size st.p.pkt.body) res.same_state in
      let (s, body, series) = packet_create_segment-series p' 0 0 0 0 g made in
      let last = subst (λ d. LastIs d w.dst.nb old res.pushed.x) (sym same_dst) res.pushed.last in
      let (last', alloc') =
        on_last-keeps
          (λ slot. record slot {
            pkt = p'.pkt;
            hdr_len = p'.hdr_len;
            hdr = overwrite slot.hdr 0 (take p'.hdr_len p'.hdr);
          })
          w2.dst dst' w.dst.nb old res.pushed.x last put in
      let x : AvtPktd = record res.pushed.x {
        pkt = p'.pkt;
        hdr_len = p'.hdr_len;
        hdr = overwrite res.pushed.x.hdr 0 (take p'.hdr_len p'.hdr);
      } in
      let (tile, size) = first-IsTile w w1 seg p' x h res refl refl kind some_seg fits in
      let growth : dst'.alloc ≤ max w.dst.alloc (2 * w.dst.nb + 2) =
        omega (arith, alloc', ap (λ (d : AvtPacketFifo). d.alloc) same_dst, res.pushed.growth) in
      let sent =
        Sent-next hdr_size lim tot pl 0 old w.dst dst' 0 tot seg x (nothing-Sent w h) last' growth
          tile size in_all in
      let from_zero : 0 + seg ≡ seg = omega arith in
      (
        record {
          tiled = subst (λ n. Sent hdr_size lim tot pl 0 old dst' n (tot - seg)) from_zero sent;
          payload =
              ap (λ (st : SchedulerPacketContext). st.p.pl) same_state
              ∙ payload
              ∙ ap (λ (st : SchedulerPacketContext). st.p.pl) res.same_state
              ∙ h.payload;
          hdr = ap hdr_size body ∙ fixed s;
        },
        ap (λ (st : SchedulerPacketContext). st.p.pl_has_hash) same_state
            ∙ flag
            ∙ ap (λ (st : SchedulerPacketContext). st.p.pl_has_hash) res.same_state
            ∙ h.no_hash,
      )

  pub send_first-After :
      (out_limit : ℕ) (w : Push)
      → Start hdr_size lim tot pl w
      → After
          (Begun hdr_size encode realloc lim seg_hdr tot pl (contents w.dst))
          (Outcome hdr_size encode realloc lim seg_hdr tot pl 0 (contents w.dst))
          (send_first hdr_size encode realloc lim out_limit tot w)
  unfolding send_first
  send_first-After out_limit w h =
      let old = contents w.dst in
      let Q = Begun hdr_size encode realloc lim seg_hdr tot pl old in
      let R = Outcome hdr_size encode realloc lim seg_hdr tot pl 0 old in
      let hdr = hdr_size w.state.p.pkt.body in
      let seg = chunk hdr_size encode realloc lim hdr tot in
      let some_seg : 0 < seg = omega (arith, h.room, h.some_bytes) in
      let is_counted = ap (λ (b : AvtBuffer). b.refcnt) h.payload ∙ counted in
      After-bind (Reserved w 0 seg) Q R _ _
        (After-weaken (Reserved w 0 seg) Enomem R _
          (reserve-After hdr_size encode realloc w 0 seg r h.valid h.small is_counted some_seg)
          (λ res w' e. inl e))
        (λ w1 res. After-option Q R (packet_change_size w1.state.p.pkt 0 seg tot) _ (λ _ changed.
          After-option Q R
            (packet_encode_header encode
              (record w1.state.p { pkt = record w1.state.p.pkt { seq = (get_seq w1.s).0 } }))
            _
            (λ p' encoded.
              After-bind
                (Accounted (record w1 { s = (get_seq w1.s).1; state = record w1.state { p = p' } })
                  (hdr + seg))
                Q R _ _
                (account-After hdr_size encode realloc
                  (record w1 { s = (get_seq w1.s).1; state = record w1.state { p = p' } })
                  (hdr + seg) R)
                (λ w2 acc.
                  After-option Q R
                    (on_last
                      (λ slot. record slot {
                        pkt = p'.pkt;
                        hdr_len = p'.hdr_len;
                        hdr = overwrite slot.hdr 0 (take p'.hdr_len p'.hdr);
                      })
                      w2.dst)
                    _
                    (λ dst' put. After-option Q R (packet_create_segment p' 0 0 0 0) _ (λ g made.
                      let begun =
                        first-Begun w w1 w2 seg p' g dst' h res encoded acc.same_state acc.same_dst
                          put made (some_seg) (omega (arith, h.room)) (omega arith) in
                      let w3 : Push = record w2 {
                        dst = dst';
                        state = record w2.state {
                          seg_offset = seg;
                          pl_left = tot - seg;
                          seg_hdr_size = hdr_size g.body;
                        };
                      } in
                      After-ends Q R (leb out_limit w2.out_acc) (returns (ok w2.out_acc) w3)
                        (goes_on w3)
                        (inr (
                          progress hdr_size encode realloc lim seg_hdr tot pl 0 old (ok w2.out_acc)
                            w3 begun.0))
                        begun))))))
