-- ===== src/Scheduler/Push/Segments.antt =====
-- The loop of `scheduler_push_internal`.
use mathlib.Core.Path.{subst}
use qproto.Common.{
  ℕ, ◌+◌, ◌-◌, ◌*◌, ◌^◌, ◌≤◌, ◌<◌, ◌≡◌, ◌∙◌, sym, ap, ap₂, arith, max, false, List, Option, some,
  u32,
}
use qproto.Common.Int.{ℤ, negsuc}
use qproto.Buffer.{AvtBuffer}
use qproto.Packet.{
  AvtPacketData, Body, Segmented, GenericSegment, SeriesOut, segment, packet_series,
}
use qproto.Fifo.{AvtPktd, AvtPacketFifo}
use qproto.Fifo.Queue.{contents}
use qproto.Fifo.Pushing.{LastIs}
use qproto.Encode.{packet_create_segment, packet_create_segment-series}
use qproto.Scheduler.{SchedulerPacketContext, get_seq}
use qproto.Scheduler.Push.{Push, chunk, send_segment}
use qproto.Scheduler.Push.After.{
  After, After-bind, After-option, Enomem, Reserved, Filled, Accounted, reserve-After,
  set_packet-After, account-After,
}
use qproto.Scheduler.Push.Tiling.{IsTile, Sent, Sent-next}

-- The loop's state, for a payload `pl` of `tot` bytes that is counted.
module _ (hdr_size : Body → ℕ) (encode : AvtPacketData → List ℕ)
    (realloc : AvtPacketFifo → Option AvtPktd) (lim seg_hdr tot : ℕ) (pl : AvtBuffer) (from : ℕ)
    (old : List AvtPktd) where
  pub record Sending (w : Push) : Type 0 where
    pub tiled : Sent hdr_size lim tot pl from old w.dst w.state.seg_offset w.state.pl_left
    pub payload : w.state.p.pl ≡ pl
    pub hdr : w.state.seg_hdr_size ≡ seg_hdr

  -- It goes on with less to send.
  pub record Less (w w' : Push) : Type 0 where
    pub sending : Sending w'
    pub less : w'.state.pl_left < w.state.pl_left

  -- The hypotheses on the parameters: the headers of segments of stream data have one size, and the
  -- limit has room for a byte more.
  module _ (fixed : (g : GenericSegment) → hdr_size (segment Segmented.stream_data g) ≡ seg_hdr)
      (room : seg_hdr < lim) (lim_fits : lim < 2 ^ 64) (tot_fits : tot < 2 ^ 32) (r : ℕ)
      (counted : pl.refcnt ≡ some r) where
    abbrev series_at : ℕ → ℕ → ℤ × Option SeriesOut
    series_at off len =
        (negsuc 0, some (record { is_parity = some false; off = off; cur = len; tot = tot }))

    chunk_lem :
        (hdr left : ℕ)
        → hdr ≡ seg_hdr
        → 0 < left
        → (0 < chunk hdr_size encode realloc lim hdr left)
          × (hdr + chunk hdr_size encode realloc lim hdr left ≤ lim)
          × (chunk hdr_size encode realloc lim hdr left ≤ left)
    chunk_lem hdr left e h = (omega arith, omega arith, omega arith)

    -- The packet that a step adds is the next tile.
    segment-IsTile :
        (w w1 : Push) (seg seq : ℕ) (x : AvtPktd) (pkt : AvtPacketData)
        → Sending w
        → (res : Reserved w w.state.seg_offset seg w1)
        → packet_create_segment w1.state.p seq w1.state.seg_offset seg tot ≡ some pkt
        → x.pkt ≡ pkt
        → x.pl ≡ res.pushed.x.pl
        → 0 < seg
        → seg_hdr + seg ≤ lim
        → IsTile hdr_size lim tot pl w.state.seg_offset x × (x.pl.len ≡ seg)
    segment-IsTile w w1 seg seq x pkt h res is header payload some_bytes fits =
        let off = w1.state.seg_offset in
        let (g, body, series) = packet_create_segment-series w1.state.p seq off seg tot pkt is in
        let size : x.pl.len ≡ seg = ap (λ (b : AvtBuffer). b.len) payload ∙ res.pushed.size in
        let kind : hdr_size x.pkt.body ≡ seg_hdr =
          ap (λ (q : AvtPacketData). hdr_size q.body) header ∙ ap hdr_size body ∙ fixed g in
        let same_off : off ≡ w.state.seg_offset =
          ap (λ (st : SchedulerPacketContext). st.seg_offset) res.same_state in
        (
          record {
            start =
                ap (λ (b : AvtBuffer). b.data_) payload
                ∙ res.pushed.start
                ∙ ap (λ (b : AvtBuffer). b.data_ + w.state.seg_offset) h.payload;
            some_bytes = omega arith;
            fits = omega arith;
            header = λ _. ap packet_series header ∙ series ∙ ap₂ (series_at) same_off (sym size);
          },
          size,
        )

    pub send_segment-After :
        (w : Push)
        → Sending w
        → 0 < w.state.pl_left
        → After (Less w) Enomem (send_segment hdr_size encode realloc lim tot w)
    unfolding send_segment
    send_segment-After w h some_left =
        let seg = chunk hdr_size encode realloc lim w.state.seg_hdr_size w.state.pl_left in
        let (some_bytes, fits, in_left) =
          chunk_lem w.state.seg_hdr_size w.state.pl_left h.hdr some_left in
        let is_counted = ap (λ (b : AvtBuffer). b.refcnt) h.payload ∙ counted in
        After-bind (Reserved w w.state.seg_offset seg) (Less w) Enomem _ _
          (reserve-After hdr_size encode realloc w w.state.seg_offset seg r h.tiled.valid
            h.tiled.small is_counted some_bytes)
          (λ w1 res.
            After-option (Less w) Enomem
              (packet_create_segment w1.state.p (get_seq w1.s).0 w1.state.seg_offset seg tot) _
              (λ pkt is.
                After-bind
                  (Filled (record w1 { s = (get_seq w1.s).1 }) w.dst.nb (contents w.dst) pkt
                    res.pushed.x.pl)
                  (Less w) Enomem _ _
                  (set_packet-After hdr_size encode realloc (record w1 { s = (get_seq w1.s).1 })
                    w.dst.nb (contents w.dst) res.pushed.x pkt Enomem res.pushed.last)
                  (λ w2 fil.
                    After-bind (Accounted w2 (hdr_size pkt.body + seg)) (Less w) Enomem _ _
                      (account-After hdr_size encode realloc w2 (hdr_size pkt.body + seg) Enomem)
                      (λ w3 acc.
                        let (tile, size) =
                          segment-IsTile w w1 seg (get_seq w1.s).0 fil.x pkt h res is fil.header
                            fil.payload some_bytes (omega (arith, h.hdr)) in
                        let last =
                          subst (λ d. LastIs d w.dst.nb (contents w.dst) fil.x) (sym acc.same_dst)
                            fil.last in
                        let growth : w3.dst.alloc ≤ max w.dst.alloc (2 * w.dst.nb + 2) = omega (
                          arith,
                          ap (λ (d : AvtPacketFifo). d.alloc) acc.same_dst,
                          fil.same_alloc,
                          res.pushed.growth,
                        ) in
                        let sent =
                          Sent-next hdr_size lim tot pl from old w.dst w3.dst w.state.seg_offset
                            w.state.pl_left seg fil.x h.tiled last growth tile size in_left in
                        let no_wrap : w.state.seg_offset + seg ≡ u32 (w.state.seg_offset + seg) =
                          omega (arith, sent.whole) in
                        subst
                          (λ (st : SchedulerPacketContext). Less w (record w3 {
                            state = record st {
                              seg_offset = u32 (st.seg_offset + seg);
                              pl_left = st.pl_left - seg;
                            };
                          }))
                          (sym (acc.same_state ∙ fil.same_state ∙ res.same_state))
                          (record {
                            sending = record {
                              tiled =
                                  subst
                                    (λ n.
                                      Sent hdr_size lim tot pl from old w3.dst n
                                        (w.state.pl_left - seg))
                                    no_wrap sent;
                              payload = h.payload;
                              hdr = h.hdr;
                            };
                            less = omega arith;
                          })))))
