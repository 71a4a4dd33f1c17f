-- ===== src/Scheduler/Push.antt =====
-- libavtransport/scheduler.c: `scheduler_push_internal`, which sends a packet with as many segments
-- as the limits allow. `none` is a fault or a failed assertion. `hdr_size` is the generated
-- `avt_pkt_hdr_size` and `encode` the generated avt_encode_*; `realloc` is what an allocation of slots
-- for the FIFO has in it, if it succeeds.
pub mod After
pub mod Tiling
pub mod Segments
pub mod Calls
pub mod First
pub mod Fresh
mod Tests
use qproto.Common.{
  ℕ, zero, suc, ◌+◌, ◌-◌, ◌*◌, ◌%◌, ◌^◌, min, Bool, true, false, ◌&&◌, List, [], ◌∷◌, Option, none,
  some, ◌>>=◌, Result, ok, err, Err, eagain, enomem, get_elem?, take, overwrite, ltb, leb, ◌==◌,
  not, u32, if◌then◌else◌,
}
use qproto.Buffer.{AvtBuffer, Heap, buffer_get_data_len}
use qproto.Packet.{AvtPacketData, Body, packet_change_size}
use qproto.Fifo.{AvtPktd, AvtPacketFifo, pkt_fifo_push_new, on_last}
use qproto.Encode.{packet_create_segment, packet_encode_header}
use qproto.Scheduler.{AvtScheduler, SchedulerPacketContext, get_seq, update_sw}

-- What the function works on: the scheduler, the packet, the bucket, the counters, and the bytes sent.
pub record Push : Type 0 where
  pub s : AvtScheduler
  pub state : SchedulerPacketContext
  pub dst : AvtPacketFifo
  pub heap : Heap
  pub out_acc : ℕ

-- Whether it has returned; the last case is a loop that has run out of rounds.
pub data Flow : Type 0 where
  returns : Result ℕ → Push → Flow
  goes_on : Push → Flow
  out_of_rounds : Flow

infixl 5 ◌>>>◌
abbrev pub ◌>>>◌ : Option Flow → (Push → Option Flow) → Option Flow
none >>> k = none
some (returns r w) >>> k = some (returns r w)
some (goes_on w) >>> k = k w
some out_of_rounds >>> k = some out_of_rounds

module _ (hdr_size : Body → ℕ) (encode : AvtPacketData → List ℕ)
    (realloc : AvtPacketFifo → Option AvtPktd) where
  -- Reserves a packet in the bucket, or returns ENOMEM.
  pub reserve : Push → Option AvtBuffer → ℕ → ℕ → Option Flow
  reserve w pl offset len =
      pkt_fifo_push_new (realloc w.dst) w.dst pl offset len w.heap >>= λ (r, h). elim r [
        | err e ↦ some (returns (err enomem) (record w { heap = h }))
        | ok dst' ↦ some (goes_on (record w { dst = dst'; heap = h }))
      ]

  -- Sets the packet that was reserved, with its encoded header.
  pub set_packet : Push → AvtPacketData → Option Flow
  set_packet w pkt = on_last (λ slot. record slot { pkt = pkt }) w.dst >>= λ dst'.
      (get_elem? dst'.slots (dst'.nb - 1)) >>= λ slot. packet_encode_header encode slot >>= λ slot'.
      on_last (λ _. slot') dst' >>= λ dst''. some (goes_on (record w { dst = dst'' }))

  -- `out_acc += acc` and `update_sw`.
  pub account : Push → ℕ → Option Flow
  account w acc =
      update_sw w.s acc >>= λ s'. some (goes_on (record w { s = s'; out_acc = w.out_acc + acc }))

  -- `lim - hdr_size` of type `size_t`, and the smaller of it and what is left.
  abbrev pub chunk : ℕ → ℕ → ℕ → ℕ
  chunk lim hdr left = min ((lim + 2 ^ 64 - hdr) % 2 ^ 64) left

  -- A packet without a payload.
  pub send_bare : Push → Option Flow
  unfolding reserve set_packet account
  send_bare w = reserve w none 0 0 >>> λ w1. set_packet w1 w1.state.p.pkt >>> λ w2.
      account w2 (hdr_size w2.state.p.pkt.body) >>> λ w3.
      some
        (returns (ok 0) (record w3 { state = record w3.state { seg_offset = 0; present = false } }))

  -- The packet with the first bytes of its payload. `avt_packet_change_size` changes a copy.
  pub send_first : ℕ → ℕ → ℕ → Push → Option Flow
  unfolding reserve account
  send_first lim out_limit pl_size w =
      let hdr = hdr_size w.state.p.pkt.body in
      let seg = chunk lim hdr pl_size in
      reserve w (some w.state.p.pl) 0 seg >>> λ w1.
      packet_change_size w1.state.p.pkt 0 seg pl_size >>= λ _.
      let (seq', s') = get_seq w1.s in
      packet_encode_header encode (record w1.state.p { pkt = record w1.state.p.pkt { seq = seq' } })
      >>= λ p'.
          account (record w1 { s = s'; state = record w1.state { p = p' } }) (hdr + seg) >>> λ w2.
          on_last
            (λ slot. record slot {
              pkt = p'.pkt;
              hdr_len = p'.hdr_len;
              hdr = overwrite slot.hdr 0 (take p'.hdr_len p'.hdr);
            })
            w2.dst
          >>= λ dst'. packet_create_segment p' 0 0 0 0 >>= λ g.
              let state' : SchedulerPacketContext = record w2.state {
                seg_offset = seg;
                pl_left = pl_size - seg;
                seg_hdr_size = hdr_size g.body;
              } in
              let w3 : Push = record w2 { dst = dst'; state = state' } in
              some (if leb out_limit w3.out_acc then returns (ok w3.out_acc) w3 else goes_on w3)

  -- The hash of the payload, once.
  pub send_hash : ℕ → Push → Option Flow
  unfolding reserve set_packet account
  send_hash out_limit w =
      let acc = hdr_size (Body.hash_data 0 []) in
      if w.state.p.pl_has_hash && not w.state.hash_sent
      then if ltb out_limit acc
        then some (returns (err eagain) w)
        else (reserve w none 0 0 >>> λ w1.
            let (seq', s') = get_seq w1.s in
            set_packet (record w1 { s = s' })
              (record {
                seq = seq';
                stream_id = w1.state.p.pkt.stream_id;
                body = Body.hash_data w1.state.p.pkt.seq (take 16 w1.state.p.pl_hash);
              })
            >>> λ w2. account w2 acc >>> λ w3.
                some (goes_on (record w3 { state = record w3.state { hash_sent = true } })))
      else some (goes_on w)

  -- One segment of the payload.
  pub send_segment : ℕ → ℕ → Push → Option Flow
  unfolding reserve set_packet account
  send_segment lim pl_size w =
      let hdr = w.state.seg_hdr_size in
      let seg = chunk lim hdr w.state.pl_left in
      reserve w (some w.state.p.pl) w.state.seg_offset seg >>> λ w1.
      let (seq', s') = get_seq w1.s in
      packet_create_segment w1.state.p seq' w1.state.seg_offset seg pl_size >>= λ pkt.
      set_packet (record w1 { s = s' }) pkt >>> λ w2. account w2 (hdr_size pkt.body + seg) >>> λ w3.
      some (
        goes_on (record w3 {
          state = record w3.state {
            seg_offset = u32 (w3.state.seg_offset + seg);
            pl_left = w3.state.pl_left - seg;
          };
        }))

  -- The loop over the payload that is left.
  pub send_segments : ℕ → ℕ → ℕ → ℕ → Push → Option Flow
  unfolding send_segment
  send_segments zero lim out_limit pl_size w = some out_of_rounds
  send_segments (suc rounds) lim out_limit pl_size w =
      if w.state.pl_left == 0
      then some (goes_on w)
      else send_segment lim pl_size w >>> λ w1.
          if ltb out_limit (w1.out_acc + w1.state.seg_hdr_size + 1)
          then some (returns (ok w1.out_acc) w1)
          else send_segments rounds lim out_limit pl_size w1

  -- The end of the function: the packet is done when nothing was left to send.
  pub finish : Push → Flow
  finish w =
      if w.out_acc == 0
      then returns (ok 0) (record w {
        state = record w.state { seg_offset = 0; present = false; hash_sent = false };
      })
      else returns (ok w.out_acc) w

  -- From the label `resume` on. Each round sends a byte of the payload or at least a header.
  pub resume : ℕ → ℕ → ℕ → Push → Option Flow
  unfolding send_hash send_segments finish
  resume lim out_limit pl_size w = send_hash out_limit w >>> λ w1.
      if ltb out_limit (w1.state.seg_hdr_size + 1)
      then some (returns (err eagain) w1)
      else send_segments (w1.state.pl_left + out_limit + 1) lim out_limit pl_size w1 >>> λ w2.
          some (finish w2)

  pub push_internal :
      AvtScheduler → SchedulerPacketContext → AvtPacketFifo → ℕ → ℕ → Heap → Option Flow
  unfolding send_bare send_first resume
  push_internal s state dst seg_size_lim out_limit h =
      let pl_size = u32 (buffer_get_data_len state.p.pl) in
      let lim = min seg_size_lim out_limit in
      let hdr = hdr_size state.p.pkt.body in
      let w : Push = record { s = s; state = state; dst = dst; heap = h; out_acc = 0 } in
      if not (state.seg_offset == 0)
      then resume lim out_limit pl_size w
      else if ltb out_limit (hdr + (if pl_size == 0 then 0 else 1))
      then some (returns (err eagain) w)
      else if pl_size == 0
      then send_bare w
      else (send_first lim out_limit pl_size w >>> λ w1. resume lim out_limit pl_size w1)
