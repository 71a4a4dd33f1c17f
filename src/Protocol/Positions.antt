-- ===== src/Protocol/Positions.antt =====
-- What the protocols report of positions in the output.
use qproto.Common.{ℕ, ◌%◌, ◌^◌, ◌<◌, ◌≡◌, refl, arith, leb}
use qproto.Common.Int.{pos, is_neg, as_signed, to_int32}
use qproto.Fifo.{AvtPktd}
use qproto.Io.Null.{NullCtx, avt_io_null}
use qproto.Protocol.{AvtProtocolCtx, sent, datagram_proto_send_packet, stream_proto_send_packet}

-- A protocol over the null output.
abbrev pub over_null : NullCtx → AvtProtocolCtx NullCtx
over_null io = record { io = avt_io_null; io_ctx = io; ldpc_iterations = pos 0 }

cut : (m : ℕ) → m < 2 ^ 32 → is_neg (sent (as_signed 32 m)) ≡ leb (2 ^ 31) m
cut m lt = ground arith

-- Over any output that writes a packet and answers with a position of 0 or more: the datagram protocol
-- reports 0, whatever the position is. The stream protocol reports an error exactly when bit 31 of the
-- position is set. Either way the protocol goes on with the output after the write.
pub send_packet-position :
    {Ctx : Type 0} (p : AvtProtocolCtx Ctx) (pkt : AvtPktd) (n : ℕ) (c : Ctx)
    → p.io.write_pkt p.io_ctx pkt ≡ (pos n, c)
    → (datagram_proto_send_packet p pkt ≡ (pos 0, record p { io_ctx = c }))
      × ((stream_proto_send_packet p pkt).1 ≡ record p { io_ctx = c })
      × (is_neg (stream_proto_send_packet p pkt).0 ≡ leb (2 ^ 31) (n % 2 ^ 32))
unfolding datagram_proto_send_packet stream_proto_send_packet
send_packet-position p pkt n c written =
    let low : is_neg (sent (to_int32 (pos n))) ≡ leb (2 ^ 31) (n % 2 ^ 32) =
      cut (n % 2 ^ 32) (omega arith) in
    (rw written refl, rw written refl, rw written low)
