-- ===== src/Output/Packets.antt =====
-- libavtransport/output_packet.c: the packets that a sender hands to its connections. What a connection
-- does with one, `avt_connection_send`, is a parameter: the result, which is below 0 for an error, the
-- connection and the counters after the call, or a fault. Fields of packets that the model's packets
-- do not have are left out.
pub mod Delivery
use qproto.Common.{
  ℕ, zero, suc, ◌≡◌, refl, ◌∙◌, ap, sym, arith, Bool, true, false, List, [], ◌∷◌, Option, none,
  some, Result, ok, err, Err, replicate, if◌then◌else◌, ◌>>=◌, Option-cases, inl, inr,
}
use qproto.Common.Int.{ℤ, pos, is_neg}
use qproto.Rational.{AvtRational}
use qproto.Packet.{AvtPacketData, Body, StreamData, no_compression}
use qproto.Buffer.{AvtBuffer, Heap, null_buffer, buffer_quick_unref}
use qproto.Fifo.{AvtPktd}
use qproto.Io.{avt_error}
use qproto.Output.{CodecId, compress_method, Config, Compressor, payload_process}

-- The fields of a stream and of a packet of the user that are read here.
pub record AvtStream : Type 0 where
  pub id : ℕ
  pub codec_id : CodecId
  pub timebase : AvtRational

pub record AvtPacket : Type 0 where
  pub payload : AvtBuffer
  pub pts : ℤ
  pub duration : ℤ

-- `AVTPktd p = { .pkt = ... }`
abbrev pub new_pktd : ℕ → Body → AvtPktd
new_pktd stream_id body = record {
  hdr = replicate 1024 0;
  pkt = record { seq = 0; stream_id = stream_id; body = body };
  pl = null_buffer;
  pl_hash = replicate 16 0;
  hdr_len = 0;
  hdr_off = 0;
  pl_has_hash = false;
}

abbrev pub data_pktd : AvtStream → AvtPacket → AvtPktd
data_pktd st pkt = new_pktd st.id (
    Body.stream_data (record {
      data_length = 0;
      pkt_segmented = false;
      pkt_compression = no_compression;
      pts = pkt.pts;
      duration = pkt.duration;
    }))

module _ {Conn : Type 0} (send : Conn → AvtPktd → Heap → Option (ℤ × Conn × Heap)) where
  -- The loop over the connections; an error does not end it.
  unfoldable pub send_each : ℤ → List Conn → AvtPktd → Heap → Option (ℤ × List Conn × Heap)
  send_each ret [] p h = some (ret, [], h)
  send_each ret (c ∷ conns) p h = send c p h >>= λ (code, c', h').
      send_each (if is_neg code then code else ret) conns p h' >>= λ (ret', conns', h'').
      some (ret', c' ∷ conns', h'')

  unfoldable pub send_pkt : List Conn → AvtPktd → Heap → Option (ℤ × List Conn × Heap)
  unfolding send_each buffer_quick_unref
  send_pkt conns p h = send_each (pos 0) conns p h >>= λ (ret, conns', h').
      buffer_quick_unref p.pl h' >>= λ (pl, h''). some (ret, conns', h'')

  pub send_pkt_time_sync : List Conn → Heap → Option (ℤ × List Conn × Heap)
  unfolding send_pkt
  send_pkt_time_sync conns h = send_pkt conns (new_pktd 0 Body.time_sync) h

  pub send_pkt_stream_register : List Conn → AvtStream → Heap → Option (ℤ × List Conn × Heap)
  unfolding send_pkt
  send_pkt_stream_register conns st h =
      send_pkt conns (new_pktd st.id (Body.stream_registration st.timebase)) h

  pub send_pkt_stream_data :
      Config
      → Compressor
      → Option (AvtBuffer → List ℕ)
      → Bool
      → ℕ
      → List Conn
      → AvtStream
      → AvtPacket
      → Heap
      → Option (ℤ × List Conn × Heap)
  unfolding send_pkt payload_process compress_method
  send_pkt_stream_data cfg z hash hash_ok compress conns st pkt h =
      let p = data_pktd st pkt in
      let wanted = compress_method p.pkt.body st.codec_id false compress in
      payload_process cfg z hash hash_ok wanted p pkt.payload h >>= λ r. elim r [
        | err e ↦ some (avt_error e, conns, h)
        | ok (p', h') ↦ send_pkt conns p' h'
      ]

  pub send_pkt_video_info : List Conn → AvtStream → Heap → Option (ℤ × List Conn × Heap)
  unfolding send_pkt
  send_pkt_video_info conns st h = send_pkt conns (new_pktd st.id Body.video_info) h

  pub send_pkt_video_orientation : List Conn → AvtStream → Heap → Option (ℤ × List Conn × Heap)
  unfolding send_pkt
  send_pkt_video_orientation conns st h = send_pkt conns (new_pktd st.id Body.video_orientation) h
