-- ===== src/Encode.antt =====
-- libavtransport/utils_packet.h: segments of a packet, and the encoding of a packet's header into the
-- packet. The functions avt_encode_* are made by the build from the specification: `encode` is the
-- bytes that they write for a packet.
use qproto.Common.{
  ◌≡◌, arith, ℕ, ◌+◌, ◌*◌, ◌%◌, Bool, true, false, List, Option, none, some, length, take, drop,
  overwrite, if◌then◌else◌,
}
use qproto.Common.Int.{negsuc}
use qproto.Packet.{AvtPacketData, Body, Segmented, GenericSegment, segment, packet_series}
use qproto.Fifo.{AvtPktd}

-- `none` is the `unreachable()` of the default case.
unfoldable pub packet_create_segment : AvtPktd → ℕ → ℕ → ℕ → ℕ → Option AvtPacketData
packet_create_segment p seq seg_offset seg_length tot_pl_size = elim (p.pkt.body) [
  | Body.stream_data d ↦ some (record {
    seq = seq;
    stream_id = p.pkt.stream_id;
    body = segment Segmented.stream_data (record {
      target_seq = p.pkt.seq;
      pkt_total_data = tot_pl_size;
      seg_offset = seg_offset;
      seg_length = seg_length;
      header_7 = take 4 (drop (p.hdr_off + seq % 7 * 4) p.hdr);
    });
  })
  | _ ↦ none
]

-- A segment says of itself what it was made for.
pub packet_create_segment-series :
    (p : AvtPktd) (seq off len tot : ℕ) (q : AvtPacketData)
    → packet_create_segment p seq off len tot ≡ some q
    → (g : GenericSegment) × (q.body ≡ segment Segmented.stream_data g)
      × (packet_series q
          ≡ (negsuc 0, some (record { is_parity = some false; off = off; cur = len; tot = tot })))
unfolding packet_create_segment packet_series
packet_create_segment-series p seq off len tot q e = (
  record {
    target_seq = p.pkt.seq;
    pkt_total_data = tot;
    seg_offset = off;
    seg_length = len;
    header_7 = take 4 (drop (p.hdr_off + seq % 7 * 4) p.hdr);
  },
  ground arith,
  ground arith,
)

-- The packets that `avt_packet_encode_header` has a case for.
pub is_encodable : Body → Bool
is_encodable Body.session_start = true
is_encodable (Body.stream_registration tb) = true
is_encodable Body.video_info = true
is_encodable (Body.lut_icc d) = true
is_encodable (Body.font_data d) = true
is_encodable (Body.stream_data d) = true
is_encodable (Body.user_data d) = true
is_encodable Body.stream_index = true
is_encodable (segment Segmented.metadata s) = true
is_encodable (segment Segmented.font_data s) = true
is_encodable (segment Segmented.stream_data s) = true
is_encodable (segment Segmented.user_data s) = true
is_encodable _ = false

module _ (encode : AvtPacketData → List ℕ) where
  -- `none` is the `unreachable()` of the default case.
  unfoldable pub packet_encode_header : AvtPktd → Option AvtPktd
  unfolding is_encodable
  packet_encode_header p =
      let bytes = encode p.pkt in
      if is_encodable p.pkt.body
      then some (record p { hdr = overwrite p.hdr p.hdr_off bytes; hdr_len = length bytes })
      else none

  -- Encoding changes nothing but the header bytes.
  pub packet_encode_header-keeps :
      (p q : AvtPktd)
      → packet_encode_header p ≡ some q
      → (q.pkt ≡ p.pkt) × (q.pl ≡ p.pl) × (q.pl_has_hash ≡ p.pl_has_hash)
  unfolding packet_encode_header
  packet_encode_header-keeps p q e = ground arith
