-- ===== src/Packet.antt =====
-- libavtransport/utils_packet_template.h and packet_common.h: packets and what the code asks of any
-- kind of packet. The build generates `union AVTPacketData` from the specification, so a packet here
-- is the member of the union that its descriptor selects, with the fields that the code names.
pub mod Series
mod Tests
use qproto.Common.{
  ℕ, ◌-◌, ◌^◌, Bool, true, false, List, Option, none, some, ltb, ◌==◌, not, if◌then◌else◌,
}
use qproto.Common.Int.{ℤ, pos, negsuc, int64_min}
use qproto.Rational.{AvtRational}

-- `enum AVTDataCompression`
pub data DataCompression : Type 0 where
  no_compression zstd brotli : DataCompression

pub record StreamData : Type 0 where
  pub data_length : ℕ
  pub pkt_segmented : Bool
  pub pkt_compression : DataCompression
  pub pts : ℤ
  pub duration : ℤ

-- A payload that knows its own and its total length: generic_data, user_data, lut_icc, font_data.
pub record SizedData : Type 0 where
  pub pl_length : ℕ
  pub data_length : ℕ
  pub compression : DataCompression

pub record FecGroupData : Type 0 where
  pub fec_data_length : ℕ
  pub fec_total_data_length : ℕ
  pub fec_data_offset : ℕ

pub record GenericSegment : Type 0 where
  pub target_seq : ℕ
  pub pkt_total_data : ℕ
  pub seg_offset : ℕ
  pub seg_length : ℕ
  pub header_7 : List ℕ

pub record GenericParity : Type 0 where
  pub target_seq : ℕ
  pub parity_total : ℕ
  pub parity_data_offset : ℕ
  pub parity_data_length : ℕ
  pub header_7 : List ℕ

-- What a segment or a parity packet belongs to.
pub data Segmented : Type 0 where
  metadata user_data lut_icc font_data stream_data stream_config : Segmented

-- The members of the union, with the descriptors that share one.
pub data Body : Type 0 where
  session_start time_sync video_info video_orientation stereo_video stream_end : Body
  stream_registration : AvtRational → Body
  stream_index fec_grouping : Body
  -- The target's sequence number and the hash.
  hash_data : ℕ → List ℕ → Body
  stream_data : StreamData → Body
  stream_config metadata : SizedData → Body
  user_data lut_icc font_data : SizedData → Body
  fec_group_data : FecGroupData → Body
  segment : Segmented → GenericSegment → Body
  parity : Segmented → GenericParity → Body

-- `union AVTPacketData`: every member begins with these fields.
pub record AvtPacketData : Type 0 where
  pub seq : ℕ
  pub stream_id : ℕ
  pub body : Body

-- The flag bits of a stream data descriptor are no part of the model's descriptor.
pub packet_get_duration : AvtPacketData → ℤ
packet_get_duration p = elim (p.body) [ Body.stream_data d ↦ d.duration | _ ↦ int64_min ]

pub packet_get_pts : AvtPacketData → ℤ
packet_get_pts p = elim (p.body) [ Body.stream_data d ↦ d.pts | _ ↦ int64_min ]

-- `none` is AVT_ERROR(EINVAL), which leaves `*tb` alone.
unfoldable pub packet_get_tb : AvtPacketData → Option AvtRational
packet_get_tb p = elim (p.body) [ stream_registration timebase ↦ some timebase | _ ↦ none ]

-- `none` is the `unreachable()` of the default case.
set_compression_in : DataCompression → Body → Option Body
set_compression_in c (Body.stream_data d) =
    some (Body.stream_data (record d { pkt_compression = c }))
set_compression_in c (Body.stream_config d) =
    some (Body.stream_config (record d { compression = c }))
set_compression_in c (Body.metadata d) = some (Body.metadata (record d { compression = c }))
set_compression_in c (Body.user_data d) = some (Body.user_data (record d { compression = c }))
set_compression_in c (Body.lut_icc d) = some (Body.lut_icc (record d { compression = c }))
set_compression_in c (Body.font_data d) = some (Body.font_data (record d { compression = c }))
set_compression_in c _ = none

unfoldable pub packet_set_compression : AvtPacketData → DataCompression → Option AvtPacketData
unfolding set_compression_in
packet_set_compression p c = elim (set_compression_in c p.body) [
  | none ↦ none
  | some b ↦ some (record p { body = b })
]

-- What `avt_packet_series` stores through its pointers; `is_parity` is `none` where it is not
-- stored to.
pub record SeriesOut : Type 0 where
  pub is_parity : Option Bool
  pub off : ℕ
  pub cur : ℕ
  pub tot : ℕ

abbrev pub to_int : Bool → ℤ
to_int b = if b then pos 1 else pos 0

abbrev pub sized_series : SizedData → ℤ × Option SeriesOut
sized_series d = (
  to_int (not (d.pl_length == d.data_length)),
  some (record { is_parity = some false; off = 0; cur = d.pl_length; tot = d.data_length }),
)

abbrev pub segment_series : GenericSegment → ℤ × Option SeriesOut
segment_series s = (
  negsuc 0,
  some (record {
    is_parity = some false;
    off = s.seg_offset;
    cur = s.seg_length;
    tot = s.pkt_total_data;
  }),
)

abbrev pub parity_series : GenericParity → ℤ × Option SeriesOut
parity_series s = (
  negsuc 0,
  some (record {
    is_parity = some true;
    off = s.parity_data_offset;
    cur = s.parity_data_length;
    tot = s.parity_total;
  }),
)

-- Segments and parity of stream configurations are in no case of the switch.
pub series_of : Body → ℤ × Option SeriesOut
series_of (Body.stream_data d) = (
  to_int d.pkt_segmented,
  some (record {
    is_parity = some false;
    off = 0;
    cur = d.data_length;
    tot = if not d.pkt_segmented then d.data_length else 0;
  }),
)
series_of (Body.stream_config d) = sized_series d
series_of (Body.metadata d) = sized_series d
series_of (Body.user_data d) = sized_series d
series_of (Body.lut_icc d) = sized_series d
series_of (Body.font_data d) = sized_series d
series_of (fec_group_data d) = (
  to_int (not (d.fec_data_length == d.fec_total_data_length)),
  some (record {
    is_parity = none;
    off = d.fec_data_offset;
    cur = d.fec_data_length;
    tot = d.fec_total_data_length;
  }),
)
series_of (segment Segmented.stream_config s) = (pos 0, none)
series_of (segment _ s) = segment_series s
series_of (parity Segmented.stream_config s) = (pos 0, none)
series_of (parity _ s) = parity_series s
series_of _ = (pos 0, none)

unfoldable pub packet_series : AvtPacketData → ℤ × Option SeriesOut
unfolding series_of
packet_series p = series_of p.body

abbrev pub resize_sized : SizedData → ℕ → ℕ → SizedData
resize_sized d seg_length tot = record d { pl_length = seg_length; data_length = tot }

-- `none` is the `unreachable()` of the default case.
pub resize : Body → ℕ → ℕ → ℕ → Option Body
resize (Body.stream_data d) off len tot =
    some (Body.stream_data (record d { data_length = len; pkt_segmented = ltb len tot }))
resize (Body.stream_config d) off len tot = some (Body.stream_config (resize_sized d len tot))
resize (Body.metadata d) off len tot = some (Body.metadata (resize_sized d len tot))
resize (Body.user_data d) off len tot = some (Body.user_data (resize_sized d len tot))
resize (Body.lut_icc d) off len tot = some (Body.lut_icc (resize_sized d len tot))
resize (Body.font_data d) off len tot = some (Body.font_data (resize_sized d len tot))
resize (fec_group_data d) off len tot = some (
    fec_group_data
      (record { fec_data_length = len; fec_total_data_length = tot; fec_data_offset = off }))
resize (segment Segmented.stream_config s) off len tot = none
resize (segment k s) off len tot =
    some (segment k (record s { seg_length = len; seg_offset = off; pkt_total_data = tot }))
resize (parity Segmented.stream_config s) off len tot = none
resize (parity k s) off len tot =
    some (
      parity k
        (record s { parity_data_length = len; parity_data_offset = off; parity_total = tot }))
resize _ off len tot = none

unfoldable pub packet_change_size : AvtPacketData → ℕ → ℕ → ℕ → Option AvtPacketData
unfolding resize
packet_change_size p off len tot = elim (resize p.body off len tot) [
  | none ↦ none
  | some b ↦ some (record p { body = b })
]
