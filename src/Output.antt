-- ===== src/Output.antt =====
-- libavtransport/output_packet.c: what a sender puts into packets, and how their payloads are
-- compressed. The compressors and the hash are parameters, and what they write is not modelled.
pub mod Compression
pub mod Streams
pub mod Packets
mod Tests
use Prim.Native.Nat.{bit_and, bit_or}
use qproto.Common.{
  ℕ, ◌+◌, ◌-◌, ◌^◌, Bool, true, false, ◌&&◌, ◌||◌, List, Option, none, some, Result, ok, err,
  enomem, einval, ◌==◌, not, if◌then◌else◌, ◌>>=◌,
}
use qproto.Packet.{
  AvtPacketData, Body, DataCompression, no_compression, zstd, brotli, packet_set_compression,
}
use qproto.Buffer.{AvtBuffer, Heap, null_buffer, buffer_quick_ref, buffer_get_data_len}
use qproto.Buffer.Alloc.{buffer_create, buffer_unref}
use qproto.Fifo.{AvtPktd}

-- `enum AVTSenderCompressionFlags`
abbrev pub compress_meta : ℕ
compress_meta = 1

abbrev pub compress_aux : ℕ
compress_aux = 2

abbrev pub compress_video : ℕ
compress_video = 4

abbrev pub compress_audio : ℕ
compress_audio = 8

abbrev pub compress_subs : ℕ
compress_subs = 16

abbrev pub compress_force : ℕ
compress_force = 2 ^ 30

-- AVT_SENDER_COMPRESS_NONE is INT32_MAX.
abbrev pub compress_none : ℕ
compress_none = 2 ^ 31 - 1

-- `compress & mask` as a condition.
abbrev pub has : ℕ → ℕ → Bool
has compress mask = not (bit_and compress mask == 0)

-- The codecs that the code names.
pub data CodecId : Type 0 where
  srt webvtt ass : CodecId
  opus aac ac3 atrac1 atrac9 tak flac raw_audio : CodecId
  svg tiff : CodecId
  theora vp9 av1 h264 h265 dirac ffv1 prores_sd prores_hq prores_lt prores_proxy prores_4444 :
      CodecId
  prores_4444_xq prores_raw_hq prores_raw_sd jpeg jpeg2000 jpeg2000_ht png raw_video : CodecId
  other_codec : CodecId

-- Stream data by codec.
unfoldable pub compress_stream : CodecId → ℕ → DataCompression
compress_stream srt f = if has f compress_subs then brotli else no_compression
compress_stream webvtt f = if has f compress_subs then brotli else no_compression
compress_stream ass f = if has f compress_subs then brotli else no_compression
compress_stream opus f = if has f (compress_force + compress_audio) then zstd else no_compression
compress_stream aac f = if has f (compress_force + compress_audio) then zstd else no_compression
compress_stream ac3 f = if has f (compress_force + compress_audio) then zstd else no_compression
compress_stream atrac1 f = if has f (compress_force + compress_audio) then zstd else no_compression
compress_stream atrac9 f = if has f (compress_force + compress_audio) then zstd else no_compression
compress_stream tak f = if has f (compress_force + compress_audio) then zstd else no_compression
compress_stream flac f = if has f (compress_force + compress_audio) then zstd else no_compression
compress_stream raw_audio f =
    if has f (compress_force + compress_audio) then zstd else no_compression
compress_stream svg f = if has f compress_video then brotli else no_compression
compress_stream tiff f = if has f compress_video then zstd else no_compression
compress_stream other_codec f = no_compression
compress_stream _ f = if has f (compress_force + compress_video) then zstd else no_compression

-- The flag of a font is whether its type is WOFF2.
unfoldable pub compress_font : Bool → ℕ → DataCompression
compress_font woff2 f =
    if woff2 && has f (compress_force + compress_aux)
    then zstd
    else if has f compress_aux
    then zstd
    else no_compression

-- The flag bits of a stream data descriptor, with which it would be no case of the switch, are no part
-- of the model's descriptor.
unfoldable pub compress_method : Body → CodecId → Bool → ℕ → DataCompression
unfolding compress_stream compress_font
compress_method (Body.stream_data d) codec woff2 f = compress_stream codec f
compress_method (Body.font_data d) codec woff2 f = compress_font woff2 f
compress_method (Body.stream_config d) codec woff2 f =
    if has f compress_aux then zstd else no_compression
compress_method (Body.user_data d) codec woff2 f =
    if has f compress_aux then zstd else no_compression
compress_method (Body.lut_icc d) codec woff2 f = if has f compress_aux then zstd else no_compression
compress_method (Body.metadata d) codec woff2 f =
    if has f compress_meta then brotli else no_compression
compress_method _ codec woff2 f = no_compression

-- Which compressors the library is built with.
pub record Config : Type 0 where
  pub libzstd : Bool
  pub libbrotlienc : Bool

abbrev pub without_brotli : Config → DataCompression → DataCompression
without_brotli c brotli = if c.libbrotlienc then brotli else zstd
without_brotli c m = m

abbrev pub without_zstd : Config → DataCompression → DataCompression
without_zstd c zstd = if c.libzstd then zstd else if c.libbrotlienc then brotli else no_compression
without_zstd c m = m

-- A method that is missing is replaced.
unfoldable pub available : Config → DataCompression → DataCompression
available c m = without_zstd c (without_brotli c m)

-- What malloc and the compressors answer for a payload: the address of the memory; the `size_t` that
-- ZSTD_compressCCtx returns, which may be an error code; the length that BrotliEncoderCompress stores,
-- or `none` where it returns false; and the allocations that a buffer takes.
pub record Compressor : Type 0 where
  pub memory : DataCompression → Option ℕ
  pub zstd_result : ℕ → ℕ
  pub brotli_result : ℕ → Option ℕ
  pub buffer_ok : Bool
  pub count_ok : Bool

-- The length that the code takes for that of the compressed bytes. Of ZSTD's answers only 0 is an error to
-- it; an error code is a length.
abbrev pub compressed_length : Compressor → DataCompression → ℕ → Option ℕ
compressed_length z zstd src_len =
    if z.zstd_result src_len == 0 then none else some (z.zstd_result src_len)
compressed_length z method src_len = z.brotli_result src_len

-- The packet refers to the new buffer, and the buffer's own reference is given up. `none` is a fault.
unfoldable pub hand_over : AvtPktd → AvtBuffer × Heap → Option (Result (AvtPktd × Heap))
unfolding buffer_quick_ref buffer_unref
hand_over p (zbuf, h) = buffer_quick_ref p.pl zbuf 0 0 h >>= λ (pl, h1).
    buffer_unref (some zbuf) h1 >>= λ (gone, h2). some (ok (record p { pl = pl }, h2))

-- A new buffer of the compressed bytes.
unfoldable pub compress_payload :
    Compressor → DataCompression → AvtPktd → ℕ → Heap → Option (Result (AvtPktd × Heap))
unfolding buffer_create hand_over
compress_payload z method p src_len h = elim (z.memory method) [
  | none ↦ some (err enomem)
  | some dst ↦ elim (compressed_length z method src_len) [
    | none ↦ some (err einval)
    | some dst_len ↦ elim (buffer_create z.buffer_ok z.count_ok null_buffer dst dst_len 0 false h) [
      | none ↦ some (err enomem)
      | some made ↦ hand_over p made
    ]
  ]
]

unfoldable pub attach_payload :
    Compressor → DataCompression → AvtPktd → AvtBuffer → Heap → Option (Result (AvtPktd × Heap))
unfolding compress_payload buffer_quick_ref
attach_payload z no_compression p pl h =
    buffer_quick_ref p.pl pl 0 0 h >>= λ (b, h'). some (ok (record p { pl = b }, h'))
attach_payload z method p pl h = compress_payload z method p (buffer_get_data_len pl) h

-- The hash of the payload, if it is wanted.
abbrev pub with_hash : Option (AvtBuffer → List ℕ) → AvtPktd → AvtPktd
with_hash none p = p
with_hash (some xxh) p = record p { pl_hash = xxh p.pl; pl_has_hash = true }

-- The compression is written to the header, and the hash to the packet.
unfoldable pub mark_payload :
    Option (AvtBuffer → List ℕ)
    → DataCompression
    → Result (AvtPktd × Heap)
    → Option (Result (AvtPktd × Heap))
unfolding packet_set_compression
mark_payload hash method (err e) = some (err e)
mark_payload hash method (ok (p, h)) = packet_set_compression p.pkt method >>= λ pkt.
    some (ok (with_hash hash (record p { pkt = pkt }), h))

abbrev is_wanted : Option (AvtBuffer → List ℕ) → Bool
is_wanted none = false
is_wanted (some xxh) = true

-- `hash_ok` is whether the state of the hash could be reset. After an error nothing of the packet is used.
unfoldable pub payload_process :
    Config
    → Compressor
    → Option (AvtBuffer → List ℕ)
    → Bool
    → DataCompression
    → AvtPktd
    → AvtBuffer
    → Heap
    → Option (Result (AvtPktd × Heap))
unfolding attach_payload mark_payload available
payload_process c z hash hash_ok wanted p pl h =
    let method = available c wanted in
    if buffer_get_data_len pl == 0
    then some (ok (p, h))
    else if is_wanted hash && not hash_ok
    then some (err enomem)
    else (attach_payload z method p pl h >>= λ r. mark_payload hash method r)
