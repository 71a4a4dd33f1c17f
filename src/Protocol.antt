-- ===== src/Protocol.antt =====
-- libavtransport/protocol_common.c, protocol_common.h, protocol_datagram.c and protocol_stream.c: the
-- protocols that send packets over an input and output. Receiving is not modelled: datagrams are not
-- received yet, and a stream is read by generated decoders.
pub mod Positions
pub mod Index
pub mod Kinds
mod Tests
use qproto.Common.{
  ℕ, zero, suc, ◌+◌, ◌-◌, ◌%◌, ◌^◌, Bool, true, false, ◌||◌, List, [], ◌∷◌, Option, none, some,
  Result, ok, err, enomem, enotsup, ltb, if◌then◌else◌, take, set, length, leb, ◌==◌, ◌++◌, u32,
  u64, ◌>>=◌,
}
use qproto.Common.Int.{ℤ, pos, negsuc, is_neg, to_int32}
use qproto.Fifo.{AvtPktd, AvtPacketFifo}
use qproto.Address.Types.{AvtAddress, AvtProtocolType}
use qproto.Io.{AvtIo, avt_error}

pub data Protocol : Type 0 where
  avt_protocol_datagram avt_protocol_stream avt_protocol_quic : Protocol

-- With OpenSSL or without. The protocol of packet callbacks is commented out.
unfoldable pub avt_protocol_list : Bool → AvtProtocolType → Option Protocol
avt_protocol_list openssl AvtProtocolType.datagram = some avt_protocol_datagram
avt_protocol_list openssl AvtProtocolType.udp = some avt_protocol_datagram
avt_protocol_list openssl AvtProtocolType.udp_lite = some avt_protocol_datagram
avt_protocol_list openssl AvtProtocolType.stream_protocol = some avt_protocol_stream
avt_protocol_list openssl AvtProtocolType.file_protocol = some avt_protocol_stream
avt_protocol_list openssl AvtProtocolType.quic = if openssl then some avt_protocol_quic else none
avt_protocol_list openssl AvtProtocolType.callback_pkt = none

-- `init` is what the initialization of the protocol answers.
unfoldable pub avt_protocol_init : Bool → (Protocol → Result ℕ) → AvtAddress → Result (Protocol × ℕ)
unfolding avt_protocol_list
avt_protocol_init openssl init addr = elim (avt_protocol_list openssl addr.proto) [
  | none ↦ err enotsup
  | some p ↦ elim (init p) [ ok ctx ↦ ok (p, ctx) | err e ↦ err e ]
]

-- Both protocols keep this. The index of the stream protocol is used in receiving only.
pub record AvtProtocolCtx (Ctx : Type 0) : Type 0 where
  pub io : AvtIo Ctx
  pub io_ctx : Ctx
  pub ldpc_iterations : ℤ

-- A result below 0 is returned, as an `int`; any other is 0.
abbrev pub sent : ℤ → ℤ
sent ret = if is_neg ret then to_int32 ret else pos 0

module _ {Ctx : Type 0} where
  -- `datagram_proto_init` and `stream_init`.
  pub proto_init : Bool → AvtIo Ctx → Ctx → ℤ → Result (AvtProtocolCtx Ctx)
  proto_init has_memory io io_ctx ldpc_iterations =
      if has_memory
      then ok (record { io = io; io_ctx = io_ctx; ldpc_iterations = ldpc_iterations })
      else err enomem

  -- The code that is returned, and the protocol with the context after the call.
  abbrev with_ctx : AvtProtocolCtx Ctx → ℤ × Ctx → ℤ × AvtProtocolCtx Ctx
  with_ctx p (ret, c) = (ret, record p { io_ctx = c })

  unfoldable pub proto_add_dst : AvtProtocolCtx Ctx → AvtAddress → ℤ × AvtProtocolCtx Ctx
  proto_add_dst p addr = elim (p.io.add_dst) [
    | none ↦ (avt_error enotsup, p)
    | some add ↦ with_ctx p (add p.io_ctx addr)
  ]

  unfoldable pub proto_rm_dst : AvtProtocolCtx Ctx → AvtAddress → ℤ × AvtProtocolCtx Ctx
  proto_rm_dst p addr = elim (p.io.del_dst) [
    | none ↦ (avt_error enotsup, p)
    | some del ↦ with_ctx p (del p.io_ctx addr)
  ]

  -- The datagram protocol keeps the result in an int64_t.
  unfoldable pub datagram_proto_send_packet : AvtProtocolCtx Ctx → AvtPktd → ℤ × AvtProtocolCtx Ctx
  datagram_proto_send_packet p pkt =
      let (ret, c) = p.io.write_pkt p.io_ctx pkt in (sent ret, record p { io_ctx = c })

  unfoldable pub datagram_proto_send_seq :
      AvtProtocolCtx Ctx → AvtPacketFifo → ℤ × AvtProtocolCtx Ctx
  datagram_proto_send_seq p seq =
      let (ret, c) = p.io.write_vec p.io_ctx (take seq.nb seq.slots) in
      (sent ret, record p { io_ctx = c })

  -- The stream protocol keeps it in an `int`.
  unfoldable pub stream_proto_send_packet : AvtProtocolCtx Ctx → AvtPktd → ℤ × AvtProtocolCtx Ctx
  stream_proto_send_packet p pkt =
      let (ret, c) = p.io.write_pkt p.io_ctx pkt in (sent (to_int32 ret), record p { io_ctx = c })

  unfoldable pub stream_send_seq : AvtProtocolCtx Ctx → AvtPacketFifo → ℤ × AvtProtocolCtx Ctx
  stream_send_seq p seq =
      let (ret, c) = p.io.write_vec p.io_ctx (take seq.nb seq.slots) in
      (sent (to_int32 ret), record p { io_ctx = c })

  -- The code and what `*mtu` is then; a header is 36 bytes at least.
  unfoldable pub datagram_proto_max_pkt_len : AvtProtocolCtx Ctx → ℕ → ℤ × ℕ
  datagram_proto_max_pkt_len p mtu =
      let (ret, tmp) = p.io.get_max_pkt_len p.io_ctx in
      if is_neg ret || ltb tmp (36 - 8) then (ret, mtu) else (pos 0, tmp - 8)

  unfoldable pub stream_proto_max_pkt_len : AvtProtocolCtx Ctx → ℕ → ℤ × ℕ
  stream_proto_max_pkt_len p mtu = p.io.get_max_pkt_len p.io_ctx

  -- The position is set, and the call is not supported all the same.
  unfoldable pub stream_proto_seek : AvtProtocolCtx Ctx → ℤ → ℤ × AvtProtocolCtx Ctx
  stream_proto_seek p off = elim (p.io.seek) [
    | none ↦ (avt_error enotsup, p)
    | some seek ↦ (avt_error enotsup, record p { io_ctx = (seek p.io_ctx off).1 })
  ]

  unfoldable pub proto_flush : AvtProtocolCtx Ctx → ℤ × AvtProtocolCtx Ctx
  proto_flush p = elim (p.io.flush) [
    | none ↦ (avt_error enotsup, p)
    | some flush ↦ with_ctx p (flush p.io_ctx)
  ]

-- The index of a stream: a ring of at most `nb_index_max` entries. `nb_index` and `nb_alloc_index` are
-- of type `int`, and an addition that leaves it is a fault.
pub record AvtIndexContext (A : Type 0) : Type 0 where
  pub index : List A
  pub nb_index : ℕ
  pub nb_alloc_index : ℕ
  pub nb_index_total : ℕ
  pub nb_index_max : ℕ

module _ {A : Type 0} where
  -- A write outside of the array is a fault. The place is an `int`; one that is cut to a number below 0
  -- is 2^31 or more here, which is outside too.
  abbrev put_entry : AvtIndexContext A → ℕ → A → Option (Result (AvtIndexContext A))
  put_entry ic dst entry =
      if ltb dst (length ic.index)
      then some (
          ok (record ic {
            index = set ic.index dst entry;
            nb_index_total = u64 (ic.nb_index_total + 1);
          }))
      else none

  -- One round: an entry that is decoded, and whether there is memory for one more.
  unfoldable pub add_index_entry :
      AvtIndexContext A → Bool × A → Option (Result (AvtIndexContext A))
  add_index_entry ic (has_memory, entry) =
      if leb ic.nb_index_max ic.nb_index
      then (if ic.nb_index_max == 0
          then none
          else put_entry ic (u32 (ic.nb_index_total % ic.nb_index_max)) entry)
      else if leb (2 ^ 31) (ic.nb_index + 1)
      then none
      else if ltb ic.nb_alloc_index (ic.nb_index + 1)
      then (if has_memory
          then put_entry
              (record ic {
                index = ic.index ++ (entry ∷ []);
                nb_index = ic.nb_index + 1;
                nb_alloc_index = ic.nb_alloc_index + 1;
              })
              ic.nb_index entry
          else some (err enomem))
      else put_entry ic ic.nb_index entry

  unfoldable pub avt_index_list_parse :
      AvtIndexContext A → List (Bool × A) → Option (Result (AvtIndexContext A))
  unfolding add_index_entry
  avt_index_list_parse ic [] = some (ok ic)
  avt_index_list_parse ic (e ∷ entries) = add_index_entry ic e >>= λ r. elim r [
    | err x ↦ some (err x)
    | ok ic' ↦ avt_index_list_parse ic' entries
  ]
