-- ===== src/Protocol/Tests.antt =====
-- Inputs and outputs, and protocols, at concrete inputs.
use qproto.Common.{
  ℕ, ◌+◌, ◌%◌, ◌^◌, ◌≡◌, refl, ◌≢◌, arith, true, false, [], ◌∷◌, map, none, some, Result, ok, err,
  enoent, leb,
}
use qproto.Common.Int.{pos, is_neg}
use qproto.Strings.{codes, strtok, tokens, strtoul}
use qproto.Buffer.{null_buffer, buffer_get_data_len}
use qproto.Fifo.{AvtPktd}
use qproto.Packet.{Body}
use qproto.Address.Types.{
  AvtAddress, AvtAddressConnection, AvtProtocolType, zeroed, System, parsed, done,
}
use qproto.Address.{avt_addr_4to6}
use qproto.Address.Url.{initial, avt_addr_from_url}
use qproto.Io.{Backend, avt_io_list, map_addr_to_io, avt_io_init, is_invalid}
use qproto.Io.Search.{Preferred, avt_io_init-ne-some}
use qproto.Io.Null.{NullCtx, null_write_pkt}
use qproto.Protocol.{
  avt_protocol_list, datagram_proto_send_packet, stream_proto_send_packet, AvtIndexContext,
  avt_index_list_parse,
}
use qproto.Protocol.Positions.{over_null, send_packet-position}
use qproto.Protocol.Index.{IsRing, configured, configured-IsRing, avt_index_list_parse-IsRing}
use qproto.Protocol.Kinds.{avt_addr_from_url-IsServed}

-- A file that is not there.
abbrev missing : ℕ → Backend → Result ℕ
missing i io = err enoent

abbrev a_file : AvtAddress
a_file = record zeroed { type = AvtAddressConnection.file; proto = AvtProtocolType.file_protocol }

preferred : Preferred a_file Backend.avt_io_mmap_path
unfolding avt_io_list map_addr_to_io
preferred = (Backend.avt_io_fd_path ∷ Backend.avt_io_file ∷ [], refl)

avt_io_init-ne-some_example : avt_io_init missing 1000 a_file ≡ none
avt_io_init-ne-some_example =
    avt_io_init-ne-some missing 1000 a_file Backend.avt_io_mmap_path preferred (λ i. tt)

-- Headers of 100 and 28 bytes, and a position before the end of the range.
abbrev header : ℕ → AvtPktd
header n = record {
  hdr = [];
  pkt = record { seq = 0; stream_id = 0; body = Body.stream_end };
  pl = null_buffer;
  pl_hash = [];
  hdr_len = n;
  hdr_off = 0;
  pl_has_hash = false;
}

abbrev at : ℕ → NullCtx
at n = record { seq = 0; rpos = 0; wpos = n }

-- Two gigabytes into a stream.
written : null_write_pkt (at (2 ^ 31)) (header 36) ≡ (pos (2 ^ 31), at (2 ^ 31 + 36))
unfolding null_write_pkt buffer_get_data_len
written = refl

send_packet-position_example :
    (datagram_proto_send_packet (over_null (at (2 ^ 31))) (header 36)
      ≡ (pos 0, over_null (at (2 ^ 31 + 36))))
    × ((stream_proto_send_packet (over_null (at (2 ^ 31))) (header 36)).1
        ≡ over_null (at (2 ^ 31 + 36)))
    × (is_neg (stream_proto_send_packet (over_null (at (2 ^ 31))) (header 36)).0
        ≡ leb (2 ^ 31) (2 ^ 31 % 2 ^ 32))
send_packet-position_example =
    send_packet-position (over_null (at (2 ^ 31))) (header 36) (2 ^ 31) (at (2 ^ 31 + 36)) written

-- Three entries into an index of two.
avt_index_list_parse-IsRing_example :
    (ic' : AvtIndexContext ℕ) × (avt_index_list_parse
        (configured 2)
        (map (λ e. (true, e)) (10 ∷ 20 ∷ 30 ∷ []))
      ≡ some (ok ic'))
    × IsRing ic' (10 ∷ 20 ∷ 30 ∷ [])
avt_index_list_parse-IsRing_example =
    avt_index_list_parse-IsRing (configured 2) [] (10 ∷ 20 ∷ 30 ∷ [])
      (configured-IsRing 2 (omega arith) (omega arith)) (omega arith)

ring :
    avt_index_list_parse (configured 2) (map (λ (e : ℕ). (true, e)) (10 ∷ 20 ∷ 30 ∷ []))
    ≡ some (
        ok (record {
          index = 30 ∷ 20 ∷ [];
          nb_index = 2;
          nb_alloc_index = 2;
          nb_index_total = 3;
          nb_index_max = 2;
        }))
unfolding avt_index_list_parse
ring = refl

-- An index whose size was not set divides by zero.
not_configured : avt_index_list_parse {A = ℕ} (configured 0) ((true, 10) ∷ []) ≡ none
unfolding avt_index_list_parse
not_configured = refl

abbrev sys : System
sys = record {
  has_memory = λ n. true;
  pton4 = λ h. parsed 16777226;
  pton6 = λ h. parsed [];
  lookup_host = λ h p i. none;
  interface_index = λ s. 0;
  start_of = λ s. none;
}

abbrev quic_host : AvtAddress
quic_host = record (initial true) { proto = AvtProtocolType.quic; ip = avt_addr_4to6 16777226 }

reads : avt_addr_from_url sys true (codes "avt://quic@10.0.0.1") ≡ done quic_host
unfolding avt_addr_from_url strtok tokens strtoul avt_addr_4to6
reads = refl

avt_addr_from_url-IsServed_example :
    (is_invalid (map_addr_to_io quic_host.type quic_host.proto) ≡ false)
    × (avt_protocol_list true quic_host.proto ≢ none)
avt_addr_from_url-IsServed_example =
    avt_addr_from_url-IsServed sys true (codes "avt://quic@10.0.0.1") reads
