-- ===== src/Io/Null.antt =====
-- libavtransport/io_null.c: the input and output that takes everything and gives session start packets.
-- A position is an int64_t: it is kept as the unsigned number with the same bits, and returned signed.
pub mod Vectors
use qproto.Common.{
  ℕ, ◌+◌, ◌-◌, ◌%◌, ◌^◌, Bool, true, false, List, [], ◌∷◌, Option, none, some, Result, ok, err,
  enomem, u64, ltb, if◌then◌else◌,
}
use qproto.Common.Int.{ℤ, pos, negsuc, as_signed, as_unsigned}
use qproto.Buffer.{buffer_get_data_len}
use qproto.Fifo.{AvtPktd}
use qproto.Address.Types.{AvtAddress}
use qproto.Io.{AvtIo}

pub record NullCtx : Type 0 where
  pub seq : ℕ
  pub rpos : ℕ
  pub wpos : ℕ

-- The allocation is `calloc`.
pub null_init : Bool → Result NullCtx
null_init has_memory =
    if has_memory then ok (record { seq = 0; rpos = 0; wpos = 0 }) else err enomem

pub null_close : Option NullCtx → ℤ × Option NullCtx
null_close io = (pos 0, none)

-- SIZE_MAX.
abbrev pub null_max_pkt_len : NullCtx → ℤ × ℕ
null_max_pkt_len io = (pos 0, 2 ^ 64 - 1)

abbrev pub null_add_dst : NullCtx → AvtAddress → ℤ × NullCtx
null_add_dst io addr = (pos 0, io)

abbrev pub null_del_dst : NullCtx → AvtAddress → ℤ × NullCtx
null_del_dst io addr = (pos 0, io)

-- What a packet adds to the position.
abbrev pub written : AvtPktd → ℕ
written p = p.hdr_len + buffer_get_data_len p.pl

-- A session start packet with the next number, of which the encoder gives the bytes. After AVT_SWAP the
-- value returned is the position before.
pub null_input : (ℕ → List ℕ) → (List ℕ → ℕ) → NullCtx → ℤ × List ℕ × NullCtx
null_input encode_session_start size io =
    let bytes = encode_session_start io.seq in
    (
      as_signed 64 io.rpos,
      bytes,
      record io { seq = u64 (io.seq + 1); rpos = u64 (io.rpos + size bytes) },
    )

abbrev pub acc_vec : ℕ → List AvtPktd → ℕ
acc_vec acc [] = acc
acc_vec acc (p ∷ iov) = acc_vec (u64 (acc + written p)) iov

unfoldable pub null_write_vec : NullCtx → List AvtPktd → ℤ × NullCtx
null_write_vec io iov = (as_signed 64 io.wpos, record io { wpos = u64 (io.wpos + acc_vec 0 iov) })

unfoldable pub null_write_pkt : NullCtx → AvtPktd → ℤ × NullCtx
null_write_pkt io p = (as_signed 64 io.wpos, record io { wpos = u64 (io.wpos + written p) })

unfoldable pub null_rewrite : NullCtx → AvtPktd → ℤ → ℤ × NullCtx
null_rewrite io p off = (off, io)

unfoldable pub null_seek : NullCtx → ℤ → ℤ × NullCtx
null_seek io off = (off, record io { rpos = as_unsigned 64 off })

abbrev pub null_flush : NullCtx → ℤ × NullCtx
null_flush io = (pos 0, io)

abbrev pub avt_io_null : AvtIo NullCtx
avt_io_null = record {
  get_max_pkt_len = null_max_pkt_len;
  add_dst = some null_add_dst;
  del_dst = some null_del_dst;
  write_vec = null_write_vec;
  write_pkt = null_write_pkt;
  rewrite = null_rewrite;
  seek = some null_seek;
  flush = some null_flush;
}
