-- ===== src/Bytestream.antt =====
-- libavtransport/bytestream.h: `AVTBytestream`, a reader and writer between two pointers, over the
-- words of `Memory`. The model is of builds with a CONFIG_ASSERT_LEVEL of 1 or 2, in which
-- `avt_assert1` stops the program, here `none`. At level 0, that of release builds, the checks of room are
-- compiled out, and what is a failed assertion here writes past the end.
pub mod Bounds
pub mod RoundTrip
pub mod Text
mod Tests
use qproto.Common.{
  ℕ, ◌+◌, ◌-◌, ◌%◌, ◌^◌, ◌/◌, min, List, [], ◌∷◌, ◌++◌, Option, none, some, length, overwrite, take,
  drop, replicate, leb, ltb, if◌then◌else◌,
}
use qproto.Common.Int.{ℤ, pos, negsuc, sub_ℕ, as_unsigned, as_signed}
use qproto.Memory.{Memory, wb8, wl8, wb16, wl16, wb24, wl24, wb32, wl32, wb64, wl64}
use qproto.Memory.{rb8, rl8, rb16, rl16, rb24, rl24, rb32, rl32, rb64, rl64}
use qproto.Rational.{AvtRational}

pub record AvtBytestream : Type 0 where
  pub mem : Memory
  pub start : ℕ
  pub ptr : ℕ
  pub end : ℕ

pub bs_init : Memory → ℕ → ℕ → AvtBytestream
bs_init mem buf len = record { mem = mem; start = buf; ptr = buf; end = buf + len }

pub bs_reset : AvtBytestream → AvtBytestream
bs_reset bs = record bs { ptr = bs.start }

-- The suffixes `b` and `l` of the functions that AVT_WRITE_FN and AVT_READ_FN make, and `len`.
pub data Endian : Type 0 where
  big little : Endian

pub data Width : Type 0 where
  w8 w16 w24 w32 w64 : Width

-- `len >> 3`
abbrev pub octets : Width → ℕ
octets w8 = 1
octets w16 = 2
octets w24 = 3
octets w32 = 4
octets w64 = 8

-- `tlen`, the width of the C type that carries the value
abbrev pub type_bits : Width → ℕ
type_bits w8 = 8
type_bits w16 = 16
type_bits w24 = 32
type_bits w32 = 32
type_bits w64 = 64

-- `en##len(bs->ptr, val)`
pub store : Endian → Width → Memory → ℕ → ℕ → Memory
store big w8 m p v = wb8 m p v
store big w16 m p v = wb16 m p v
store big w24 m p v = wb24 m p v
store big w32 m p v = wb32 m p v
store big w64 m p v = wb64 m p v
store little w8 m p v = wl8 m p v
store little w16 m p v = wl16 m p v
store little w24 m p v = wl24 m p v
store little w32 m p v = wl32 m p v
store little w64 m p v = wl64 m p v

-- `en##len(bs->ptr)`
pub load : Endian → Width → Memory → ℕ → ℕ
load big w8 m p = rb8 m p
load big w16 m p = rb16 m p
load big w24 m p = rb24 m p
load big w32 m p = rb32 m p
load big w64 m p = rb64 m p
load little w8 m p = rl8 m p
load little w16 m p = rl16 m p
load little w24 m p = rl24 m p
load little w32 m p = rl32 m p
load little w64 m p = rl64 m p

-- Takes the bytes away from `bs->ptr` on, once the assertion of `n` bytes of room has passed.
abbrev with_room : AvtBytestream → ℕ → Memory → Option AvtBytestream
with_room bs n mem =
    if leb (bs.ptr + n) bs.end then some (record bs { mem = mem; ptr = bs.ptr + n }) else none

pub bsw_u : Endian → Width → AvtBytestream → ℕ → Option AvtBytestream
bsw_u e w bs val = with_room bs (octets w) (store e w bs.mem bs.ptr val)

pub bsw_i : Endian → Width → AvtBytestream → ℤ → Option AvtBytestream
bsw_i e w bs val = with_room bs (octets w) (store e w bs.mem bs.ptr (as_unsigned (type_bits w) val))

-- Both words go to `bs->ptr`, as in the source.
pub bsw_rt : Endian → AvtBytestream → AvtRational → Option AvtBytestream
bsw_rt e bs r =
    with_room bs 8
      (store e w32 (store e w32 bs.mem bs.ptr (as_unsigned 32 r.num)) bs.ptr (as_unsigned 32 r.den))

pub bsw_zpad : AvtBytestream → ℕ → Option AvtBytestream
bsw_zpad bs len = with_room bs len (overwrite bs.mem bs.ptr (replicate len 0))

-- `buf` holds at least `len` bytes.
pub bsw_sbuf : AvtBytestream → List ℕ → ℕ → Option AvtBytestream
bsw_sbuf bs buf len = with_room bs len (overwrite bs.mem bs.ptr (take len buf))

-- What is copied out, and the stream.
pub bsr_sbuf : AvtBytestream → ℕ → List ℕ × AvtBytestream
bsr_sbuf bs len =
    let n : ℕ = min len (bs.end - bs.ptr) in
    (take n (drop bs.ptr bs.mem), record bs { ptr = bs.ptr + n })

-- `str` without its terminator. Both the copy and the fill start at `bs->ptr`, as in the source.
pub bsw_fstr : AvtBytestream → List ℕ → ℕ → Option AvtBytestream
bsw_fstr bs str fixed_len =
    let lens : ℕ = min (length str) fixed_len in
    let copied : Memory = overwrite bs.mem bs.ptr (take lens str) in
    with_room bs fixed_len (overwrite copied bs.ptr (replicate (fixed_len - lens) 0))

-- `none` leaves `str` as it is.
pub bsr_fstr : AvtBytestream → ℕ → Option (List ℕ) × AvtBytestream
bsr_fstr bs fixed_len = if ltb bs.end (bs.ptr + fixed_len) then (none, bs) else (
  some (take fixed_len (drop bs.ptr bs.mem) ++ (0 ∷ [])),
  record bs { ptr = bs.ptr + fixed_len },
)

pub bs_pos : AvtBytestream → ℕ
bs_pos bs = bs.ptr

pub bs_offs : AvtBytestream → ℕ
bs_offs bs = bs.ptr - bs.start

pub bs_left : AvtBytestream → ℕ
bs_left bs = bs.end - bs.ptr

-- The returned pointer may lie before the memory.
pub bs_skip : AvtBytestream → ℕ → ℤ × AvtBytestream
bs_skip bs len =
    let ptr' : ℕ = min (bs.ptr + len) bs.end in (sub_ℕ ptr' len, record bs { ptr = ptr' })

pub bsr_u : Endian → Width → AvtBytestream → ℕ × AvtBytestream
bsr_u e w bs =
    if ltb bs.end (bs.ptr + octets w)
    then (0, bs)
    else (load e w bs.mem bs.ptr, record bs { ptr = bs.ptr + octets w })

pub bsr_i : Endian → Width → AvtBytestream → ℤ × AvtBytestream
bsr_i e w bs =
    if ltb bs.end (bs.ptr + octets w)
    then (pos 0, bs)
    else (as_signed (type_bits w) (load e w bs.mem bs.ptr), record bs { ptr = bs.ptr + octets w })

pub bsr_rt : Endian → AvtBytestream → AvtRational × AvtBytestream
bsr_rt e bs = if ltb bs.end (bs.ptr + 8) then (record { num = pos 0; den = pos 0 }, bs) else (
  record {
    num = as_signed 32 (load e w32 bs.mem bs.ptr);
    den = as_signed 32 (load e w32 bs.mem (bs.ptr + 4));
  },
  record bs { ptr = bs.ptr + 8 },
)
