-- ===== src/Bytestream/RoundTrip.antt =====
-- What a read gives back of what was written at the same place.
use qproto.Common.{ℕ, ◌+◌, ◌-◌, ◌*◌, ◌/◌, ◌%◌, ◌^◌, ◌≤◌, ◌<◌, ◌≡◌, arith, some, length}
use qproto.Common.Int.{ℤ, pos, negsuc, ◌≤ℤ◌, as_unsigned, as_signed}
use qproto.Memory.{Memory, byte}
use qproto.Memory.Stores.{
  rb8-wb8, rl8-wl8, rb16-wb16, rb32-wb32, rl32-wl32, rb64-wb64, rl64-wl64, rl16-wl16, rb24-wb24,
  rl24-wl24,
}
use qproto.Rational.{AvtRational}
use qproto.Bytestream.Bounds.{IsValid, store-Writes}
use qproto.Bytestream.{
  AvtBytestream, Endian, big, little, Width, w8, w16, w24, w32, w64, octets, type_bits, store, load,
  bsw_u, bsw_i, bsr_u, bsr_i, bsw_rt, bsr_rt,
}

-- The words whose load undoes their store: all but 24-bit ones and little-endian 16-bit ones.
abbrev pub Exact : Endian → Width → Type 0
Exact e w24 = ⊥
Exact little w16 = ⊥
Exact e w = Unit

load-store :
    (e : Endian) (w : Width) (m : Memory) (p v : ℕ)
    → Exact e w
    → p + octets w ≤ length m
    → load e w (store e w m p v) p ≡ v % 2 ^ type_bits w
unfolding load store
load-store big w8 m p v x fits = rb8-wb8 m p v fits
load-store little w8 m p v x fits = rl8-wl8 m p v fits
load-store big w16 m p v x fits = rb16-wb16 m p v fits
load-store little w16 m p v x fits = absurd x
load-store big w24 m p v x fits = absurd x
load-store little w24 m p v x fits = absurd x
load-store big w32 m p v x fits = rb32-wb32 m p v fits
load-store little w32 m p v x fits = rl32-wl32 m p v fits
load-store big w64 m p v x fits = rb64-wb64 m p v fits
load-store little w64 m p v x fits = rl64-wl64 m p v fits

-- Signed values survive the union of the two types, at each width.
signed_again :
    (w : Width) (val : ℤ)
    → negsuc (2 ^ (type_bits w - 1) - 1) ≤ℤ val
    → val ≤ℤ pos (2 ^ (type_bits w - 1) - 1)
    → as_signed (type_bits w) (as_unsigned (type_bits w) val % 2 ^ type_bits w) ≡ val
signed_again w8 val lo hi = ground arith
signed_again _ val lo hi = ground arith

-- Rewinds to where `bs` stood.
abbrev pub back_to : AvtBytestream → AvtBytestream → AvtBytestream
back_to bs bs' = record bs' { ptr = bs.ptr }

module _ (e : Endian) (w : Width) (bs bs' : AvtBytestream) (v : IsValid bs) (x : Exact e w) where
  -- Reading back an unsigned word of these gives the value written and ends where the write ended.
  bsr_u-bsw_u_exact :
      (val : ℕ)
      → val < 2 ^ type_bits w
      → bsw_u e w bs val ≡ some bs'
      → bsr_u e w (back_to bs bs') ≡ (val, bs')
  unfolding bsw_u bsr_u
  bsr_u-bsw_u_exact val small h = ground (arith, load-store e w bs.mem bs.ptr val x)

  -- Reading back a signed word gives the value written and ends where the write ended.
  pub bsr_i-bsw_i :
      (val : ℤ)
      → negsuc (2 ^ (type_bits w - 1) - 1) ≤ℤ val
      → val ≤ℤ pos (2 ^ (type_bits w - 1) - 1)
      → bsw_i e w bs val ≡ some bs'
      → bsr_i e w (back_to bs bs') ≡ (val, bs')
  unfolding bsw_i bsr_i
  bsr_i-bsw_i val lo hi h = ground (
    arith,
    load-store e w bs.mem bs.ptr (as_unsigned (type_bits w) val) x,
    signed_again w val lo hi,
  )

-- The little-endian 16-bit reader swaps the two bytes of what the writer wrote.
pub bsr_u-bsw_u_swaps :
    (bs bs' : AvtBytestream) (val : ℕ)
    → IsValid bs
    → val < 2 ^ 16
    → bsw_u little w16 bs val ≡ some bs'
    → bsr_u little w16 (back_to bs bs') ≡ (val % 2 ^ 8 * 2 ^ 8 + val / 2 ^ 8, bs')
unfolding bsw_u bsr_u store load
bsr_u-bsw_u_swaps bs bs' val v small h = ground (arith, rl16-wl16 bs.mem bs.ptr val)

-- A 24-bit word carries the upper three bytes of a 32-bit value: big-endian reading clears the
-- lowest byte.
pub bsr_u-bsw_u_clears :
    (bs bs' : AvtBytestream) (val : ℕ)
    → IsValid bs
    → val < 2 ^ 32
    → bsw_u big w24 bs val ≡ some bs'
    → bsr_u big w24 (back_to bs bs') ≡ (val - val % 2 ^ 8, bs')
unfolding bsw_u bsr_u store load
bsr_u-bsw_u_clears bs bs' val v small h = ground (arith, rb24-wb24 bs.mem bs.ptr val)

-- Little-endian reading of a 24-bit word takes its highest byte from the byte after the word.
pub bsr_u-bsw_u_overreads :
    (bs bs' : AvtBytestream) (val : ℕ)
    → IsValid bs
    → val < 2 ^ 32
    → bsw_u little w24 bs val ≡ some bs'
    → bsr_u little w24 (back_to bs bs')
      ≡ (val % 2 ^ 24 - val % 2 ^ 8 + byte bs.mem (bs.ptr + 3) * 2 ^ 24, bs')
unfolding bsw_u bsr_u store load
bsr_u-bsw_u_overreads bs bs' val v small h =
    ground (arith, rl24-wl24 bs.mem bs.ptr val, v.bytes (bs.ptr + 3))

-- A rational is written over itself: reading gives back the denominator in place of the numerator.
pub bsr_rt-bsw_rt :
    (e : Endian) (bs bs' : AvtBytestream) (r : AvtRational)
    → IsValid bs
    → negsuc (2 ^ 31 - 1) ≤ℤ r.den
    → r.den ≤ℤ pos (2 ^ 31 - 1)
    → bsw_rt e bs r ≡ some bs'
    → ((bsr_rt e (back_to bs bs')).0.num ≡ r.den) × ((bsr_rt e (back_to bs bs')).1 ≡ bs')
unfolding bsw_rt bsr_rt
bsr_rt-bsw_rt big bs bs' r v lo hi h =
    let first : Memory = store big w32 bs.mem bs.ptr (as_unsigned 32 r.num) in
    ground (
      arith,
      load-store big w32 first bs.ptr (as_unsigned 32 r.den) tt,
      (store-Writes big w32 bs.mem bs.ptr (as_unsigned 32 r.num)).same_length,
      signed_again w32 r.den lo hi,
    )
bsr_rt-bsw_rt little bs bs' r v lo hi h =
    let first : Memory = store little w32 bs.mem bs.ptr (as_unsigned 32 r.num) in
    ground (
      arith,
      load-store little w32 first bs.ptr (as_unsigned 32 r.den) tt,
      (store-Writes little w32 bs.mem bs.ptr (as_unsigned 32 r.num)).same_length,
      signed_again w32 r.den lo hi,
    )

-- What is read of a word that was written at `bs->ptr`: its two bytes swapped, the upper three bytes of
-- 32 bits, these with the byte behind the word on top in place of the highest one, or the value.
abbrev pub read_back : Endian → Width → AvtBytestream → ℕ → ℕ
read_back little w16 bs val = val % 2 ^ 8 * 2 ^ 8 + val / 2 ^ 8
read_back big w24 bs val = val - val % 2 ^ 8
read_back little w24 bs val = val % 2 ^ 24 - val % 2 ^ 8 + byte bs.mem (bs.ptr + 3) * 2 ^ 24
read_back e w bs val = val

-- An unsigned word of any width and order, with a value of the C type that carries it, is written where
-- there is room and read back. The read ends where the write ended, in a buffer that it leaves alone. It
-- gives the value for words of 8, 32 and 64 bits and big-endian ones of 16. A little-endian word of
-- 16 bits comes with its bytes swapped; a big-endian one of 24 bits with the lowest of 32 bits' four
-- bytes cleared; and a little-endian one of 24 bits with that byte cleared and, for the highest byte,
-- the byte that stands behind the word.
pub bsr_u-bsw_u :
    (e : Endian) (w : Width) (bs bs' : AvtBytestream) (val : ℕ)
    → IsValid bs
    → val < 2 ^ type_bits w
    → bsw_u e w bs val ≡ some bs'
    → bsr_u e w (back_to bs bs') ≡ (read_back e w bs val, bs')
bsr_u-bsw_u little w16 bs bs' val v small h = bsr_u-bsw_u_swaps bs bs' val v small h
bsr_u-bsw_u big w24 bs bs' val v small h = bsr_u-bsw_u_clears bs bs' val v small h
bsr_u-bsw_u little w24 bs bs' val v small h = bsr_u-bsw_u_overreads bs bs' val v small h
bsr_u-bsw_u little w8 bs bs' val v small h = bsr_u-bsw_u_exact little w8 bs bs' v tt val small h
bsr_u-bsw_u little w32 bs bs' val v small h = bsr_u-bsw_u_exact little w32 bs bs' v tt val small h
bsr_u-bsw_u little w64 bs bs' val v small h = bsr_u-bsw_u_exact little w64 bs bs' v tt val small h
bsr_u-bsw_u big w8 bs bs' val v small h = bsr_u-bsw_u_exact big w8 bs bs' v tt val small h
bsr_u-bsw_u big w16 bs bs' val v small h = bsr_u-bsw_u_exact big w16 bs bs' v tt val small h
bsr_u-bsw_u big w32 bs bs' val v small h = bsr_u-bsw_u_exact big w32 bs bs' v tt val small h
bsr_u-bsw_u big w64 bs bs' val v small h = bsr_u-bsw_u_exact big w64 bs bs' v tt val small h
