-- ===== src/Memory.antt =====
-- libavtransport/bytestream.h: the AVT_W* and AVT_R* macros, which store and load words of 8 to 64
-- bits. A pointer is an index into the memory that it points into.
pub mod Loads
pub mod Stores
pub mod Writes
use Prim.Native.Nat.{bit_or}
use qproto.Common.{
  ℕ, ◌+◌, ◌*◌, ◌/◌, ◌%◌, ◌^◌, List, [], ◌∷◌, get_or, overwrite, u8, u16, u32, u64, ◌<<◌, ◌>>◌,
}

abbrev pub Memory : Type 0
Memory = List ℕ

-- `((const uint8_t *)(x))[0]` for `x` at index `p`
abbrev pub byte : Memory → ℕ → ℕ
byte m p = get_or m p 0

infixl 40 ◌|||◌
abbrev pub ◌|||◌ : ℕ → ℕ → ℕ
a ||| b = bit_or a b

-- The stores: first `d = (val)` at the width of `d`, then the bytes, each cut by `& 0xFF`.
pub wb8 : Memory → ℕ → ℕ → Memory
wb8 m p val = let d : ℕ = u8 val in overwrite m p (d ∷ [])

pub wl8 : Memory → ℕ → ℕ → Memory
wl8 m p val = let d : ℕ = u8 val in overwrite m p (d ∷ [])

pub wb16 : Memory → ℕ → ℕ → Memory
wb16 m p val = let d : ℕ = u16 val in overwrite m p (u8 (d >> 8) ∷ u8 (d >> 0) ∷ [])

unfoldable pub wl16 : Memory → ℕ → ℕ → Memory
wl16 m p val = let d : ℕ = u16 val in overwrite m p (u8 (d >> 0) ∷ u8 (d >> 8) ∷ [])

unfoldable pub wb24 : Memory → ℕ → ℕ → Memory
wb24 m p val = let d : ℕ = u32 val in overwrite m p (u8 (d >> 24) ∷ u8 (d >> 16) ∷ u8 (d >> 8) ∷ [])

unfoldable pub wl24 : Memory → ℕ → ℕ → Memory
wl24 m p val = let d : ℕ = u32 val in overwrite m p (u8 (d >> 8) ∷ u8 (d >> 16) ∷ u8 (d >> 24) ∷ [])

unfoldable pub wb32 : Memory → ℕ → ℕ → Memory
wb32 m p val =
    let d : ℕ = u32 val in
    overwrite m p (u8 (d >> 24) ∷ u8 (d >> 16) ∷ u8 (d >> 8) ∷ u8 (d >> 0) ∷ [])

unfoldable pub wl32 : Memory → ℕ → ℕ → Memory
wl32 m p val =
    let d : ℕ = u32 val in
    overwrite m p (u8 (d >> 0) ∷ u8 (d >> 8) ∷ u8 (d >> 16) ∷ u8 (d >> 24) ∷ [])

pub wb64 : Memory → ℕ → ℕ → Memory
wb64 m p val =
    let d : ℕ = u64 val in
    overwrite m p (
      u8 (d >> 56)
      ∷ u8 (d >> 48)
      ∷ u8 (d >> 40)
      ∷ u8 (d >> 32)
      ∷ u8 (d >> 24)
      ∷ u8 (d >> 16)
      ∷ u8 (d >> 8)
      ∷ u8 (d >> 0)
      ∷ [])

pub wl64 : Memory → ℕ → ℕ → Memory
wl64 m p val =
    let d : ℕ = u64 val in
    overwrite m p (
      u8 (d >> 0)
      ∷ u8 (d >> 8)
      ∷ u8 (d >> 16)
      ∷ u8 (d >> 24)
      ∷ u8 (d >> 32)
      ∷ u8 (d >> 40)
      ∷ u8 (d >> 48)
      ∷ u8 (d >> 56)
      ∷ [])

-- The loads. No shift here leaves the width that its operand is cast to.
pub rb8 : Memory → ℕ → ℕ
rb8 m p = byte m p

pub rl8 : Memory → ℕ → ℕ
rl8 m p = byte m p

pub rb16 : Memory → ℕ → ℕ
rb16 m p = u16 (byte m p << 8 ||| byte m (p + 1) << 0)

-- As the source has it: the same expression as AVT_RB16.
pub rl16 : Memory → ℕ → ℕ
rl16 m p = u16 (byte m p << 8 ||| byte m (p + 1) << 0)

pub rb24 : Memory → ℕ → ℕ
rb24 m p = u32 (byte m p << 24 ||| byte m (p + 1) << 16 ||| byte m (p + 2) << 8)

-- As the source has it: the third byte is taken from index 3.
pub rl24 : Memory → ℕ → ℕ
rl24 m p = u32 (byte m p << 8 ||| byte m (p + 1) << 16 ||| byte m (p + 3) << 24)

pub rb32 : Memory → ℕ → ℕ
rb32 m p =
    u32 (byte m p << 24 ||| byte m (p + 1) << 16 ||| byte m (p + 2) << 8 ||| byte m (p + 3) << 0)

pub rl32 : Memory → ℕ → ℕ
rl32 m p =
    u32 (byte m p << 0 ||| byte m (p + 1) << 8 ||| byte m (p + 2) << 16 ||| byte m (p + 3) << 24)

pub rb64 : Memory → ℕ → ℕ
rb64 m p = u64 (
    byte m p << 56
    ||| byte m (p + 1) << 48
    ||| byte m (p + 2) << 40
    ||| byte m (p + 3) << 32
    ||| byte m (p + 4) << 24
    ||| byte m (p + 5) << 16
    ||| byte m (p + 6) << 8
    ||| byte m (p + 7) << 0)

pub rl64 : Memory → ℕ → ℕ
rl64 m p = u64 (
    byte m p << 0
    ||| byte m (p + 1) << 8
    ||| byte m (p + 2) << 16
    ||| byte m (p + 3) << 24
    ||| byte m (p + 4) << 32
    ||| byte m (p + 5) << 40
    ||| byte m (p + 6) << 48
    ||| byte m (p + 7) << 56)
