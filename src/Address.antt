-- ===== src/Address.antt =====
-- libavtransport/address.c and utils_internal.h: `avt_parse_uuid` and `avt_addr_4to6`, with the
-- reading of hexadecimal digits. A string is the list of its character codes without the terminator.
pub mod Uuid
pub mod Types
pub mod Settings
pub mod Host
pub mod Url
pub mod Info
mod Tests
mod UrlTests
use Prim.Native.Nat.{bit_xor}
use qproto.Common.{
  ℕ, zero, suc, ◌+◌, ◌-◌, ◌*◌, ◌/◌, ◌%◌, ◌^◌, Bool, true, false, ◌&&◌, ◌||◌, List, [], ◌∷◌, ◌++◌,
  Option, none, some, Result, ok, err, einval, length, replicate, ltb, leb, ◌==◌, not,
  if◌then◌else◌, u8, ◌<<◌, ◌>>◌,
}

pub avt_tolower : ℕ → ℕ
avt_tolower c = if leb 65 c && leb c 90 then bit_xor c 32 else c

-- The digit's value; `none` is -1.
lower_to_int : ℕ → Option ℕ
lower_to_int c =
    if leb 97 c && leb c 102
    then some (c - 97 + 10)
    else if leb 48 c && leb c 57
    then some (c - 48)
    else none

pub avt_ascii_to_int : ℕ → Option ℕ
unfolding avt_tolower lower_to_int
avt_ascii_to_int c = lower_to_int (avt_tolower c)

-- The bytes before which a character is skipped.
abbrev pub dash_before : ℕ → Bool
dash_before i = i == 4 || i == 6 || i == 8 || i == 10

skip_dash : ℕ → List ℕ → List ℕ
skip_dash i [] = []
skip_dash i (c ∷ src) = if dash_before i then src else c ∷ src

-- One byte, of two digits.
parse_pair : List ℕ → Option (ℕ × List ℕ)
unfolding avt_ascii_to_int
parse_pair (a ∷ b ∷ src) = elim (avt_ascii_to_int a) [
  | none ↦ none
  | some hi ↦ elim (avt_ascii_to_int b) [ none ↦ none | some lo ↦ some (u8 ((hi << 4) + lo), src) ]
]
parse_pair _ = none

-- Byte `i` and those after it, `n` in all. The string does not end before they do.
parse_bytes : ℕ → ℕ → List ℕ → Result (List ℕ)
parse_bytes zero i src = ok []
parse_bytes (suc n) i src = elim (parse_pair (skip_dash i src)) [
  | none ↦ err einval
  | some (byte, rest) ↦ elim (parse_bytes n (i + 1) rest) [
    | err e ↦ err e
    | ok bytes ↦ ok (byte ∷ bytes)
  ]
]

pub avt_parse_uuid : List ℕ → Result (List ℕ)
unfolding parse_bytes
avt_parse_uuid src = if not (length src == 36) then err einval else parse_bytes 16 0 src

-- The bytes of the number lie in memory as on a little-endian machine.
unfoldable pub avt_addr_4to6 : ℕ → List ℕ
avt_addr_4to6 ip4 =
    let mapped = replicate 10 0 ++ (255 ∷ 255 ∷ []) in
    if ip4 == 0
    then mapped ++ replicate 4 0
    else if ip4 == 2 ^ 32 - 1
    then mapped ++ replicate 4 255
    else mapped ++ (u8 ip4 ∷ u8 (ip4 >> 8) ∷ u8 (ip4 >> 16) ∷ u8 (ip4 >> 24) ∷ [])
