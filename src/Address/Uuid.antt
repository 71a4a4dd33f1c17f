-- ===== src/Address/Uuid.antt =====
-- `avt_parse_uuid` reads what a printer of UUIDs writes.
use qproto.Common.{
  ℕ, zero, suc, ◌+◌, ◌*◌, ◌/◌, ◌%◌, ◌<◌, ◌≡◌, refl, ◌∙◌, sym, ap, arith, List, [], ◌∷◌, some, ok,
  length, ltb, if◌then◌else◌, Bool-cases, inl, inr,
}
use qproto.Address.{
  avt_ascii_to_int, dash_before, skip_dash, parse_pair, parse_bytes, avt_parse_uuid,
}

-- The digit of `d`, and the byte `b` in two digits.
abbrev pub hex : ℕ → ℕ
hex d = if ltb d 10 then d + 48 else d + 87

-- Bytes from the one with index `i` on, with dashes where they belong.
abbrev pub print_from : ℕ → List ℕ → List ℕ
print_from i [] = []
print_from i (b ∷ bs) =
    let digits : List ℕ = hex (b / 16) ∷ hex (b % 16) ∷ print_from (i + 1) bs in
    if dash_before i then 45 ∷ digits else digits

abbrev pub AllBytes : List ℕ → Type 0
AllBytes [] = Unit
AllBytes (b ∷ bs) = (b < 256) × AllBytes bs

ascii-hex : (d : ℕ) → d < 16 → avt_ascii_to_int (hex d) ≡ some d
unfolding avt_ascii_to_int
ascii-hex d h = ground arith

parse_pair-digits :
    (b : ℕ) (src : List ℕ)
    → b < 256
    → parse_pair (hex (b / 16) ∷ hex (b % 16) ∷ src) ≡ some (b, src)
unfolding parse_pair
parse_pair-digits b src h =
    ground (arith, ascii-hex (b / 16) (omega arith), ascii-hex (b % 16) (omega arith))

skip_dash-print_from :
    (b : ℕ) (bs : List ℕ) (i : ℕ)
    → skip_dash i (print_from i (b ∷ bs)) ≡ hex (b / 16) ∷ hex (b % 16) ∷ print_from (i + 1) bs
unfolding skip_dash
skip_dash-print_from b bs i = elim (Bool-cases (dash_before i)) [
  | inl dash ↦ rw (dash, dash) refl
  | inr plain ↦ rw (plain, plain) refl
]

-- One round of the loop.
parse_step :
    (n i : ℕ) (src : List ℕ) (b : ℕ) (rest bs : List ℕ)
    → parse_pair (skip_dash i src) ≡ some (b, rest)
    → parse_bytes n (i + 1) rest ≡ ok bs
    → parse_bytes (suc n) i src ≡ ok (b ∷ bs)
unfolding parse_bytes
parse_step n i src b rest bs read more = ground arith

parse-print_from :
    (bs : List ℕ) (n i : ℕ)
    → n ≡ length bs
    → AllBytes bs
    → parse_bytes n i (print_from i bs) ≡ ok bs
unfolding parse_bytes
parse-print_from [] zero i e all = refl
parse-print_from [] (suc n) i e all = absurd (omega arith)
parse-print_from (b ∷ bs) zero i e all = absurd (omega arith)
parse-print_from (b ∷ bs) (suc n) i e (h, all) =
    let read : parse_pair (skip_dash i (print_from i (b ∷ bs))) ≡ some (b, print_from (i + 1) bs) =
      ap parse_pair (skip_dash-print_from b bs i) ∙ parse_pair-digits b (print_from (i + 1) bs) h in
    parse_step n i (print_from i (b ∷ bs)) b (print_from (i + 1) bs) bs read
      (parse-print_from bs n (i + 1) (omega arith) all)

-- The dashes before the bytes with the indices from `i` on.
abbrev pub dashes : ℕ → ℕ → ℕ
dashes i zero = 0
dashes i (suc n) = (if dash_before i then 1 else 0) + dashes (i + 1) n

pub length-print_from :
    (bs : List ℕ) (n i : ℕ) → n ≡ length bs → length (print_from i bs) ≡ 2 * n + dashes i n
length-print_from [] zero i e = refl
length-print_from [] (suc n) i e = absurd (omega arith)
length-print_from (b ∷ bs) zero i e = absurd (omega arith)
length-print_from (b ∷ bs) (suc n) i e = elim (Bool-cases (dash_before i)) [
  | inl dash ↦ rw dash (omega (arith, length-print_from bs n (i + 1) (omega arith)))
  | inr plain ↦ rw plain (omega (arith, length-print_from bs n (i + 1) (omega arith)))
]

-- Any 16 bytes, printed as a UUID in lower case, are read back as they were.
pub avt_parse_uuid-print_from :
    (bs : List ℕ) → length bs ≡ 16 → AllBytes bs → avt_parse_uuid (print_from 0 bs) ≡ ok bs
unfolding avt_parse_uuid
avt_parse_uuid-print_from bs sixteen all =
    let whole : length (print_from 0 bs) ≡ 36 = length-print_from bs 16 0 (sym sixteen) in
    rw (whole, parse-print_from bs 16 0 (sym sixteen) all) refl
