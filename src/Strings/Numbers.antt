-- ===== src/Strings/Numbers.antt =====
-- Decimal numbers: what strtoul and strtol read of what is printed.
use qproto.Common.{
  ℕ, zero, suc, ◌+◌, ◌-◌, ◌*◌, ◌/◌, ◌%◌, ◌^◌, ◌<◌, ◌≡◌, refl, ◌∙◌, sym, ap, arith, true, false,
  List, [], ◌∷◌, ◌++◌, some, ltb, ◌==◌, if◌then◌else◌, Bool-cases, inl, inr,
}
use qproto.Common.Int.{pos}
use qproto.Strings.{
  is_in, is_digit, is_space, read_digits, signed_magnitude, skip_spaces, strtoul, strtol,
}
use qproto.Strings.Tokens.{IsPlain, IsWord, IsPlain-append}
use mathlib.Core.List.{append_assoc, append-nil}

-- The digits of a number below 10^(k + 1).
abbrev pub digits : ℕ → ℕ → List ℕ
digits zero n = (n + 48) ∷ []
digits (suc k) n =
    let more = digits k (n / 10) ++ ((n % 10 + 48) ∷ []) in if ltb n 10 then (n + 48) ∷ [] else more

-- As `%lu` prints it.
pub print : ℕ → List ℕ
print n = digits 19 n

-- 10^(k + 1).
abbrev tens : ℕ → ℕ
tens zero = 10
tens (suc k) = 10 * tens k

read_digits-digit :
    (acc d : ℕ) (s : List ℕ)
    → d < 10
    → read_digits acc ((d + 48) ∷ s) ≡ read_digits (acc * 10 + d) s
unfolding read_digits
read_digits-digit acc d s h =
    let value : d + 48 - 48 ≡ d = omega arith in
    let digit : is_digit (d + 48) ≡ true = ground arith in rw (digit, value) refl

read_digits-digits :
    (k n : ℕ) (rest : List ℕ) → n < tens k → read_digits 0 (digits k n ++ rest) ≡ read_digits n rest
read_digits-digits zero n rest h =
    read_digits-digit 0 n rest h ∙ ap (λ m. read_digits m rest) (omega arith)
read_digits-digits (suc k) n rest h = elim (Bool-cases (ltb n 10)) [
  | inl small ↦
      rw small
        (read_digits-digit 0 n rest (ground arith) ∙ ap (λ m. read_digits m rest) (omega arith))
  | inr large ↦
      rw (large, append_assoc (digits k (n / 10)) ((n % 10 + 48) ∷ []) rest)
        (read_digits-digits k (n / 10) ((n % 10 + 48) ∷ rest) (omega arith)
          ∙ read_digits-digit (n / 10) (n % 10) rest (omega arith)
          ∙ ap (λ m. read_digits m rest) (omega arith))
]

-- A digit stands first.
abbrev StartsWithDigit : List ℕ → Type 0
StartsWithDigit [] = ⊥
StartsWithDigit (c ∷ s) = is_digit c ≡ true

StartsWithDigit-append : (s t : List ℕ) → StartsWithDigit s → StartsWithDigit (s ++ t)
StartsWithDigit-append [] t h = absurd h
StartsWithDigit-append (c ∷ s) t h = h

digits-StartsWithDigit : (k n : ℕ) → n < tens k → StartsWithDigit (digits k n)
digits-StartsWithDigit zero n h = ground arith
digits-StartsWithDigit (suc k) n h = elim (Bool-cases (ltb n 10)) [
  | inl small ↦ rw small (ground arith)
  | inr large ↦ rw large (
      StartsWithDigit-append (digits k (n / 10)) ((n % 10 + 48) ∷ [])
        (digits-StartsWithDigit k (n / 10) (omega arith)))
]

signed_magnitude-digit :
    (s : List ℕ)
    → StartsWithDigit s
    → signed_magnitude (skip_spaces s) ≡ (false, some (read_digits 0 s))
unfolding signed_magnitude
signed_magnitude-digit [] h = absurd h
signed_magnitude-digit (c ∷ s) h =
    let printable : is_space c ≡ false = ground arith in
    let unsigned : (c == 45) ≡ false = ground arith in
    let unsigned' : (c == 43) ≡ false = ground arith in
    rw printable (rw (unsigned, unsigned', h) refl)

signed_magnitude-print :
    (n : ℕ) → n < 2 ^ 64 → signed_magnitude (skip_spaces (print n)) ≡ (false, some n)
unfolding print read_digits
signed_magnitude-print n h =
    signed_magnitude-digit (digits 19 n) (digits-StartsWithDigit 19 n (omega arith))
    ∙ ap (λ m. (false, some m)) read
  where
    read : read_digits 0 (digits 19 n) ≡ n
    read =
        ap (read_digits 0) (sym (append-nil (digits 19 n)))
        ∙ read_digits-digits 19 n [] (omega arith)

pub strtoul-print : (n : ℕ) → n < 2 ^ 64 → strtoul (print n) ≡ some n
unfolding strtoul
strtoul-print n h = ground (arith, signed_magnitude-print n h)

pub strtol-print : (n : ℕ) → n < 2 ^ 63 → strtol (print n) ≡ some (pos n)
unfolding strtol
strtol-print n h = ground (arith, signed_magnitude-print n (omega arith))

digits-IsPlain :
    (delims : List ℕ) (k n : ℕ)
    → ((d : ℕ) → d < 10 → is_in delims (d + 48) ≡ false)
    → n < tens k
    → IsPlain delims (digits k n)
digits-IsPlain delims zero n plain h = (plain n h, tt)
digits-IsPlain delims (suc k) n plain h = elim (Bool-cases (ltb n 10)) [
  | inl small ↦ rw small (plain n (ground arith), tt)
  | inr large ↦ rw large (
      IsPlain-append delims (digits k (n / 10)) ((n % 10 + 48) ∷ [])
        (digits-IsPlain delims k (n / 10) plain (omega arith)) (plain (n % 10) (omega arith), tt))
]

IsPlain-IsWord : (delims s : List ℕ) → StartsWithDigit s → IsPlain delims s → IsWord delims s
IsPlain-IsWord delims [] h p = absurd h
IsPlain-IsWord delims (c ∷ s) h p = p

-- A printed number is a word where no digit is a delimiter.
pub print-IsWord :
    (delims : List ℕ) (n : ℕ)
    → ((d : ℕ) → d < 10 → is_in delims (d + 48) ≡ false)
    → n < 2 ^ 64
    → IsWord delims (print n)
unfolding print
print-IsWord delims n plain h =
    IsPlain-IsWord delims (digits 19 n) (digits-StartsWithDigit 19 n (omega arith))
      (digits-IsPlain delims 19 n plain (omega arith))
