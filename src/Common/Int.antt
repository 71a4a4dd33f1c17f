-- ===== src/Common/Int.antt =====
-- Signed integers over the native numbers, under the library's names (its ℤ stands on the unary ℕ).
-- Sums and orders go through the two parts of an integer, which are numbers that `omega` reads.
use qproto.Common.{
  ◌&&◌, Option, none, some, ◌==◌, ◌/◌, not, ℕ, zero, suc, true, false, ◌+◌, ◌-◌, ◌*◌, ◌≤◌, ◌≡◌,
  refl, ◌⊎◌, Bool, arith, ◌%◌, ◌^◌, ltb, leb, if◌then◌else◌,
}

-- `negsuc n` is -(n + 1).
pub data ℤ : Type 0 where
  pos : ℕ → ℤ
  negsuc : ℕ → ℤ

abbrev pub pos_part : ℤ → ℕ
pos_part (pos n) = n
pos_part (negsuc n) = 0

abbrev pub neg_part : ℤ → ℕ
neg_part (pos n) = 0
neg_part (negsuc n) = suc n

-- a - b, as an integer.
abbrev pub sub_ℕ : ℕ → ℕ → ℤ
sub_ℕ a b = if leb b a then pos (a - b) else negsuc (b - a - 1)

infixl 65 ◌+ℤ◌ ◌-ℤ◌
infixl 70 ◌*ℤ◌
infix 50 ◌≤ℤ◌
unfoldable pub ◌+ℤ◌ : ℤ → ℤ → ℤ
a +ℤ b = sub_ℕ (pos_part a + pos_part b) (neg_part a + neg_part b)

unfoldable pub ◌-ℤ◌ : ℤ → ℤ → ℤ
a -ℤ b = sub_ℕ (pos_part a + neg_part b) (neg_part a + pos_part b)

unfoldable pub ◌*ℤ◌ : ℤ → ℤ → ℤ
a *ℤ b =
    sub_ℕ (pos_part a * pos_part b + neg_part a * neg_part b)
      (pos_part a * neg_part b + neg_part a * pos_part b)

abbrev pub ◌≤ℤ◌ : ℤ → ℤ → Type 0
a ≤ℤ b = pos_part a + neg_part b ≤ pos_part b + neg_part a

abbrev pub ltb_ℤ : ℤ → ℤ → Bool
ltb_ℤ a b = ltb (pos_part a + neg_part b) (pos_part b + neg_part a)

pub ≤ℤ_total : (a b : ℤ) → (a ≤ℤ b) ⊎ (b ≤ℤ a)
≤ℤ_total a b = omega arith

-- One lemma for each operation lets `omega` work with the operations shut, at any depth.
pub +ℤ_parts :
    (a b : ℤ)
    → pos_part (a +ℤ b) + neg_part a + neg_part b ≡ neg_part (a +ℤ b) + pos_part a + pos_part b
unfolding ◌+ℤ◌
+ℤ_parts a b = ground arith

pub -ℤ_parts :
    (a b : ℤ)
    → pos_part (a -ℤ b) + neg_part a + pos_part b ≡ neg_part (a -ℤ b) + pos_part a + neg_part b
unfolding ◌-ℤ◌
-ℤ_parts a b = ground arith

pub eq_of_parts : (a b : ℤ) → pos_part a + neg_part b ≡ pos_part b + neg_part a → a ≡ b
eq_of_parts a b h = ground arith

pub ruleset int_laws = (arith, +ℤ_parts, -ℤ_parts, eq_of_parts)

abbrev pub abs : ℤ → ℕ
abs a = pos_part a + neg_part a

abbrev pub negate : ℕ → ℤ
negate zero = pos 0
negate (suc n) = negsuc n

-- The number `n`, negated or not.
abbrev pub signed : Bool → ℕ → ℤ
signed true n = negate n
signed false n = pos n

-- A signed value as the unsigned word of `t` bits with the same representation, and back.
abbrev pub as_unsigned : ℕ → ℤ → ℕ
as_unsigned t (pos n) = n % 2 ^ t
as_unsigned t (negsuc n) = 2 ^ t - 1 - n % 2 ^ t

abbrev pub as_signed : ℕ → ℕ → ℤ
as_signed t u = if ltb u (2 ^ (t - 1)) then pos u else negsuc (2 ^ t - u - 1)

-- INT64_MIN, INT64_MAX, and what a conversion to `int64_t` makes of a wider value.
abbrev pub int64_min : ℤ
int64_min = negsuc (2 ^ 63 - 1)

abbrev pub int64_max : ℤ
int64_max = pos (2 ^ 63 - 1)

abbrev pub to_int64 : ℤ → ℤ
to_int64 a = as_signed 64 (as_unsigned 64 a)

abbrev pub to_int32 : ℤ → ℤ
to_int32 a = as_signed 32 (as_unsigned 32 a)

abbrev pub is_neg : ℤ → Bool
is_neg (pos n) = false
is_neg (negsuc n) = true

abbrev pub eqb_ℤ : ℤ → ℤ → Bool
eqb_ℤ a b = not (ltb_ℤ a b) && not (ltb_ℤ b a)

abbrev pub differ : Bool → Bool → Bool
differ true b = not b
differ false b = b

-- The quotient of C, which rounds toward zero; `none` is a division by zero. The remainder is zero
-- exactly when that of the magnitudes is.
abbrev pub div_ℤ : ℤ → ℤ → Option ℤ
div_ℤ a b =
    if abs b == 0 then none else some (signed (differ (is_neg a) (is_neg b)) (abs a / abs b))
