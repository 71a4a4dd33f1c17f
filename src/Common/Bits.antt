-- ===== src/Common/Bits.antt =====
-- `|` of fields that share no bit is their sum, at every width.
use Prim.Native.Nat.{bit_or, digits, bit_or-bitwise}
use native.Mathlib.Nat.{pow-suc}
use qproto.Common.{ℕ, zero, suc, ◌+◌, ◌*◌, ◌/◌, ◌%◌, ◌^◌, ◌≤◌, ◌<◌, max, ◌≡◌, refl, ap, arith}

-- The digits of `a | b`, lowest first, found with `n` rounds of fuel.
abbrev or_digits : ℕ → ℕ → ℕ → ℕ
or_digits n a b = digits (λ rest. rest) max n a b

more_fuel : (a b n : ℕ) (m : ℕ) → a ≤ n → n ≤ m → or_digits m a b ≡ or_digits n a b
more_fuel zero b zero zero h k = refl
more_fuel zero b zero (suc m) h k = refl
more_fuel zero b (suc n) zero h k = absurd (omega arith)
more_fuel zero b (suc n) (suc m) h k = refl
more_fuel (suc a) b zero m h k = absurd (omega arith)
more_fuel (suc a) b (suc n) zero h k = absurd (omega arith)
more_fuel (suc a) b (suc n) (suc m) h k =
    let half : suc a / 2 ≤ n = omega arith in
    rw (more_fuel (suc a / 2) (b / 2) n m half (omega arith))

-- The lowest digit of `a | b`, and the digits above it.
or_step : (a b : ℕ) → bit_or a b ≡ bit_or (a / 2) (b / 2) * 2 + max (a % 2) (b % 2)
or_step zero b = omega (arith, bit_or-bitwise 0 b, bit_or-bitwise 0 (b / 2))
or_step (suc a) b = omega (
  arith,
  bit_or-bitwise (suc a) b,
  bit_or-bitwise (suc a / 2) (b / 2),
  more_fuel (suc a / 2) (b / 2) (suc a / 2) a (omega arith) (omega arith),
)

or_nothing : (n a : ℕ) → a ≤ n → bit_or a 0 ≡ a
or_nothing n zero h = refl
or_nothing zero (suc a) h = absurd (omega arith)
or_nothing (suc n) (suc a) h =
    omega (arith, or_step (suc a) 0, or_nothing n (suc a / 2) (omega arith))

double : (q k : ℕ) → q * 2 ^ suc k ≡ 2 * (q * 2 ^ k)
double q k = omega (arith, ap (λ (t : ℕ). q * t) (pow-suc 2 k))

-- `x | r` where `x` is a multiple of 2 ^ k and `r` fits below it.
pub or-high_low : (k q x r : ℕ) → x ≡ q * 2 ^ k → r < 2 ^ k → bit_or x r ≡ x + r
or-high_low zero q x r e h =
    let none_left : r ≡ 0 = omega arith in
    rw none_left (omega (arith, or_nothing x x (omega arith)))
or-high_low (suc k) q x r e h =
    ground (arith, or_step x r, double q k, pow-suc 2 k, or-high_low k q (x / 2) (r / 2))

-- The same with the low part on the left, the order of the little-endian macros.
pub or-low_high : (k q x r : ℕ) → x ≡ q * 2 ^ k → r < 2 ^ k → bit_or r x ≡ r + x
or-low_high zero q x r e h =
    let none_left : r ≡ 0 = omega arith in rw none_left (omega (arith, bit_or-bitwise 0 x))
or-low_high (suc k) q x r e h =
    ground (arith, or_step r x, double q k, pow-suc 2 k, or-low_high k q (x / 2) (r / 2))
