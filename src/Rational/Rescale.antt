-- ===== src/Rational/Rescale.antt =====
-- `rescale_rnd` against the documented meaning of the rounding modes.
use qproto.Common.{
  ℕ, zero, suc, ◌+◌, ◌-◌, ◌*◌, ◌/◌, ◌^◌, ◌≤◌, ◌<◌, ◌≡◌, refl, arith, ◌∙◌, ap, Bool, true, false,
}
use qproto.Common.Int.{ℤ, pos, negsuc, signed}
use qproto.Common.Division.{IsQuotient, div-IsQuotient}
use qproto.Rational.{
  AvtRoundingMode, round_zero, round_inf, round_down, round_up, round_near_inf, code, mirrored,
  bias, rescale_magnitude, rescale_signed, rescale_rnd,
}

-- `q` is `n / c` rounded up, or to the nearest with ties up.
abbrev pub IsCeiling : ℕ → ℕ → ℕ → Type 0
IsCeiling n c q = n ≤ q * c × q * c < n + c

abbrev pub IsNearest : ℕ → ℕ → ℕ → Type 0
IsNearest n c q = 2 * (q * c) ≤ 2 * n + c × 2 * n < 2 * (q * c) + c

-- `q` is the magnitude of a quotient whose exact value is `n / c`, negated if `neg`, in the mode.
abbrev pub IsRounded : AvtRoundingMode → Bool → ℕ → ℕ → ℕ → Type 0
IsRounded round_zero neg n c q = IsQuotient n c q
IsRounded round_inf neg n c q = IsCeiling n c q
IsRounded round_down false n c q = IsQuotient n c q
IsRounded round_down true n c q = IsCeiling n c q
IsRounded round_up false n c q = IsCeiling n c q
IsRounded round_up true n c q = IsQuotient n c q
IsRounded round_near_inf neg n c q = IsNearest n c q

-- The three biases.
down_magnitude : (n c : ℕ) → 0 < c → IsQuotient n c ((n + 0) / c)
down_magnitude n c h = let (lo, hi) = div-IsQuotient (n + 0) c h in (omega arith, omega arith)

up_magnitude : (n c : ℕ) → 0 < c → IsCeiling n c ((n + (c - 1)) / c)
up_magnitude n c h = let (lo, hi) = div-IsQuotient (n + (c - 1)) c h in (omega arith, omega arith)

near_magnitude : (n c : ℕ) → 0 < c → IsNearest n c ((n + c / 2) / c)
near_magnitude n c h = let (lo, hi) = div-IsQuotient (n + c / 2) c h in (omega arith, omega arith)

-- The mode that the magnitude of a negative value is rounded in.
abbrev turned : AvtRoundingMode → AvtRoundingMode
turned round_down = round_up
turned round_up = round_down
turned d = d

mirrored-code : (d : AvtRoundingMode) → mirrored (code d) ≡ code (turned d)
unfolding mirrored
mirrored-code round_zero = refl
mirrored-code round_inf = refl
mirrored-code round_down = refl
mirrored-code round_up = refl
mirrored-code round_near_inf = refl

magnitude-IsRounded :
    (d : AvtRoundingMode) (n b c : ℕ)
    → 0 < c
    → IsRounded d false (n * b) c (rescale_magnitude n b c (code d))
unfolding rescale_magnitude bias
magnitude-IsRounded round_zero n b c h = down_magnitude (n * b) c h
magnitude-IsRounded round_inf n b c h = up_magnitude (n * b) c h
magnitude-IsRounded round_down n b c h = down_magnitude (n * b) c h
magnitude-IsRounded round_up n b c h = up_magnitude (n * b) c h
magnitude-IsRounded round_near_inf n b c h = near_magnitude (n * b) c h

turned-IsRounded :
    (d : AvtRoundingMode) (n c q : ℕ) → IsRounded (turned d) false n c q → IsRounded d true n c q
turned-IsRounded round_zero n c q h = h
turned-IsRounded round_inf n c q h = h
turned-IsRounded round_down n c q h = h
turned-IsRounded round_up n c q h = h
turned-IsRounded round_near_inf n c q h = h

-- A value that is not negative.
plain :
    (d : AvtRoundingMode) (n b c : ℕ)
    → rescale_signed (pos n) b c (code d) ≡ pos (rescale_magnitude n b c (code d))
unfolding rescale_signed
plain d n b c = refl

-- A negative value, through the magnitude; -2^63 is out of reach.
negated :
    (d : AvtRoundingMode) (n b c : ℕ)
    → suc n < 2 ^ 63
    → rescale_signed (negsuc n) b c (code d)
      ≡ signed true (rescale_magnitude (suc n) b c (code (turned d)))
unfolding rescale_signed
negated d n b c small = ground (arith, mirrored-code d)

small-quotient : (x c q : ℕ) → IsQuotient x c q → x < c → q ≡ 0
small-quotient x c zero h l = refl
small-quotient x c (suc q) (lo, hi) l = absurd (omega arith)

bias-lt : (d : AvtRoundingMode) (c : ℕ) → 0 < c → bias (code d) c < c
unfolding bias
bias-lt round_zero c h = h
bias-lt round_inf c h = omega arith
bias-lt round_down c h = h
bias-lt round_up c h = omega arith
bias-lt round_near_inf c h = omega arith

zero-magnitude : (d : AvtRoundingMode) (b c : ℕ) → 0 < c → rescale_magnitude 0 b c (code d) ≡ 0
unfolding rescale_magnitude
zero-magnitude d b c h =
    small-quotient (0 * b + bias (code d) c) c _ (div-IsQuotient (0 * b + bias (code d) c) c h)
      (omega (arith, bias-lt d c h))

zero-IsRounded : (d : AvtRoundingMode) (b c : ℕ) → 0 < c → IsRounded d true (0 * b) c 0
zero-IsRounded round_zero b c h = (omega arith, omega arith)
zero-IsRounded round_inf b c h = (omega arith, omega arith)
zero-IsRounded round_down b c h = (omega arith, omega arith)
zero-IsRounded round_up b c h = (omega arith, omega arith)
zero-IsRounded round_near_inf b c h = (omega arith, omega arith)

-- The guards let every mode pass.
guarded :
    (d : AvtRoundingMode) (a : ℤ) (b c : ℕ)
    → 0 < c
    → rescale_rnd a (pos b) (pos c) (code d) ≡ rescale_signed a b c (code d)
unfolding rescale_rnd
guarded round_zero a b c h = ground arith
guarded round_inf a b c h = ground arith
guarded round_down a b c h = ground arith
guarded round_up a b c h = ground arith
guarded round_near_inf a b c h = ground arith

-- For a value above -2^63 in magnitude, a factor that is not negative and a positive divisor, the
-- result is the quotient of the exact product, rounded as the mode's documentation says, with the
-- sign of the value.
pub rescale_rnd_lem :
    (d : AvtRoundingMode) (neg : Bool) (n b c : ℕ)
    → 0 < c
    → n < 2 ^ 63
    → (q : ℕ) × (rescale_rnd (signed neg n) (pos b) (pos c) (code d) ≡ signed neg q)
      × IsRounded d neg (n * b) c q
rescale_rnd_lem d false n b c h small = (
  rescale_magnitude n b c (code d),
  guarded d (pos n) b c h ∙ plain d n b c,
  magnitude-IsRounded d n b c h,
)
rescale_rnd_lem d true zero b c h small = (
  0,
  guarded d (pos 0) b c h ∙ plain d 0 b c ∙ ap pos (zero-magnitude d b c h),
  zero-IsRounded d b c h,
)
rescale_rnd_lem d true (suc n) b c h small = (
  rescale_magnitude (suc n) b c (code (turned d)),
  guarded d (negsuc n) b c h ∙ negated d n b c small,
  turned-IsRounded d (suc n * b) c _ (magnitude-IsRounded (turned d) (suc n) b c h),
)
