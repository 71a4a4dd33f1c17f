-- ===== src/Rational/Reduce/Lowest.antt =====
-- `avt_make_rational` reduces to lowest terms.
use qproto.Common.{
  ℕ, zero, suc, ◌+◌, ◌-◌, ◌*◌, ◌/◌, ◌^◌, ◌≤◌, ◌<◌, ◌≡◌, ◌≢◌, refl, ◌∙◌, ap, ap₂, arith, Bool, true,
  false, ◌==◌,
}
use qproto.Common.Int.{ℤ, pos, signed, abs, differ, is_neg}
use qproto.Common.Division.{mul-div, mul-le}
use qproto.Rational.{AvtRational}
use qproto.Rational.Divides.{Divides, IsGcd}
use qproto.Rational.Gcd.{gcd_ab, gcd_ab-IsGcd}
use qproto.Rational.Reduce.{Convergent, reduced, reduce_rational, avt_make_rational}

Divides-pos : (g n : ℕ) → n ≢ 0 → Divides g n → g ≢ 0
Divides-pos g n ne (k, e) none = let f : k * g ≡ k * 0 = ap (λ x. k * x) none in ne (omega arith)

cofactor-le : (k g n : ℕ) → g ≢ 0 → n ≡ k * g → k ≤ n
cofactor-le k g n ne e = omega (arith, mul-le 1 g k (omega arith))

reduced_lem :
    (n d n' d' g : ℕ)
    → gcd_ab n d ≡ g
    → g ≢ 0
    → n / g ≡ n'
    → d / g ≡ d'
    → n' ≤ 2 ^ 31 - 1
    → d' ≤ 2 ^ 31 - 1
    → reduced (2 ^ 31 - 1) n d ≡ record { top = n'; bottom = d' }
unfolding reduced
reduced_lem n d n' d' g is ne en ed hn hd =
    let nonzero : gcd_ab n d == 0 ≡ false = ground arith in ground arith

make-reduced :
    (a : ℤ) (d : ℕ) (c : Convergent)
    → reduced (2 ^ 31 - 1) (abs a) (d + 0) ≡ c
    → avt_make_rational a (pos d)
      ≡ record { num = signed (differ (is_neg a) false) c.top; den = pos c.bottom }
unfolding avt_make_rational reduce_rational
make-reduced a d c e =
    ap
      (λ (x : Convergent).
        let r : AvtRational = record {
          num = signed (differ (is_neg a) false) x.top;
          den = pos x.bottom;
        } in
        r)
      e

abs-signed : (neg : Bool) (n : ℕ) → abs (signed neg n) ≡ n
abs-signed true zero = omega arith
abs-signed true (suc n) = omega arith
abs-signed false n = omega arith

sign_kept :
    (neg : Bool) (n n' : ℕ)
    → (n ≡ 0 → n' ≡ 0)
    → signed (differ (is_neg (signed neg n)) false) n' ≡ signed neg n'
sign_kept true zero n' h = rw (h refl) refl
sign_kept true (suc n) n' h = refl
sign_kept false n n' h = refl

-- For a numerator and a positive denominator of 31 bits the result is the rational that remains when
-- the greatest common divisor is taken out of both, with the sign of the numerator.
pub avt_make_rational-IsGcd :
    (neg : Bool) (n d : ℕ)
    → n < 2 ^ 31
    → d < 2 ^ 31
    → d ≢ 0
    → (n' d' g : ℕ) × IsGcd n d g
      × (n ≡ n' * g)
      × (d ≡ d' * g)
      × (avt_make_rational (signed neg n) (pos d) ≡ record { num = signed neg n'; den = pos d' })
avt_make_rational-IsGcd neg n d sn sd ne =
    let g : ℕ = gcd_ab n d in
    let (_, h) = gcd_ab-IsGcd n d (omega arith) (omega arith) in
    let (n', en) = h.left in
    let (d', ed) = h.right in
    let some_g = Divides-pos g d ne h.right in
    let quotient = λ (k m : ℕ) (e : m ≡ k * g). ap (λ x. x / g) e ∙ mul-div k g (omega arith) in
    let r =
      reduced_lem n d n' d' g refl some_g (quotient n' n en) (quotient d' d ed)
        (omega (arith, cofactor-le n' g n some_g en))
        (omega (arith, cofactor-le d' g d some_g ed)) in
    let same_d : d + 0 ≡ d = omega arith in
    let whole = ap₂ (λ (x y : ℕ). reduced (2 ^ 31 - 1) x y) (abs-signed neg n) same_d ∙ r in
    let sign = sign_kept neg n n' (λ e. omega (arith, cofactor-le n' g n some_g en)) in
    let c : Convergent = record { top = n'; bottom = d' } in
    (
      n',
      d',
      g,
      h,
      en,
      ed,
      make-reduced (signed neg n) d c whole
          ∙ ap (λ (x : ℤ). let q : AvtRational = record { num = x; den = pos d' } in q) sign,
    )
