-- ===== src/Rational/Gcd.antt =====
-- libavtransport/rational.c: `gcd_ab`. The trailing zeros are those of `stdc_trailing_zeros`.
use qproto.Common.{
  ℕ, zero, suc, ◌+◌, ◌-◌, ◌*◌, ◌/◌, ◌%◌, ◌^◌, ◌≤◌, ◌<◌, ◌≡◌, ◌≢◌, refl, ◌∙◌, sym, ap, arith, min,
  max, ◌==◌, if◌then◌else◌, ◌>>◌, ◌<<◌, u64, inl, inr, Bool-cases, true, false, Option, none, some,
  ◌>>=◌,
}
use mathlib.Core.Path.{subst}
use qproto.Rational.Divides.{
  IsGcd, two_pow, mul_pow, IsGcd-sym, IsGcd-add, IsGcd-shift, IsGcd-eq, IsGcd-self, ordered,
  zeros-IsGcd, IsGcd-zero, Divides-le,
}
use qproto.Common.Division.{mul-div, mul-le}

-- Of a number of `bits` bits.
pub ctz : ℕ → ℕ → ℕ
ctz zero n = 0
ctz (suc bits) n = let rest = ctz bits (n / 2) in if n % 2 == 0 then suc rest else 0

-- The rounds of the loop; the sum of the numbers falls in each. `none` is a loop that did not end in
-- so many rounds.
pub gcd_loop : ℕ → ℕ → ℕ → Option ℕ
unfolding ctz
gcd_loop zero u v = none
gcd_loop (suc rounds) u v =
    let w = max u v - min u v in
    let rest = gcd_loop rounds (min u v) (w >> ctz 64 w) in if u == v then some u else rest

-- `none` if the loop does not end.
unfoldable pub gcd_search : ℕ → ℕ → Option ℕ
unfolding gcd_loop ctz
gcd_search a b =
    let za = ctz 64 a in
    let zb = ctz 64 b in
    let u = a >> za in
    let v = b >> zb in
    if a == 0
    then some b
    else if b == 0
    then some a
    else (gcd_loop (u + v) u v >>= λ g. some (u64 (g << min za zb)))

-- The result, which there is for all 64-bit numbers.
unfoldable pub gcd_ab : ℕ → ℕ → ℕ
unfolding gcd_search
gcd_ab a b = elim (gcd_search a b) [ none ↦ 0 | some g ↦ g ]

-- A number that is not zero is an odd number, shifted by its trailing zeros.
pos_pow : (z : ℕ) → 0 < 2 ^ z
pos_pow zero = omega arith
pos_pow (suc z) = omega (arith, two_pow z, pos_pow z)

shifted : (bits n : ℕ) → n ≢ 0 → n < 2 ^ bits → (o : ℕ) × (n ≡ o * 2 ^ ctz bits n) × (o % 2 ≡ 1)
unfolding ctz
shifted zero n ne small = absurd (ne (omega arith))
shifted (suc bits) n ne small = elim (Bool-cases (n % 2 == 0)) [
  | inl even ↦
      let (o, e, odd) =
        shifted bits (n / 2) (λ none. ne (ground arith)) (omega (arith, two_pow bits)) in
      let is : n ≡ n / 2 * 2 = ground arith in
      let one_more : ctz (suc bits) n ≡ suc (ctz bits (n / 2)) = ground arith in
      (
        o,
        is
            ∙ ap (λ x. x * 2) e
            ∙ mul_pow o (ctz bits (n / 2))
            ∙ ap (λ (z : ℕ). o * 2 ^ z) (sym one_more),
        odd,
      )
  | inr is ↦ (n, ground arith, ground arith)
]

record Odd (n : ℕ) : Type 0 where
  is_odd : (n >> ctz 64 n) % 2 ≡ 1
  whole : (n >> ctz 64 n) * 2 ^ ctz 64 n ≡ n
  below : n >> ctz 64 n ≤ n

Odd-part : (n : ℕ) → n ≢ 0 → n < 2 ^ 64 → Odd n
Odd-part n ne small =
    let (o, e, odd) = shifted 64 n ne small in
    let is : n >> ctz 64 n ≡ o =
      ap (λ x. x / 2 ^ ctz 64 n) e ∙ mul-div o (2 ^ ctz 64 n) (pos_pow (ctz 64 n)) in
    record {
      is_odd = ap (λ x. x % 2) is ∙ odd;
      whole = ap (λ x. x * 2 ^ ctz 64 n) is ∙ sym e;
      below = omega (arith, is, e, mul-le 1 (2 ^ ctz 64 n) o (pos_pow (ctz 64 n)));
    }

-- One round, from the smaller of two odd numbers and the odd part of the difference.
round-IsGcd :
    (lo w g : ℕ)
    → lo % 2 ≡ 1
    → w ≢ 0
    → w < 2 ^ 64
    → IsGcd lo (w >> ctz 64 w) g
    → IsGcd lo (lo + w) g
round-IsGcd lo w g odd ne small h = IsGcd-add lo w g (
    subst (λ x. IsGcd lo x g) (Odd-part w ne small).whole
      (IsGcd-shift lo (w >> ctz 64 w) (ctz 64 w) g odd h))

loop_ends : (rounds u v : ℕ) → u == v ≡ true → gcd_loop (suc rounds) u v ≡ some u
unfolding gcd_loop
loop_ends rounds u v same = rw same refl

loop_goes :
    (rounds u v : ℕ)
    → u == v ≡ false
    → let w : ℕ = max u v - min u v in
      gcd_loop (suc rounds) u v ≡ gcd_loop rounds (min u v) (w >> ctz 64 w)
unfolding gcd_loop
loop_goes rounds u v differ = rw differ refl

-- The loop, with a round for each unit of the sum.
gcd_loop-IsGcd :
    (rounds u v : ℕ)
    → u + v ≤ rounds
    → u % 2 ≡ 1
    → v % 2 ≡ 1
    → u < 2 ^ 64
    → v < 2 ^ 64
    → (g : ℕ) × (gcd_loop rounds u v ≡ some g) × IsGcd u v g
gcd_loop-IsGcd zero u v enough ou ov su sv = absurd (omega arith)
gcd_loop-IsGcd (suc rounds) u v enough ou ov su sv = elim (Bool-cases (u == v)) [
  | inl same ↦ (u, loop_ends rounds u v same, IsGcd-self u v (ground arith))
  | inr differ ↦
      let ne : u ≢ v = λ e. ground arith in
      let w : ℕ = max u v - min u v in
      let o = Odd-part w (λ e. ne (omega arith)) (omega arith) in
      let (g, ends, h) =
        gcd_loop-IsGcd rounds (min u v) (w >> ctz 64 w) (omega (arith, o.below)) (omega arith)
          o.is_odd (omega arith) (omega (arith, o.below)) in
      let r = round-IsGcd (min u v) w g (omega arith) (λ e. ne (omega arith)) (omega arith) h in
      let whole : min u v + w ≡ max u v = omega arith in
      (
        g,
        loop_goes rounds u v differ ∙ ends,
        ordered u v g (subst (λ x. IsGcd (min u v) x g) whole r),
      )
]

gcd_search-left : (a b : ℕ) → a ≡ 0 → gcd_search a b ≡ some b
unfolding gcd_search
gcd_search-left a b e = rw e refl

gcd_search-right : (a b : ℕ) → a == 0 ≡ false → b ≡ 0 → gcd_search a b ≡ some a
unfolding gcd_search
gcd_search-right a b ne e = rw (ne, e) refl

gcd_search-goes :
    (a b g : ℕ)
    → a == 0 ≡ false
    → b == 0 ≡ false
    → gcd_loop ((a >> ctz 64 a) + (b >> ctz 64 b)) (a >> ctz 64 a) (b >> ctz 64 b) ≡ some g
    → gcd_search a b ≡ some (u64 (g << min (ctz 64 a) (ctz 64 b)))
unfolding gcd_search
gcd_search-goes a b g na nb e = rw (na, nb, e) refl

positive-IsGcd :
    (a b : ℕ)
    → a < 2 ^ 64
    → b < 2 ^ 64
    → a == 0 ≡ false
    → b == 0 ≡ false
    → (g : ℕ) × (gcd_search a b ≡ some g) × IsGcd a b g
positive-IsGcd a b sa sb ta tb =
    let na : a ≢ 0 = λ e. ground arith in
    let nb : b ≢ 0 = λ e. ground arith in
    let oa = Odd-part a na sa in
    let ob = Odd-part b nb sb in
    let za : ℕ = ctz 64 a in
    let zb : ℕ = ctz 64 b in
    let u : ℕ = a >> za in
    let v : ℕ = b >> zb in
    let (g, ends, h) =
      gcd_loop-IsGcd (u + v) u v (omega arith) oa.is_odd ob.is_odd (omega (arith, oa.below))
        (omega (arith, ob.below)) in
    let r =
      IsGcd-eq _ _ _ a b (g * 2 ^ min za zb) oa.whole ob.whole refl
        (zeros-IsGcd u v za zb g oa.is_odd ob.is_odd h) in
    let fits : u64 (g << min za zb) ≡ g * 2 ^ min za zb =
      omega (arith, Divides-le (g * 2 ^ min za zb) a na r.left) in
    (u64 (g << min za zb), gcd_search-goes a b g ta tb ends, subst (λ x. IsGcd a b x) (sym fits) r)

result_of : (m : Option ℕ) (g : ℕ) → m ≡ some g → elim m [ none ↦ 0 | some x ↦ x ] ≡ g
result_of m g e = rw e refl

found :
    (a b g : ℕ)
    → gcd_search a b ≡ some g
    → IsGcd a b g
    → (gcd_search a b ≡ some (gcd_ab a b)) × IsGcd a b (gcd_ab a b)
unfolding gcd_ab
found a b g e r =
    let same : gcd_ab a b ≡ g = result_of (gcd_search a b) g e in
    (e ∙ ap some (sym same), subst (λ x. IsGcd a b x) (sym same) r)

-- For any two 64-bit numbers the loop ends, within as many rounds as the sum of their odd parts, and
-- what `gcd_ab` returns is a common divisor that every common divisor divides.
pub gcd_ab-IsGcd :
    (a b : ℕ)
    → a < 2 ^ 64
    → b < 2 ^ 64
    → (gcd_search a b ≡ some (gcd_ab a b)) × IsGcd a b (gcd_ab a b)
gcd_ab-IsGcd a b sa sb = elim (Bool-cases (a == 0)) [
  | inl none_there ↦
      let e : a ≡ 0 = ground arith in found a b b (gcd_search-left a b e) (IsGcd-zero a b e)
  | inr ta ↦ elim (Bool-cases (b == 0)) [
    | inl none_there ↦
        let e : b ≡ 0 = ground arith in
        found a b a (gcd_search-right a b ta e) (IsGcd-sym b a a (IsGcd-zero b a e))
    | inr tb ↦ let (g, ends, r) = positive-IsGcd a b sa sb ta tb in found a b g ends r
  ]
]
