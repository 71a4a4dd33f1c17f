-- ===== src/Rational/Divides.antt =====
-- Divisors and greatest common divisors of native numbers, with the laws for numbers shifted by zeros.
use mathlib.Core.Path.{subst}
use qproto.Common.{
  ℕ, zero, suc, ◌+◌, ◌-◌, ◌*◌, ◌/◌, ◌%◌, ◌^◌, ◌≤◌, ◌≡◌, ◌≢◌, refl, ◌∙◌, sym, ap, arith, min, max,
  ◌⊎◌, inl, inr, Bool-cases, leb,
}

abbrev pub Divides : ℕ → ℕ → Type 0
Divides d n = (k : ℕ) × (n ≡ k * d)

pub record IsGcd (a b g : ℕ) : Type 0 where
  pub left : Divides g a
  pub right : Divides g b
  pub greatest : (d : ℕ) → Divides d a → Divides d b → Divides d g

-- Odd divisors.
pub parity : (n : ℕ) → (n ≡ n / 2 * 2) ⊎ (n ≡ n / 2 * 2 + 1)
parity n = omega arith

pub halved_multiple : (k d h m : ℕ) → d ≡ h * 2 + 1 → m * 2 ≡ k * d → k ≡ k / 2 * 2
halved_multiple k d h m odd e = let f : k * d ≡ k * (h * 2 + 1) = ap (λ x. k * x) odd in omega arith

pub odd-Divides-half : (d m : ℕ) → d % 2 ≡ 1 → Divides d (m * 2) → Divides d m
odd-Divides-half d m odd (k, e) =
    let even = halved_multiple k d (d / 2) m (omega arith) e in
    let f : k * d ≡ k / 2 * 2 * d = ap (λ x. x * d) even in (k / 2, omega arith)

pub two_pow : (z : ℕ) → 2 ^ suc z ≡ 2 * 2 ^ z
two_pow z = omega arith

pub mul_pow : (m z : ℕ) → m * 2 ^ z * 2 ≡ m * 2 ^ suc z
mul_pow m z = omega (arith, ap (λ x. m * x) (two_pow z))

pub odd-Divides-shifted : (d m z : ℕ) → d % 2 ≡ 1 → Divides d (m * 2 ^ z) → Divides d m
odd-Divides-shifted d m zero odd (k, e) = (k, omega arith)
odd-Divides-shifted d m (suc z) odd (k, e) =
    odd-Divides-shifted d m z odd (odd-Divides-half d (m * 2 ^ z) odd (k, mul_pow m z ∙ e))

pub Divides-odd : (d m : ℕ) → m % 2 ≡ 1 → Divides d m → d % 2 ≡ 1
Divides-odd d m odd (k, e) = elim (parity d) [
  | inl even ↦ let f : k * d ≡ k * (d / 2 * 2) = ap (λ x. k * x) even in omega arith
  | inr is ↦ omega arith
]

-- The laws of the greatest common divisor that the loop lives by.
pub IsGcd-sym : (a b g : ℕ) → IsGcd a b g → IsGcd b a g
IsGcd-sym a b g h = record { left = h.right; right = h.left; greatest = λ d p q. h.greatest d q p }

pub Divides-add : (d a b : ℕ) → Divides d a → Divides d b → Divides d (a + b)
Divides-add d a b (k, e) (l, f) = (k + l, omega arith)

pub sub_mul : (k l d : ℕ) → (k - l) * d ≡ k * d - l * d
sub_mul zero l d = let none : 0 - l ≡ 0 = omega arith in ap (λ x. x * d) none ∙ omega arith
sub_mul (suc k) zero d =
    let all : suc k - 0 ≡ suc k = omega arith in ap (λ x. x * d) all ∙ omega arith
sub_mul (suc k) (suc l) d =
    let same : suc k - suc l ≡ k - l = omega arith in
    ap (λ x. x * d) same ∙ sub_mul k l d ∙ omega arith

pub Divides-sub : (d a b : ℕ) → Divides d (a + b) → Divides d a → Divides d b
Divides-sub d a b (k, e) (l, f) = (k - l, omega (arith, sub_mul k l d))

pub IsGcd-add : (a w g : ℕ) → IsGcd a w g → IsGcd a (a + w) g
IsGcd-add a w g h = record {
  left = h.left;
  right = Divides-add g a w h.left h.right;
  greatest = λ d p q. h.greatest d p (Divides-sub d a w q p);
}

pub IsGcd-shift : (a m z g : ℕ) → a % 2 ≡ 1 → IsGcd a m g → IsGcd a (m * 2 ^ z) g
IsGcd-shift a m z g odd h = record {
  left = h.left;
  right = let (k, e) = h.right in (k * 2 ^ z, omega (arith, ap (λ x. x * 2 ^ z) e));
  greatest = λ d p q. h.greatest d p (odd-Divides-shifted d m z (Divides-odd d a odd p) q);
}

-- A common factor 2.
pub Divides-double : (d a : ℕ) → Divides d a → Divides (d * 2) (a * 2)
Divides-double d a (k, e) = (k, omega arith)

pub Divides-halve : (d a : ℕ) → Divides (d * 2) (a * 2) → Divides d a
Divides-halve d a (k, e) = (k, omega arith)

pub Divides-twice : (d a : ℕ) → Divides d a → Divides d (a * 2)
Divides-twice d a (k, e) = (k * 2, omega arith)

pub IsGcd-double : (a b g : ℕ) → IsGcd a b g → IsGcd (a * 2) (b * 2) (g * 2)
IsGcd-double a b g h = record {
  left = Divides-double g a h.left;
  right = Divides-double g b h.right;
  greatest = λ d p q. elim (parity d) [
    | inl even ↦
        let half = λ (n : ℕ) (r : Divides d (n * 2)).
          Divides-halve (d / 2) n (subst (λ x. Divides x (n * 2)) even r) in
        subst (λ x. Divides x (g * 2)) (sym even)
          (Divides-double (d / 2) g (h.greatest (d / 2) (half a p) (half b q)))
    | inr is ↦
        let odd : d % 2 ≡ 1 = omega arith in
        Divides-twice d g (h.greatest d (odd-Divides-half d a odd p) (odd-Divides-half d b odd q))
  ];
}

pub IsGcd-eq : (a b g a' b' g' : ℕ) → a ≡ a' → b ≡ b' → g ≡ g' → IsGcd a b g → IsGcd a' b' g'
IsGcd-eq a b g a' b' g' p q r h =
    subst (λ x. IsGcd x b' g') p (subst (λ x. IsGcd a x g') q (subst (λ x. IsGcd a b x) r h))

pub IsGcd-scale : (a b g z : ℕ) → IsGcd a b g → IsGcd (a * 2 ^ z) (b * 2 ^ z) (g * 2 ^ z)
IsGcd-scale a b g zero h = IsGcd-eq a b g _ _ _ (omega arith) (omega arith) (omega arith) h
IsGcd-scale a b g (suc z) h =
    let r = IsGcd-double (a * 2 ^ z) (b * 2 ^ z) (g * 2 ^ z) (IsGcd-scale a b g z h) in
    IsGcd-eq _ _ _ _ _ _ (mul_pow a z) (mul_pow b z) (mul_pow g z) r

pub IsGcd-self : (u v : ℕ) → u ≡ v → IsGcd u v u
IsGcd-self u v e = record {
  left = (1, omega arith);
  right = (1, omega arith);
  greatest = λ d p q. p;
}

pub ordered : (u v g : ℕ) → IsGcd (min u v) (max u v) g → IsGcd u v g
ordered u v g h = elim (Bool-cases (leb u v)) [
  | inl le ↦
      let lo : min u v ≡ u = ground arith in
      let hi : max u v ≡ v = ground arith in IsGcd-eq (min u v) (max u v) g u v g lo hi refl h
  | inr gt ↦
      let lo : min u v ≡ v = ground arith in
      let hi : max u v ≡ u = ground arith in
      IsGcd-sym v u g (IsGcd-eq (min u v) (max u v) g v u g lo hi refl h)
]

-- With the trailing zeros: those that both numbers have are a common factor.
pub zeros-IsGcd :
    (u v za zb g : ℕ)
    → u % 2 ≡ 1
    → v % 2 ≡ 1
    → IsGcd u v g
    → IsGcd (u * 2 ^ za) (v * 2 ^ zb) (g * 2 ^ min za zb)
zeros-IsGcd u v zero zb g ou ov h =
    let least : 0 ≡ min 0 zb = omega arith in
    let once : g ≡ g * 2 ^ 0 = omega arith in
    IsGcd-eq u (v * 2 ^ zb) g _ _ _ (omega arith) refl (once ∙ ap (λ z. g * 2 ^ z) least)
      (IsGcd-shift u v zb g ou h)
zeros-IsGcd u v (suc za) zero g ou ov h =
    let least : 0 ≡ min (suc za) 0 = omega arith in
    let once : g ≡ g * 2 ^ 0 = omega arith in
    IsGcd-sym _ _ _ (
      IsGcd-eq v (u * 2 ^ suc za) g _ _ _ (omega arith) refl (once ∙ ap (λ z. g * 2 ^ z) least)
        (IsGcd-shift v u (suc za) g ov (IsGcd-sym u v g h)))
zeros-IsGcd u v (suc za) (suc zb) g ou ov h =
    let least : suc (min za zb) ≡ min (suc za) (suc zb) = omega arith in
    IsGcd-eq _ _ _ _ _ _ (mul_pow u za) (mul_pow v zb)
      (mul_pow g (min za zb) ∙ ap (λ z. g * 2 ^ z) least)
      (IsGcd-double _ _ _ (zeros-IsGcd u v za zb g ou ov h))

pub IsGcd-zero : (a b : ℕ) → a ≡ 0 → IsGcd a b b
IsGcd-zero a b e = record {
  left = (0, omega arith);
  right = (1, omega arith);
  greatest = λ d p q. q;
}

-- A divisor is not greater than a number that is not zero.
pub Divides-le : (d n : ℕ) → n ≢ 0 → Divides d n → d ≤ n
Divides-le d n ne (zero, e) = absurd (ne (omega arith))
Divides-le d n ne (suc k, e) = omega arith
