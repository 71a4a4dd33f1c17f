-- ===== src/Common/Division.antt =====
-- Division of native numbers by a variable.
use Prim.Native.Nat.{ℕ, zero, suc, ◌+◌, ◌-◌, ◌*◌, ◌/◌, ◌≤◌, ◌<◌, div_helper}
use Prim.Native.Nat.div
use mathlib.Core.Path.{◌≡◌, subst, sym}
use native.Mathlib.Omega.{arith}

-- `q` is the quotient of `n` by `c`.
abbrev pub IsQuotient : ℕ → ℕ → ℕ → Type 0
IsQuotient n c q = q * c ≤ n × n < q * c + c

helper-IsQuotient :
    (k m n j : ℕ) → j ≤ m → IsQuotient (k * suc m + (m - j) + n) (suc m) (div_helper k m n j)
helper-IsQuotient k m zero j h = (omega arith, omega arith)
helper-IsQuotient k m (suc n) zero h =
    let (lo, hi) = helper-IsQuotient (suc k) m n m (omega arith) in (omega arith, omega arith)
helper-IsQuotient k m (suc n) (suc j) h =
    let (lo, hi) = helper-IsQuotient k m n j (omega arith) in (omega arith, omega arith)

pub div-IsQuotient : (n c : ℕ) → 0 < c → IsQuotient n c (n / c)
div-IsQuotient n zero h = absurd (omega arith)
div-IsQuotient n (suc m) h =
    let (lo, hi) = helper-IsQuotient 0 m n m (omega arith) in
    let e = div.suc n m in subst (λ q. IsQuotient n (suc m) q) (sym e) (omega arith, omega arith)

pub mul-le : (a b c : ℕ) → a ≤ b → a * c ≤ b * c
mul-le zero b c h = omega arith
mul-le (suc a) zero c h = absurd (omega arith)
mul-le (suc a) (suc b) c h = omega (arith, mul-le a b c (omega arith))

-- What is below the next multiple is not above the factor.
mul-le_iff : (a b c : ℕ) → a * c < b * c + c → a ≤ b
mul-le_iff zero b c h = omega arith
mul-le_iff (suc a) zero c h = absurd (omega arith)
mul-le_iff (suc a) (suc b) c h = omega (arith, mul-le_iff a b c (omega arith))

pub quotient_unique : (n c q q' : ℕ) → IsQuotient n c q → IsQuotient n c q' → q ≡ q'
quotient_unique n c q q' (lo, hi) (lo', hi') =
    omega (arith, mul-le_iff q q' c (omega arith), mul-le_iff q' q c (omega arith))

pub mul-div : (q c : ℕ) → 0 < c → q * c / c ≡ q
mul-div q c h =
    quotient_unique (q * c) c (q * c / c) q (div-IsQuotient (q * c) c h) (omega arith, omega arith)
