-- ===== src/Common/Lists.antt =====
-- C arrays as lists with native indices, and runs of elements written into them.
use Prim.Native.Nat.{ℕ, zero, suc, ◌+◌, ◌-◌, ◌≤◌, ◌<◌, min}
use mathlib.Core.Path.{◌≡◌, refl, ap}
use mathlib.Core.Logic.{◌≢◌, ◌⊎◌, inr}
use mathlib.Core.List.{List, [], ◌∷◌, ◌++◌}
use mathlib.Core.Option.{Option, none, some}
use native.Mathlib.Omega.{arith}

module _ {ℓ} {A : Type ℓ} where
  abbrev pub length : List A → ℕ
  length [] = 0
  length (x ∷ xs) = suc (length xs)

  abbrev pub get_elem? : List A → ℕ → Option A
  get_elem? [] i = none
  get_elem? (x ∷ xs) zero = some x
  get_elem? (x ∷ xs) (suc i) = get_elem? xs i

  abbrev pub get_or : List A → ℕ → A → A
  get_or [] i d = d
  get_or (x ∷ xs) zero d = x
  get_or (x ∷ xs) (suc i) d = get_or xs i d

  -- A write out of bounds changes nothing.
  abbrev pub set : List A → ℕ → A → List A
  set [] i v = []
  set (x ∷ xs) zero v = v ∷ xs
  set (x ∷ xs) (suc i) v = x ∷ set xs i v

  abbrev pub take : ℕ → List A → List A
  take zero xs = []
  take (suc n) [] = []
  take (suc n) (x ∷ xs) = x ∷ take n xs

  abbrev pub drop : ℕ → List A → List A
  drop zero xs = xs
  drop (suc n) [] = []
  drop (suc n) (x ∷ xs) = drop n xs

  abbrev pub replicate : ℕ → A → List A
  replicate zero a = []
  replicate (suc n) a = a ∷ replicate n a

  -- `vs` copied over the elements from index `i` on, as far as the array goes.
  abbrev pub overwrite : List A → ℕ → List A → List A
  overwrite [] i vs = []
  overwrite (x ∷ xs) zero [] = x ∷ xs
  overwrite (x ∷ xs) zero (v ∷ vs) = v ∷ overwrite xs zero vs
  overwrite (x ∷ xs) (suc i) vs = x ∷ overwrite xs i vs

  pub length-append : (xs ys : List A) → length (xs ++ ys) ≡ length xs + length ys
  length-append [] ys = omega arith
  length-append (x ∷ xs) ys = omega (arith, length-append xs ys)

  pub length-take : (n : ℕ) (xs : List A) → length (take n xs) ≡ min n (length xs)
  length-take zero xs = omega arith
  length-take (suc n) [] = omega arith
  length-take (suc n) (x ∷ xs) = omega (arith, length-take n xs)

  pub length-drop : (n : ℕ) (xs : List A) → length (drop n xs) ≡ length xs - n
  length-drop zero xs = omega arith
  length-drop (suc n) [] = omega arith
  length-drop (suc n) (x ∷ xs) = omega (arith, length-drop n xs)

  pub length-replicate : (n : ℕ) (a : A) → length (replicate n a) ≡ n
  length-replicate zero a = refl
  length-replicate (suc n) a = ap suc (length-replicate n a)

  pub length-set : (xs : List A) (i : ℕ) (v : A) → length (set xs i v) ≡ length xs
  length-set [] i v = refl
  length-set (x ∷ xs) zero v = refl
  length-set (x ∷ xs) (suc i) v = ap suc (length-set xs i v)

  pub length-overwrite :
      (xs : List A) (i : ℕ) (vs : List A) → length (overwrite xs i vs) ≡ length xs
  length-overwrite [] i vs = refl
  length-overwrite (x ∷ xs) zero [] = refl
  length-overwrite (x ∷ xs) zero (v ∷ vs) = ap suc (length-overwrite xs zero vs)
  length-overwrite (x ∷ xs) (suc i) vs = ap suc (length-overwrite xs i vs)

module _ {ℓ} {A : Type ℓ} where
  pub get_or-set_self :
      (xs : List A) (i : ℕ) (v d : A) → i < length xs → get_or (set xs i v) i d ≡ v
  get_or-set_self [] i v d h = absurd (omega arith)
  get_or-set_self (x ∷ xs) zero v d h = refl
  get_or-set_self (x ∷ xs) (suc i) v d h = get_or-set_self xs i v d (omega arith)

  pub get_or-set_ne :
      (xs : List A) (i j : ℕ) (v d : A) → i ≢ j → get_or (set xs i v) j d ≡ get_or xs j d
  get_or-set_ne [] i j v d h = refl
  get_or-set_ne (x ∷ xs) zero zero v d h = absurd (h refl)
  get_or-set_ne (x ∷ xs) zero (suc j) v d h = refl
  get_or-set_ne (x ∷ xs) (suc i) zero v d h = refl
  get_or-set_ne (x ∷ xs) (suc i) (suc j) v d h = get_or-set_ne xs i j v d (λ e. h (ap suc e))

  -- Inside the run an array shows the values written.
  pub get_or-overwrite_in :
      (xs : List A) (i : ℕ) (vs : List A) (j k : ℕ) (d : A)
      → j ≡ i + k
      → k < length vs
      → j < length xs
      → get_or (overwrite xs i vs) j d ≡ get_or vs k d
  get_or-overwrite_in [] i vs j k d e h b = absurd (omega arith)
  get_or-overwrite_in (x ∷ xs) zero [] j k d e h b = absurd (omega arith)
  get_or-overwrite_in (x ∷ xs) zero (v ∷ vs) zero zero d e h b = refl
  get_or-overwrite_in (x ∷ xs) zero (v ∷ vs) zero (suc k) d e h b = absurd (omega arith)
  get_or-overwrite_in (x ∷ xs) zero (v ∷ vs) (suc j) zero d e h b = absurd (omega arith)
  get_or-overwrite_in (x ∷ xs) zero (v ∷ vs) (suc j) (suc k) d e h b =
      get_or-overwrite_in xs zero vs j k d (omega arith) (omega arith) (omega arith)
  get_or-overwrite_in (x ∷ xs) (suc i) vs zero k d e h b = absurd (omega arith)
  get_or-overwrite_in (x ∷ xs) (suc i) vs (suc j) k d e h b =
      get_or-overwrite_in xs i vs j k d (omega arith) h (omega arith)

  -- Outside the run an array shows what it held.
  pub get_or-overwrite_out :
      (xs : List A) (i : ℕ) (vs : List A) (j : ℕ) (d : A)
      → (j < i) ⊎ (i + length vs ≤ j)
      → get_or (overwrite xs i vs) j d ≡ get_or xs j d
  get_or-overwrite_out [] i vs j d h = refl
  get_or-overwrite_out (x ∷ xs) zero [] j d h = refl
  get_or-overwrite_out (x ∷ xs) zero (v ∷ vs) zero d h = absurd (omega arith)
  get_or-overwrite_out (x ∷ xs) zero (v ∷ vs) (suc j) d h =
      get_or-overwrite_out xs zero vs j d (inr (omega arith))
  get_or-overwrite_out (x ∷ xs) (suc i) vs zero d h = refl
  get_or-overwrite_out (x ∷ xs) (suc i) vs (suc j) d h =
      get_or-overwrite_out xs i vs j d (omega arith)

  pub take-append-drop : (n : ℕ) (xs : List A) → take n xs ++ drop n xs ≡ xs
  take-append-drop zero xs = refl
  take-append-drop (suc n) [] = refl
  take-append-drop (suc n) (x ∷ xs) = ap (λ ys. x ∷ ys) (take-append-drop n xs)

  -- A piece of `m` elements after the first `n` extends the prefix to `n + m`.
  pub take-take-drop :
      (n m k : ℕ) (xs : List A) → k ≡ n + m → take n xs ++ take m (drop n xs) ≡ take k xs
  take-take-drop zero m k xs e = let e' : m ≡ k = omega arith in rw e'
  take-take-drop (suc n) m zero xs e = absurd (omega arith)
  take-take-drop (suc n) zero (suc k) [] e = refl
  take-take-drop (suc n) (suc m) (suc k) [] e = refl
  take-take-drop (suc n) m (suc k) (x ∷ xs) e =
      ap (λ ys. x ∷ ys) (take-take-drop n m k xs (omega arith))

  pub take-all : (n : ℕ) (xs : List A) → length xs ≤ n → take n xs ≡ xs
  take-all zero [] h = refl
  take-all zero (x ∷ xs) h = absurd (omega arith)
  take-all (suc n) [] h = refl
  take-all (suc n) (x ∷ xs) h = ap (λ ys. x ∷ ys) (take-all n xs (omega arith))

  pub get_elem?-set_self :
      (xs : List A) (i : ℕ) (v : A) → i < length xs → get_elem? (set xs i v) i ≡ some v
  get_elem?-set_self [] i v h = absurd (omega arith)
  get_elem?-set_self (x ∷ xs) zero v h = refl
  get_elem?-set_self (x ∷ xs) (suc i) v h = get_elem?-set_self xs i v (omega arith)

  pub get_elem?-set_ne :
      (xs : List A) (i j : ℕ) (v : A) → i ≢ j → get_elem? (set xs i v) j ≡ get_elem? xs j
  get_elem?-set_ne [] i j v h = refl
  get_elem?-set_ne (x ∷ xs) zero zero v h = absurd (h refl)
  get_elem?-set_ne (x ∷ xs) zero (suc j) v h = refl
  get_elem?-set_ne (x ∷ xs) (suc i) zero v h = refl
  get_elem?-set_ne (x ∷ xs) (suc i) (suc j) v h = get_elem?-set_ne xs i j v (λ e. h (ap suc e))
