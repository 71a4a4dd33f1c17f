-- ===== src/Merger/Cover.antt =====
-- libavtransport/merger.c, `fill_ranges`: the bytes that the ranges cover.
use mathlib.Core.Path.{subst}
use qproto.Common.{
  get_elem?-set_self, get_elem?-set_ne, ℕ, zero, suc, ◌+◌, ◌^◌, ◌≤◌, ◌<◌, ◌≡◌, ◌≢◌, ◌↔◌, ◌⊎◌, inl,
  inr, refl, ap, sym, ◌∙◌, Bool, true, false, List, [], ◌∷◌, Option, some, ok, arith, ◌==◌, u32,
  length, get_elem?, set, if◌then◌else◌, Bool-cases, some->>=, eq_of_some,
}
use qproto.Merger.{
  AvtMergerRange, AvtMerger, ranges_of, range_end, joined, meets, prepend, extend, meets_before,
  meets_behind, work_in, set_ranges, fill_ranges,
}
use qproto.Merger.Checks.{Fits}

abbrev pub InRange : AvtMergerRange → ℕ → Type 0
InRange r b = (r.offset ≤ b) × (b < r.offset + r.size)

-- A byte in one of the first `n` ranges.
abbrev pub Covers : ℕ → List AvtMergerRange → ℕ → Type 0
Covers n rs b = (i : ℕ) × (r : AvtMergerRange) × (i < n) × (get_elem? rs i ≡ some r) × InRange r b

-- The range at `j`, which is of the first `n`, was replaced by one that also has the segment.
record Joins (seg_off seg_size n : ℕ) (rs rs' : List AvtMergerRange) : Type 0 where
  j : ℕ
  old : AvtMergerRange
  new : AvtMergerRange
  inside : j < n
  at : get_elem? rs j ≡ some old
  is : rs' ≡ set rs j new
  union : (b : ℕ) → InRange new b ↔ (InRange old b ⊎ ((seg_off ≤ b) × (b < seg_off + seg_size)))

if_cases {ℓ} :
    {A : Type ℓ} (t : Bool) {x y z : A}
    → (if t then x else y) ≡ z
    → ((t ≡ true) × (x ≡ z)) ⊎ ((t ≡ false) × (y ≡ z))
if_cases true e = inl (refl, e)
if_cases false e = inr (refl, e)

joined_only :
    (t : Bool) (rs rs' : List AvtMergerRange) (i : ℕ)
    → some (if t then joined rs else meets rs i) ≡ some (joined rs')
    → rs' ≡ rs
joined_only true rs rs' i e = cc
joined_only false rs rs' i e = cc

meets_before-joined :
    (rs rs' : List AvtMergerRange) (i seg_off : ℕ)
    → meets_before rs i seg_off ≡ some (joined rs')
    → rs' ≡ rs
meets_before-joined rs rs' zero seg_off e = cc
meets_before-joined rs rs' (suc i) seg_off e =
    let (q, _, k) = some->>= (get_elem? rs i) _ e in joined_only _ rs rs' i k

meets_behind-joined :
    (rs rs' : List AvtMergerRange) (n i : ℕ) (r : AvtMergerRange)
    → meets_behind rs n i r ≡ some (joined rs')
    → rs' ≡ rs
meets_behind-joined rs rs' zero i r e = cc
meets_behind-joined rs rs' (suc n) i r e =
    let (q, _, k) = some->>= (get_elem? rs (suc i)) _ e in joined_only _ rs rs' i k

Fits-get_elem? :
    (rs : List AvtMergerRange) (i : ℕ) (r : AvtMergerRange)
    → Fits rs
    → get_elem? rs i ≡ some r
    → r.offset + r.size < 2 ^ 32
Fits-get_elem? [] i r f e = cc
Fits-get_elem? (x ∷ xs) zero r f e =
    let same : x ≡ r = cc in subst (λ y. y.offset + y.size < 2 ^ 32) same f.0
Fits-get_elem? (x ∷ xs) (suc i) r f e = Fits-get_elem? xs i r f.1 e

module _ (seg_off seg_size : ℕ) (bound : seg_off + seg_size < 2 ^ 32) where
  -- What is behind a segment and the range that starts at its end, or before it and ends at its start.
  prepend-union :
      (r : AvtMergerRange) (b : ℕ)
      → r.offset + r.size < 2 ^ 32
      → (u32 (seg_off + seg_size) == r.offset) ≡ true
      → InRange (prepend seg_off seg_size r) b
        ↔ (InRange r b ⊎ ((seg_off ≤ b) × (b < seg_off + seg_size)))
  prepend-union r b fit t =
      let ends : seg_off + seg_size ≡ r.offset = ground arith in
      let wide : u32 (r.size + seg_size) ≡ r.size + seg_size = omega arith in
      (λ h. ground arith, λ h. ground arith)

  extend-union :
      (r : AvtMergerRange) (b : ℕ)
      → r.offset + r.size < 2 ^ 32
      → (range_end r == seg_off) ≡ true
      → InRange (extend seg_size r) b ↔ (InRange r b ⊎ ((seg_off ≤ b) × (b < seg_off + seg_size)))
  extend-union r b fit t =
      let starts : r.offset + r.size ≡ seg_off = ground arith in
      let wide : u32 (r.size + seg_size) ≡ r.size + seg_size = omega arith in
      (λ h. ground arith, λ h. ground arith)

  work_in-Joins :
      (n i dst : ℕ) (rs rs' : List AvtMergerRange)
      → Fits rs
      → work_in n seg_off seg_size i dst rs ≡ some (joined rs')
      → Joins seg_off seg_size (i + n) rs rs'
  unfolding work_in
  work_in-Joins zero i dst rs rs' f e = cc
  work_in-Joins (suc n) i dst rs rs' f e =
      let (r, at, k) = some->>= (get_elem? rs i) _ e in
      let fit = Fits-get_elem? rs i r f at in
      elim (if_cases (u32 (seg_off + seg_size) == r.offset) k) [
        | inl (t, k') ↦ record {
          j = i;
          old = r;
          new = prepend seg_off seg_size r;
          inside = omega arith;
          at = at;
          is = meets_before-joined _ rs' i seg_off k';
          union = λ b. prepend-union r b fit t;
        }
        | inr (t, k') ↦ elim (if_cases (range_end r == seg_off) k') [
          | inl (t', k'') ↦ record {
            j = i;
            old = r;
            new = extend seg_size r;
            inside = omega arith;
            at = at;
            is = meets_behind-joined _ rs' n i _ k'';
            union = λ b. extend-union r b fit t';
          }
          | inr (t', k'') ↦
              subst (λ k. Joins seg_off seg_size k rs rs') (omega arith)
                (work_in-Joins n (suc i) _ rs rs' f k'')
        ]
      ]

get_elem?-bound {ℓ} :
    {A : Type ℓ} (xs : List A) (i : ℕ) {a : A} → get_elem? xs i ≡ some a → i < length xs
get_elem?-bound [] i e = cc
get_elem?-bound (x ∷ xs) zero e = omega arith
get_elem?-bound (x ∷ xs) (suc i) e = let ih = get_elem?-bound xs i e in omega arith

eq_or_ne : (a b : ℕ) → (a ≡ b) ⊎ (a ≢ b)
eq_or_ne a b = elim (Bool-cases (a == b)) [
  | inl e ↦ inl (ground arith)
  | inr e ↦ inr (λ h. ground arith)
]

Joins-Covers :
    (seg_off seg_size n : ℕ) (rs rs' : List AvtMergerRange)
    → Joins seg_off seg_size n rs rs'
    → (b : ℕ) → Covers n rs' b ↔ (Covers n rs b ⊎ ((seg_off ≤ b) × (b < seg_off + seg_size)))
Joins-Covers seg_off seg_size n rs rs' w b =
    let self = get_elem?-set_self rs w.j w.new (get_elem?-bound rs w.j w.at) in
    let other : (i : ℕ) → w.j ≢ i → get_elem? rs' i ≡ get_elem? rs i =
      λ i ne. ap (λ xs. get_elem? xs i) w.is ∙ get_elem?-set_ne rs w.j i w.new ne in
    let here : get_elem? rs' w.j ≡ some w.new = ap (λ xs. get_elem? xs w.j) w.is ∙ self in
    let at_new : InRange w.new b → Covers n rs' b = λ h. (w.j, w.new, w.inside, here, h) in
    (
      λ (i, r, lt, at, h). elim (eq_or_ne w.j i) [
        | inl e ↦
            elim ((w.union b).0 (
              subst (λ r. InRange r b) (eq_of_some (sym at ∙ ap (get_elem? rs') (sym e) ∙ here))
                h)) [ inl old ↦ inl (w.j, w.old, w.inside, w.at, old) | inr seg ↦ inr seg ]
        | inr ne ↦ inl (i, r, lt, sym (other i ne) ∙ at, h)
      ],
      λ c. elim c [
        | inl (i, r, lt, at, h) ↦ elim (eq_or_ne w.j i) [
          | inl e ↦ at_new (
              (w.union b).1 (
                inl (
                  subst (λ r. InRange r b) (eq_of_some (sym at ∙ ap (get_elem? rs) (sym e) ∙ w.at))
                    h)))
          | inr ne ↦ (i, r, lt, other i ne ∙ at, h)
        ]
        | inr seg ↦ at_new ((w.union b).1 (inr seg))
      ],
    )

-- When the loop of `fill_ranges` works a segment into a range and no second one is met, then with no
-- end past 32 bits the function returns without an error, keeps the number of ranges, and the ranges
-- then cover exactly the bytes that they covered before and those of the segment.
pub fill_ranges-Covers :
    (merger_size : ℕ) (fresh : Option (List AvtMergerRange)) (m : AvtMerger) (is_parity : Bool)
    (seg_off seg_size : ℕ) (rs' : List AvtMergerRange)
    → Fits (ranges_of m is_parity).ranges
    → seg_off + seg_size < 2 ^ 32
    → work_in (ranges_of m is_parity).nb_ranges seg_off seg_size 0 0 (ranges_of m is_parity).ranges
      ≡ some (joined rs')
    → (fill_ranges merger_size fresh m is_parity seg_off seg_size
        ≡ some (ok (set_ranges m is_parity (record (ranges_of m is_parity) { ranges = rs' }))))
      × ((b : ℕ)
          → Covers (ranges_of m is_parity).nb_ranges rs' b ↔ (
              Covers (ranges_of m is_parity).nb_ranges (ranges_of m is_parity).ranges b
              ⊎ ((seg_off ≤ b) × (b < seg_off + seg_size))))
unfolding fill_ranges
fill_ranges-Covers merger_size fresh m is_parity seg_off seg_size rs' f bound e =
    let r = ranges_of m is_parity in
    (
      rw e,
      Joins-Covers seg_off seg_size r.nb_ranges r.ranges rs' (
          subst (λ n. Joins seg_off seg_size n r.ranges rs') (omega arith)
            (work_in-Joins seg_off seg_size bound r.nb_ranges 0 0 r.ranges rs' f e)),
    )
