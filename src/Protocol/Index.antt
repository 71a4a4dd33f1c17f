-- ===== src/Protocol/Index.antt =====
-- The index of a stream is a ring of the latest entries.
use qproto.Common.{
  get_elem?-set_self, get_elem?-set_ne, ℕ, zero, suc, ◌+◌, ◌%◌, ◌^◌, ◌≤◌, ◌<◌, min, ◌≡◌, refl, ◌≢◌,
  ◌∙◌, sym, arith, true, false, List, [], ◌∷◌, ◌++◌, map, some, ok, length, length-append,
  length-set, get_elem?, set, u32, u64, ltb, leb, ◌==◌, inl, inr, Bool-cases, lt→ltb, leb→le,
}
use native.Mathlib.Nat.{mod-eq_of_lt}
use mathlib.Core.List.{append_assoc, append-nil}
use qproto.Protocol.{AvtIndexContext, add_index_entry, avt_index_list_parse}

mod-ne : (k n m : ℕ) → k < n → n < k + m → k % m ≢ n % m
mod-ne k n m lt near e = grind arith

module _ {A : Type 0} where
  get_elem?-append_left :
      (xs ys : List A) (i : ℕ) → i < length xs → get_elem? (xs ++ ys) i ≡ get_elem? xs i
  get_elem?-append_left [] ys i h = absurd (omega arith)
  get_elem?-append_left (x ∷ xs) ys zero h = refl
  get_elem?-append_left (x ∷ xs) ys (suc i) h = get_elem?-append_left xs ys i (omega arith)

  get_elem?-append_mid : (xs : List A) (v : A) → get_elem? (xs ++ (v ∷ [])) (length xs) ≡ some v
  get_elem?-append_mid [] v = refl
  get_elem?-append_mid (x ∷ xs) v = get_elem?-append_mid xs v

  -- The context after the entries of `history`, of which it holds the latest: entry `k` is at `k % max`.
  pub record IsRing (ic : AvtIndexContext A) (history : List A) : Type 0 where
    pub bounded : 0 < ic.nb_index_max
    pub fits : ic.nb_index_max < 2 ^ 31
    pub total : ic.nb_index_total ≡ length history
    pub held : ic.nb_index ≡ min (length history) ic.nb_index_max
    pub allocated : ic.nb_alloc_index ≡ ic.nb_index
    pub sized : length ic.index ≡ ic.nb_index
    pub latest :
        (k : ℕ)
        → k < length history
        → length history ≤ k + ic.nb_index_max
        → get_elem? ic.index (k % ic.nb_index_max) ≡ get_elem? history k

  -- The place of the next entry is the only one that changes.
  latest-set :
      (xs history : List A) (e : A) (m : ℕ)
      → length history % m < length xs
      → ((k : ℕ)
          → k < length history
          → length history < k + m
          → get_elem? xs (k % m) ≡ get_elem? history k)
      → (k : ℕ) → k < length (history ++ (e ∷ []))
      → length (history ++ (e ∷ [])) ≤ k + m
      → get_elem? (set xs (length history % m) e) (k % m) ≡ get_elem? (history ++ (e ∷ [])) k
  latest-set xs history e m room before k lt near = elim (Bool-cases (k == length history)) [
    | inl new ↦
        let same : k ≡ length history = ground arith in
        rw same
          (get_elem?-set_self xs (length history % m) e room ∙ sym (get_elem?-append_mid history e))
    | inr old ↦
        let long = length-append history (e ∷ []) in
        let below : k < length history = ground (arith, long) in
        let close : length history < k + m = omega (arith, long) in
        get_elem?-set_ne xs (length history % m) (k % m) e
          (λ q. mod-ne k (length history) m below close (sym q))
        ∙ before k below close
        ∙ sym (get_elem?-append_left history (e ∷ []) k below)
  ]

  module _ (ic : AvtIndexContext A) (history : List A) (r : IsRing ic history) (e : A)
      (small : length history + 1 < 2 ^ 64) where
    place : length history % ic.nb_index_max < ic.nb_index_max
    place = let b = r.bounded in grind arith

    -- The ring is full: the oldest entry is overwritten.
    full-eq :
        ic.nb_index_max ≤ ic.nb_index
        → add_index_entry ic (true, e)
          ≡ some (
              ok (record ic {
                index = set ic.index (length history % ic.nb_index_max) e;
                nb_index_total = ic.nb_index_total + 1;
              }))
    unfolding add_index_entry
    full-eq full =
        let is_full : leb ic.nb_index_max ic.nb_index ≡ true = ground arith in
        let positive : (ic.nb_index_max == 0) ≡ false = let b = r.bounded in ground arith in
        let room : ltb (length history % ic.nb_index_max) (length ic.index) ≡ true =
          lt→ltb (length history % ic.nb_index_max) (length ic.index)
            (omega (arith, place, r.sized)) in
        let next : u64 (length history + 1) ≡ length history + 1 = omega arith in
        let as_int : u32 (length history % ic.nb_index_max) ≡ length history % ic.nb_index_max =
          let f = r.fits in let p = place in omega arith in
        rw (is_full, positive, r.total, as_int, room, next) refl

    full-IsRing :
        ic.nb_index_max ≤ ic.nb_index
        → (ic' : AvtIndexContext A) × (add_index_entry ic (true, e) ≡ some (ok ic'))
          × IsRing ic' (history ++ (e ∷ []))
    full-IsRing full = (
      record ic {
        index = set ic.index (length history % ic.nb_index_max) e;
        nb_index_total = ic.nb_index_total + 1;
      },
      full-eq full,
      record {
        bounded = r.bounded;
        fits = r.fits;
        total = omega (arith, r.total, length-append history (e ∷ []));
        held = omega (arith, r.held, length-append history (e ∷ []));
        allocated = r.allocated;
        sized = length-set ic.index (length history % ic.nb_index_max) e ∙ r.sized;
        latest =
            latest-set ic.index history e ic.nb_index_max (omega (arith, place, r.sized))
              (λ k lt near. r.latest k lt (omega arith));
      },
    )

    -- There is room: the array grows.
    at_end : ic.nb_index < ic.nb_index_max → length history % ic.nb_index_max ≡ ic.nb_index
    at_end free =
        let h = r.held in
        let few : length history < ic.nb_index_max = omega arith in mod-eq_of_lt few ∙ omega arith

    low :
        ic.nb_index < ic.nb_index_max
        → (k : ℕ) → k < length history
        → k % ic.nb_index_max < length history
    low free k lt =
        let h = r.held in let few : k < ic.nb_index_max = omega arith in rw (mod-eq_of_lt few) lt

    grown-eq :
        ic.nb_index < ic.nb_index_max
        → add_index_entry ic (true, e)
          ≡ some (
              ok (record ic {
                index = set (ic.index ++ (e ∷ [])) (length history % ic.nb_index_max) e;
                nb_index = ic.nb_index + 1;
                nb_alloc_index = ic.nb_alloc_index + 1;
                nb_index_total = ic.nb_index_total + 1;
              }))
    unfolding add_index_entry
    grown-eq free =
        let not_full : leb ic.nb_index_max ic.nb_index ≡ false = ground arith in
        let in_int : leb (2 ^ 31) (ic.nb_index + 1) ≡ false = let f = r.fits in ground arith in
        let grows : ltb ic.nb_alloc_index (ic.nb_index + 1) ≡ true =
          lt→ltb ic.nb_alloc_index (ic.nb_index + 1) (omega (arith, r.allocated)) in
        let room : ltb ic.nb_index (length (ic.index ++ (e ∷ []))) ≡ true =
          lt→ltb ic.nb_index (length (ic.index ++ (e ∷ [])))
            (omega (arith, r.sized, length-append ic.index (e ∷ []))) in
        let next : u64 (ic.nb_index_total + 1) ≡ ic.nb_index_total + 1 = omega (arith, r.total) in
        rw (not_full, in_int, grows, room, next, at_end free) refl

    grown-IsRing :
        ic.nb_index < ic.nb_index_max
        → (ic' : AvtIndexContext A) × (add_index_entry ic (true, e) ≡ some (ok ic'))
          × IsRing ic' (history ++ (e ∷ []))
    grown-IsRing free =
        let long = length-append ic.index (e ∷ []) in
        (
          record ic {
            index = set (ic.index ++ (e ∷ [])) (length history % ic.nb_index_max) e;
            nb_index = ic.nb_index + 1;
            nb_alloc_index = ic.nb_alloc_index + 1;
            nb_index_total = ic.nb_index_total + 1;
          },
          grown-eq free,
          record {
            bounded = r.bounded;
            fits = r.fits;
            total = omega (arith, r.total, length-append history (e ∷ []));
            held = omega (arith, r.held, length-append history (e ∷ []));
            allocated = omega (arith, r.allocated);
            sized =
                length-set (ic.index ++ (e ∷ [])) (length history % ic.nb_index_max) e
                ∙ omega (arith, long, r.sized);
            latest =
                latest-set (ic.index ++ (e ∷ [])) history e ic.nb_index_max
                  (omega (arith, long, r.sized, at_end free))
                  (λ k lt near.
                    get_elem?-append_left ic.index (e ∷ []) (k % ic.nb_index_max)
                      (omega (arith, r.sized, r.held, low free k lt))
                    ∙ r.latest k lt (omega arith));
          },
        )

  -- One entry more.
  add_index_entry-IsRing :
      (ic : AvtIndexContext A) (history : List A) (e : A)
      → IsRing ic history
      → length history + 1 < 2 ^ 64
      → (ic' : AvtIndexContext A) × (add_index_entry ic (true, e) ≡ some (ok ic'))
        × IsRing ic' (history ++ (e ∷ []))
  add_index_entry-IsRing ic history e r small =
      elim (Bool-cases (leb ic.nb_index_max ic.nb_index)) [
        | inl full ↦ full-IsRing ic history r e small (leb→le ic.nb_index_max ic.nb_index full)
        | inr free ↦ grown-IsRing ic history r e small (ground arith)
      ]

  -- A context that is not configured holds nothing, and has a ring as soon as its size is set.
  abbrev pub configured : ℕ → AvtIndexContext A
  configured m = record {
    index = [];
    nb_index = 0;
    nb_alloc_index = 0;
    nb_index_total = 0;
    nb_index_max = m;
  }

  pub configured-IsRing : (m : ℕ) → 0 < m → m < 2 ^ 31 → IsRing (configured m) []
  configured-IsRing m h f = record {
    bounded = h;
    fits = f;
    total = refl;
    held = omega arith;
    allocated = refl;
    sized = refl;
    latest = λ k lt near. absurd (omega arith);
  }

  -- An index of a size above 0 and below 2^31 that has taken the entries of `history`, so that it holds
  -- the latest of them, entry `k` at `k % size`, and no more than its size. With memory, and fewer than
  -- 2^64 entries in all, it takes all that a packet lists, does not fault, and holds the latest of all
  -- of them.
  pub avt_index_list_parse-IsRing :
      (ic : AvtIndexContext A) (history entries : List A)
      → IsRing ic history
      → length (history ++ entries) < 2 ^ 64
      → (ic' : AvtIndexContext A) × (avt_index_list_parse ic (map (λ e. (true, e)) entries)
          ≡ some (ok ic'))
        × IsRing ic' (history ++ entries)
  unfolding avt_index_list_parse
  avt_index_list_parse-IsRing ic history [] r small = (ic, refl, rw (append-nil history) r)
  avt_index_list_parse-IsRing ic history (e ∷ entries) r small =
      let shift : (history ++ (e ∷ [])) ++ entries ≡ history ++ (e ∷ entries) =
        append_assoc history (e ∷ []) entries in
      let room : length history + 1 < 2 ^ 64 = omega (arith, length-append history (e ∷ entries)) in
      let (mid, step, held) = add_index_entry-IsRing ic history e r room in
      let (last, rest, ring) =
        avt_index_list_parse-IsRing mid (history ++ (e ∷ [])) entries held (rw shift small) in
      (last, rw step rest, rw (← shift) ring)
