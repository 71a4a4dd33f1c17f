-- ===== src/Buffer/Programs.antt =====
-- Every call of a program keeps each counter at the number of its references.
use qproto.Common.{
  ℕ, ◌+◌, ◌≡◌, refl, ◌∙◌, ap, sym, arith, Bool, true, List, [], ◌∷◌, ◌++◌, Option, none, some,
  false, ok, inl, inr,
}
use qproto.Buffer.{
  AvtBuffer, Heap, null_buffer, buffer_ref, buffer_quick_create, buffer_quick_unref,
  buffer_quick_ref,
}
use qproto.Buffer.Alloc.{buffer_unref}
use qproto.Buffer.Balance.{
  refs, refers, tally, Balanced, buffer_quick_unref-Balanced, buffer_quick_ref-Balanced,
}
use qproto.Buffer.Effects.{
  ref_over-eq, buffer_create-eq, buffer_ref-null, buffer_ref-Balanced, buffer_unref-cases,
  offset-refcnt, resize-refcnt,
}
use qproto.Buffer.Steps.{
  Reach, IsSound, Program, returned, Step, create, share, drop_one, allocate, refer, share_over,
  give_up, move_view, resize, here, next,
}

refs-middle :
    (xs ys : List AvtBuffer) (b : AvtBuffer) (r : ℕ)
    → refs (xs ++ (b ∷ ys)) r ≡ refers b.refcnt r + refs (xs ++ ys) r
refs-middle [] ys b r = refl
refs-middle (x ∷ xs) ys b r = omega (arith, refs-middle xs ys b r)

-- The order of the references does not matter to the counters.
to_front :
    (s : Program) (xs ys : List AvtBuffer) (b : AvtBuffer)
    → s.held ≡ xs ++ (b ∷ ys)
    → Balanced s.heap s.held
    → Balanced s.heap (b ∷ (xs ++ ys))
to_front s xs ys b e bal r = bal r ∙ ap (λ l. tally (refs l r)) e ∙ ap tally (refs-middle xs ys b r)

-- What is sound only depends on the counters that are referred to.
same-IsSound :
    (s t : Program)
    → IsSound s
    → t.heap ≡ s.heap
    → ((r : ℕ) → refs t.held r ≡ refs s.held r)
    → IsSound t
same-IsSound s t v same k = record {
  balanced = λ r. ap (λ (h : Heap). h.counter r) same ∙ v.balanced r ∙ ap tally (sym (k r));
  unused = λ r far. omega (arith, k r, v.unused r, ap (λ (h : Heap). h.next) same);
}

-- A reference that is replaced by another to the same counter.
refs-replace :
    (xs ys : List AvtBuffer) (b b' : AvtBuffer) (r : ℕ)
    → b'.refcnt ≡ b.refcnt
    → refs (xs ++ (b' ∷ ys)) r ≡ refs (xs ++ (b ∷ ys)) r
refs-replace xs ys b b' r same =
    refs-middle xs ys b' r
    ∙ ap (λ c. refers c r + refs (xs ++ ys) r) same
    ∙ sym (refs-middle xs ys b r)

module _ (s t : Program) (v : IsSound s) where
  create-IsSound :
      (b fresh : AvtBuffer) (addr len opaque : ℕ) (free_cb flags : Bool)
      → buffer_quick_create true fresh addr len opaque free_cb flags s.heap ≡ ok (b, t.heap)
      → t.held ≡ b ∷ s.held
      → IsSound t
  unfolding buffer_quick_create
  create-IsSound b fresh addr len opaque free_cb flags e k = record {
    balanced = λ r. ground (arith, v.balanced r, v.unused r, ap (λ l. refs l r) k);
    unused = λ r far. ground (arith, v.unused r, ap (λ l. refs l r) k);
  }

  -- One reference more to the counter of one that is held.
  more-IsSound :
      (xs ys : List AvtBuffer) (b d : AvtBuffer)
      → s.held ≡ xs ++ (b ∷ ys)
      → Balanced t.heap (d ∷ b ∷ (xs ++ ys)) × (d.refcnt ≡ b.refcnt) × (t.heap.next ≡ s.heap.next)
      → t.held ≡ d ∷ s.held
      → IsSound t
  more-IsSound xs ys b d k (counted, same, kept_next) k' =
      let more : (r : ℕ) → refs t.held r ≡ refers b.refcnt r + refs s.held r =
        λ r. omega (arith, ap (λ l. refs l r) k', ap (λ c. refers c r) same) in
      let was : (r : ℕ) → refs s.held r ≡ refers b.refcnt r + refs (xs ++ ys) r =
        λ r. omega (arith, ap (λ l. refs l r) k, refs-middle xs ys b r) in
      record {
        balanced =
            λ r. counted r ∙ ap tally (omega (arith, more r, was r, ap (λ c. refers c r) same));
        unused = λ r far. omega (arith, more r, was r, v.unused r);
      }

  share-IsSound :
      (xs ys : List AvtBuffer) (b d : AvtBuffer) (offset len : ℕ)
      → s.held ≡ xs ++ (b ∷ ys)
      → buffer_quick_ref null_buffer b offset len s.heap ≡ some (d, t.heap)
      → t.held ≡ d ∷ s.held
      → IsSound t
  share-IsSound xs ys b d offset len k e k' =
      more-IsSound xs ys b d k
        (buffer_quick_ref-Balanced b d (xs ++ ys) offset len s.heap t.heap
          (to_front s xs ys b k v.balanced) e)
        k'

  refer-IsSound :
      (xs ys : List AvtBuffer) (b : AvtBuffer) (d : Option AvtBuffer) (offset len : ℕ) (m : Bool)
      → s.held ≡ xs ++ (b ∷ ys)
      → buffer_ref m b offset len s.heap ≡ some (d, t.heap)
      → t.held ≡ returned d ++ s.held
      → IsSound t
  refer-IsSound xs ys b none offset len m k e k' =
      same-IsSound s t v (buffer_ref-null m b offset len s.heap t.heap e)
        (λ r. ap (λ l. refs l r) k')
  refer-IsSound xs ys b (some d) offset len m k e k' =
      more-IsSound xs ys b d k
        (buffer_ref-Balanced m b d (xs ++ ys) offset len s.heap t.heap
          (to_front s xs ys b k v.balanced) e)
        k'

  drop-IsSound :
      (xs ys : List AvtBuffer) (b b' : AvtBuffer)
      → s.held ≡ xs ++ (b ∷ ys)
      → buffer_quick_unref b s.heap ≡ some (b', t.heap)
      → t.held ≡ xs ++ ys
      → IsSound t
  drop-IsSound xs ys b b' k e k' =
      let u = buffer_quick_unref-Balanced b (xs ++ ys) s.heap (to_front s xs ys b k v.balanced) in
      let same : u.heap ≡ t.heap = ground (arith, u.runs) in
      record {
        balanced = λ r.
            ap (λ (h : Heap). h.counter r) (sym same)
            ∙ u.balanced r
            ∙ ap (λ l. tally (refs l r)) (sym k');
        unused = λ r far. omega (
          arith,
          ap (λ l. refs l r) k,
          ap (λ l. refs l r) k',
          refs-middle xs ys b r,
          v.unused r,
          u.same_next,
          ap (λ (h : Heap). h.next) same,
        );
      }

module _ (s t : Program) (v : IsSound s) where
  share_over-IsSound :
      (xs ys us vs : List AvtBuffer) (b d d' : AvtBuffer) (offset len : ℕ)
      → s.held ≡ xs ++ (d ∷ ys)
      → xs ++ ys ≡ us ++ (b ∷ vs)
      → buffer_quick_ref d b offset len s.heap ≡ some (d', t.heap)
      → t.held ≡ d' ∷ (xs ++ ys)
      → IsSound t
  share_over-IsSound xs ys us vs b d d' offset len k other e k' =
      let u = buffer_quick_unref-Balanced d (xs ++ ys) s.heap (to_front s xs ys d k v.balanced) in
      let mid : Program = record { held = xs ++ ys; heap = u.heap } in
      let dropped = drop-IsSound s mid v xs ys d u.buf k u.runs refl in
      let (new, run, same) =
        ref_over-eq d u.buf b d' offset len s.heap u.heap t.heap u.runs u.gone e in
      let last : Program = record { held = new ∷ (xs ++ ys); heap = t.heap } in
      same-IsSound last t (share-IsSound mid last dropped us vs b new offset len other run refl)
        refl (λ r. ap (λ l. refs l r) k' ∙ ap (λ c. refers c r + refs (xs ++ ys) r) same)

  give_up-IsSound :
      (xs ys : List AvtBuffer) (b : AvtBuffer) (left : Option AvtBuffer)
      → s.held ≡ xs ++ (b ∷ ys)
      → buffer_unref (some b) s.heap ≡ some (left, t.heap)
      → t.held ≡ returned left ++ (xs ++ ys)
      → IsSound t
  give_up-IsSound xs ys b left k e k' = elim (buffer_unref-cases b left s.heap t.heap e) [
    | inl (kept, same) ↦ same-IsSound s t v same (λ r.
        ap (λ l. refs l r) (k' ∙ ap (λ o. returned o ++ (xs ++ ys)) kept)
        ∙ sym (ap (λ l. refs l r) k ∙ refs-middle xs ys b r))
    | inr (b', gone, runs) ↦
        drop-IsSound s t v xs ys b b' k runs (k' ∙ ap (λ o. returned o ++ (xs ++ ys)) gone)
  ]

  -- A buffer that is changed and refers to the same counter.
  changed-IsSound :
      (xs ys : List AvtBuffer) (b b' : AvtBuffer)
      → s.held ≡ xs ++ (b ∷ ys)
      → b'.refcnt ≡ b.refcnt
      → t.held ≡ xs ++ (b' ∷ ys)
      → t.heap ≡ s.heap
      → IsSound t
  changed-IsSound xs ys b b' k same k' heap =
      same-IsSound s t v heap
        (λ r. ap (λ l. refs l r) k' ∙ refs-replace xs ys b b' r same ∙ sym (ap (λ l. refs l r) k))

Step-IsSound : {s t : Program} → Step s t → IsSound s → IsSound t
Step-IsSound (create s t b fresh addr len opaque free_cb flags e k) v =
    create-IsSound s t v b fresh addr len opaque free_cb flags e k
Step-IsSound (share s t xs ys b d offset len k e k') v =
    share-IsSound s t v xs ys b d offset len k e k'
Step-IsSound (drop_one s t xs ys b b' k e k') v = drop-IsSound s t v xs ys b b' k e k'
Step-IsSound (allocate s t b fresh addr len opaque free_cb m c e k) v =
    create-IsSound s t v b fresh addr len opaque free_cb false
      (buffer_create-eq m c fresh b addr len opaque free_cb s.heap t.heap e) k
Step-IsSound (refer s t xs ys b d offset len m k e k') v =
    refer-IsSound s t v xs ys b d offset len m k e k'
Step-IsSound (share_over s t xs ys us vs b d d' offset len k other e k') v =
    share_over-IsSound s t v xs ys us vs b d d' offset len k other e k'
Step-IsSound (give_up s t xs ys b left k e k') v = give_up-IsSound s t v xs ys b left k e k'
Step-IsSound (move_view s t xs ys b b' offset k e k' heap) v =
    changed-IsSound s t v xs ys b b' k (offset-refcnt b b' offset e) k' heap
Step-IsSound (resize s t xs ys b b' realloc len k e k' heap) v =
    changed-IsSound s t v xs ys b b' k (resize-refcnt realloc b b' len s.heap e) k' heap

abbrev pub empty_program : Program
empty_program = record { held = []; heap = record { counter = λ r. none; next = 0; released = [] } }

-- A program that handles its references only by calls: it makes buffers by avt_buffer_quick_create and
-- avt_buffer_create, takes references by avt_buffer_ref and by avt_buffer_quick_ref to NULL or over
-- another reference, drops them by avt_buffer_quick_unref and avt_buffer_unref, and changes views by
-- avt_buffer_offset and avt_buffer_resize, in any order and number. Every counter holds the number of
-- references to it, so that it is in use exactly as long as there is one. Copies of the structure, and
-- calls that fault, are not among its steps.
pub Reach-IsSound : {p : Program} → Reach empty_program p → IsSound p
Reach-IsSound here = record { balanced = λ r. refl; unused = λ r far. refl }
Reach-IsSound (next r st) = Step-IsSound st (Reach-IsSound r)
