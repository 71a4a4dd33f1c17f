-- ===== src/Buffer/Balance.antt =====
-- The counters count the references: no use of a freed counter, no leak.
use mathlib.Core.Logic.{◌≢◌}
use qproto.Common.{
  ℕ, zero, suc, ◌+◌, ◌-◌, ◌≡◌, refl, arith, List, [], ◌∷◌, Option, none, some, leb, ◌==◌,
  if◌then◌else◌, Option-cases, inl, inr,
}
use qproto.Buffer.{AvtBuffer, Heap, null_buffer, update, buffer_quick_unref, buffer_quick_ref}

-- How many of the references in the program go to counter `r`.
abbrev pub refers : Option ℕ → ℕ → ℕ
refers none r = 0
refers (some q) r = if q == r then 1 else 0

abbrev pub refs : List AvtBuffer → ℕ → ℕ
refs [] r = 0
refs (b ∷ bs) r = refers b.refcnt r + refs bs r

-- A counter without references is not in use.
abbrev pub tally : ℕ → Option ℕ
tally zero = none
tally (suc n) = some (suc n)

abbrev pub Balanced : Heap → List AvtBuffer → Type 0
Balanced h bs = (r : ℕ) → h.counter r ≡ tally (refs bs r)

tally_pos : (n : ℕ) → n ≢ 0 → tally n ≡ some n
tally_pos zero ne = absurd (ne refl)
tally_pos (suc n) ne = refl

-- What `free` callbacks are handed when `b` goes and the references `bs` stay.
abbrev pub released_by : AvtBuffer → List AvtBuffer → List (ℕ × ℕ) → List (ℕ × ℕ)
released_by b bs old = elim (b.refcnt) [
  | none ↦ old
  | some r ↦ if refs bs r == 0 then (b.data_, b.end_data - b.base_data) ∷ old else old
]

-- The heap after the reference `b` to counter `q` was dropped.
abbrev dropped : AvtBuffer → List AvtBuffer → ℕ → Heap → Heap
dropped b bs q h =
    if leb (suc (refs bs q)) 1
    then record h {
      counter = update h.counter q none;
      released = (b.data_, b.end_data - b.base_data) ∷ h.released;
    }
    else record h { counter = update h.counter q (some (refs bs q)) }

dropped-Balanced :
    (b : AvtBuffer) (bs : List AvtBuffer) (q : ℕ) (h : Heap)
    → b.refcnt ≡ some q
    → Balanced h (b ∷ bs)
    → Balanced (dropped b bs q h) bs
dropped-Balanced b bs q h e bal r = ground (arith, bal r, tally_pos (refs bs r))

-- What the end of a reference comes to.
pub record Unrefs (b : AvtBuffer) (bs : List AvtBuffer) (h : Heap) : Type 0 where
  pub buf : AvtBuffer
  pub heap : Heap
  pub runs : buffer_quick_unref b h ≡ some (buf, heap)
  pub gone : buf.refcnt ≡ none
  pub balanced : Balanced heap bs
  pub same_next : heap.next ≡ h.next
  pub release : heap.released ≡ released_by b bs h.released

unref_cases :
    (b : AvtBuffer) (bs : List AvtBuffer) (h : Heap) (rc : Option ℕ)
    → b.refcnt ≡ rc
    → Balanced h (b ∷ bs)
    → Unrefs b bs h
unfolding buffer_quick_unref
unref_cases b bs h none e bal = record {
  buf = b;
  heap = h;
  runs = ground arith;
  gone = e;
  balanced = λ r. ground (arith, bal r);
  same_next = ground arith;
  release = ground arith;
}
unref_cases b bs h (some q) e bal = record {
  buf = null_buffer;
  heap = dropped b bs q h;
  runs = ground (arith, bal q);
  gone = refl;
  balanced = dropped-Balanced b bs q h e bal;
  same_next = ground arith;
  release = ground arith;
}

-- Dropping a reference never faults; it leaves the other references counted, and the memory is
-- released exactly when none of them is to it.
pub buffer_quick_unref-Balanced :
    (b : AvtBuffer) (bs : List AvtBuffer) (h : Heap) → Balanced h (b ∷ bs) → Unrefs b bs h
buffer_quick_unref-Balanced b bs h bal = unref_cases b bs h b.refcnt refl bal

-- Taking a reference to a counted buffer counts it too.
pub buffer_quick_ref-Balanced :
    (b d : AvtBuffer) (bs : List AvtBuffer) (offset len : ℕ) (h h' : Heap)
    → Balanced h (b ∷ bs)
    → buffer_quick_ref null_buffer b offset len h ≡ some (d, h')
    → Balanced h' (d ∷ b ∷ bs) × (d.refcnt ≡ b.refcnt) × (h'.next ≡ h.next)
unfolding buffer_quick_ref
buffer_quick_ref-Balanced b d bs offset len h h' bal e = elim (Option-cases (b.refcnt)) [
  | inl null ↦ (λ r. ground (arith, bal r), ground arith, ground arith)
  | inr (q, counted) ↦
      (λ r. ground (arith, bal r, bal q), ground (arith, bal q), ground (arith, bal q))
]
