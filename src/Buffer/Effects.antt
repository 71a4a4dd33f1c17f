-- ===== src/Buffer/Effects.antt =====
-- What the calls of buffer.h and buffer.c do to the counters.
use qproto.Common.{
  ℕ, ◌≡◌, refl, ◌∙◌, ap, sym, arith, Bool, true, List, ◌∷◌, Option, none, some, false, ok,
  Option-cases, inl, inr, ◌⊎◌, eq_of_some,
}
use qproto.Buffer.{
  AvtBuffer, Heap, null_buffer, ref_counted, raise_count, buffer_ref, buffer_offset, buffer_resize,
  buffer_quick_create, buffer_quick_unref, buffer_quick_ref,
}
use qproto.Buffer.Alloc.{buffer_create, buffer_unref}
use qproto.Buffer.Balance.{Balanced}

ref_counted-eq :
    (gone b d' : AvtBuffer) (offset len : ℕ) (h h' : Heap) (c : Option ℕ)
    → gone.refcnt ≡ none
    → ref_counted gone b offset len h c ≡ some (d', h')
    → (new : AvtBuffer) × (ref_counted null_buffer b offset len h c ≡ some (new, h'))
      × (d'.refcnt ≡ new.refcnt)
unfolding ref_counted
ref_counted-eq gone b d' offset len h h' none empty e = (null_buffer, ground arith, ground arith)
ref_counted-eq gone b d' offset len h h' (some r) empty e = (d', e, refl)

onto :
    (m : Option (AvtBuffer × Heap)) (gone b : AvtBuffer) (offset len : ℕ) (mid : Heap)
    → m ≡ some (gone, mid)
    → elim m [ none ↦ none | some (d, h) ↦ ref_counted d b offset len h b.refcnt ]
      ≡ ref_counted gone b offset len mid b.refcnt
onto m gone b offset len mid e = rw e refl

-- avt_buffer_quick_ref over a reference that was dropped is one to NULL.
pub ref_over-eq :
    (d gone b d' : AvtBuffer) (offset len : ℕ) (h mid h' : Heap)
    → buffer_quick_unref d h ≡ some (gone, mid)
    → gone.refcnt ≡ none
    → buffer_quick_ref d b offset len h ≡ some (d', h')
    → (new : AvtBuffer) × (buffer_quick_ref null_buffer b offset len mid ≡ some (new, h'))
      × (d'.refcnt ≡ new.refcnt)
unfolding buffer_quick_ref
ref_over-eq d gone b d' offset len h mid h' runs empty e =
    ref_counted-eq gone b d' offset len mid h' b.refcnt empty
      (sym (onto (buffer_quick_unref d h) gone b offset len mid runs) ∙ e)

pub buffer_create-eq :
    (m c : Bool) (fresh b : AvtBuffer) (addr len opaque : ℕ) (free_cb : Bool) (h h' : Heap)
    → buffer_create m c fresh addr len opaque free_cb h ≡ some (b, h')
    → buffer_quick_create true fresh addr len opaque free_cb false h ≡ ok (b, h')
unfolding buffer_create buffer_quick_create
buffer_create-eq true true fresh b addr len opaque free_cb h h' e = ap ok (eq_of_some e)
buffer_create-eq true false fresh b addr len opaque free_cb h h' e = cc
buffer_create-eq false c fresh b addr len opaque free_cb h h' e = cc

-- NULL changes nothing.
pub buffer_ref-null :
    (m : Bool) (b : AvtBuffer) (offset len : ℕ) (h h' : Heap)
    → buffer_ref m b offset len h ≡ some (none, h')
    → h' ≡ h
unfolding buffer_ref raise_count
buffer_ref-null m b offset len h h' e = ground arith

pub buffer_ref-Balanced :
    (m : Bool) (b d : AvtBuffer) (bs : List AvtBuffer) (offset len : ℕ) (h h' : Heap)
    → Balanced h (b ∷ bs)
    → buffer_ref m b offset len h ≡ some (some d, h')
    → Balanced h' (d ∷ b ∷ bs) × (d.refcnt ≡ b.refcnt) × (h'.next ≡ h.next)
unfolding buffer_ref raise_count
buffer_ref-Balanced m b d bs offset len h h' bal e = elim (Option-cases (b.refcnt)) [
  | inl null ↦ absurd (ground arith)
  | inr (q, counted) ↦
      (λ r. ground (arith, bal r, bal q), ground (arith, bal q), ground (arith, bal q))
]

pub buffer_unref-cases :
    (b : AvtBuffer) (left : Option AvtBuffer) (h h' : Heap)
    → buffer_unref (some b) h ≡ some (left, h')
    → ((left ≡ some b) × (h' ≡ h))
      ⊎ ((b' : AvtBuffer) × (left ≡ none) × (buffer_quick_unref b h ≡ some (b', h')))
unfolding buffer_unref
buffer_unref-cases b left h h' e = elim (Option-cases (b.refcnt)) [
  | inl null ↦ inl (ground arith, ground arith)
  | inr (q, counted) ↦ elim (Option-cases (buffer_quick_unref b h)) [
    | inl faults ↦ absurd (ground arith)
    | inr ((b', h''), runs) ↦ inr (b', ground arith, ground arith)
  ]
]

pub offset-refcnt : (b b' : AvtBuffer) (o : ℕ) → buffer_offset b o ≡ ok b' → b'.refcnt ≡ b.refcnt
unfolding buffer_offset
offset-refcnt b b' o e = ground arith

pub resize-refcnt :
    (realloc : Option ℕ) (b b' : AvtBuffer) (len : ℕ) (h : Heap)
    → buffer_resize realloc b len h ≡ some (ok b')
    → b'.refcnt ≡ b.refcnt
unfolding buffer_resize
resize-refcnt none b b' len h e = ground arith
resize-refcnt (some a) b b' len h e = ground arith
