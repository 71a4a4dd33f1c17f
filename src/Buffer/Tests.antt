-- ===== src/Buffer/Tests.antt =====
-- Buffers at concrete inputs.
use qproto.Common.{ℕ, ◌-◌, ◌≡◌, refl, arith, true, false, [], ◌∷◌, some, none, ok}
use qproto.Buffer.{
  AvtBuffer, Heap, null_buffer, update, buffer_quick_create, buffer_quick_ref, buffer_resize,
  buffer_offset,
}
use qproto.Buffer.Alloc.{buffer_alloc, buffer_unref}
use qproto.Buffer.Alloc.Lifetime.{buffer_alloc-buffer_unref}
use qproto.Buffer.View.{IsView, buffer_resize-IsView}
use qproto.Buffer.Balance.{Balanced, Unrefs, buffer_quick_unref-Balanced}
use qproto.Buffer.Programs.{empty_program, Reach-IsSound}
use qproto.Buffer.Steps.{Reach, IsSound, Program, create, share, here, next}

-- 100 bytes at 1000, and the view of them from 1060 on.
abbrev whole : AvtBuffer
whole = record null_buffer {
  data_ = 1000;
  len = 100;
  base_data = 1000;
  end_data = 1100;
  default_free = true;
  refcnt = some 0;
}

abbrev tail_view : AvtBuffer
tail_view = record whole { data_ = 1060; len = 40 }

abbrev counted : ℕ → Heap
counted n = record { counter = update (λ r. none) 0 (some n); next = 1; released = [] }

whole-IsView : IsView whole
whole-IsView = record { from_base = omega arith; to_end = omega arith; addressable = omega arith }

tail_view-IsView : IsView tail_view
tail_view-IsView = record {
  from_base = omega arith;
  to_end = omega arith;
  addressable = omega arith;
}

abbrev moved : AvtBuffer
moved = record tail_view { data_ = 2060; len = 500; base_data = 2000; end_data = 2560 }

resized : buffer_resize (some 2000) tail_view 500 (counted 1) ≡ some (ok moved)
unfolding buffer_resize
resized = refl

buffer_resize-IsView_example : IsView moved × (moved.len ≡ 500) × (2060 - 2000 ≡ 1060 - 1000)
buffer_resize-IsView_example =
    buffer_resize-IsView (some 2000) tail_view moved 500 (counted 1) tail_view-IsView
      (λ a is. ground arith) resized

abbrev inner : AvtBuffer
inner = record whole { data_ = 1010; len = 20 }

taken :
    buffer_quick_ref null_buffer whole 10 20 (counted 1)
    ≡ some (inner, record (counted 1) { counter = update (counted 1).counter 0 (some 2) })
unfolding buffer_quick_ref
taken = refl

abbrev twice : Heap
twice = record (counted 1) { counter = update (counted 1).counter 0 (some 2) }

-- 50 bytes into a view that has 40
abbrev outside : AvtBuffer
outside = record whole { data_ = 1110; len = 8 }

taken_outside : buffer_quick_ref null_buffer tail_view 50 8 (counted 1) ≡ some (outside, twice)
unfolding buffer_quick_ref
taken_outside = refl

offset_tail : buffer_offset tail_view 30 ≡ ok (record tail_view { data_ = 1090 })
unfolding buffer_offset
offset_tail = refl

two_held : Balanced (counted 2) (whole ∷ tail_view ∷ [])
two_held r = ground arith

buffer_quick_unref-Balanced_example : Unrefs whole (tail_view ∷ []) (counted 2)
buffer_quick_unref-Balanced_example =
    buffer_quick_unref-Balanced whole (tail_view ∷ []) (counted 2) two_held

abbrev after_create : Program
after_create = record { held = whole ∷ []; heap = counted 1 }

abbrev after_share : Program
after_share = record { held = inner ∷ whole ∷ []; heap = twice }

created :
    buffer_quick_create true null_buffer 1000 100 0 false false empty_program.heap
    ≡ ok (whole, counted 1)
unfolding buffer_quick_create
created = refl

shares : Reach empty_program after_share
shares =
    next
      (next here
        (create empty_program after_create whole null_buffer 1000 100 0 false false created refl))
      (share after_create after_share [] [] whole inner 10 20 refl taken refl)

Reach-IsSound_example : IsSound after_share
Reach-IsSound_example = Reach-IsSound shares

buffer_alloc-buffer_unref_example :
    (b : AvtBuffer) × (h1 h2 : Heap) × (buffer_alloc
        (some 3000)
        true
        true
        null_buffer
        64
        (counted 1)
      ≡ some (b, h1))
    × (buffer_unref (some b) h1 ≡ some (none, h2))
    × (h2.released ≡ (3000, 64) ∷ [])
    × ((r : ℕ) → h2.counter r ≡ (counted 1).counter r)
buffer_alloc-buffer_unref_example = buffer_alloc-buffer_unref 3000 64 null_buffer (counted 1) refl
