-- ===== src/Buffer/View.antt =====
-- Where the views lie in the memory that they are views of.
use qproto.Common.{ℕ, ◌+◌, ◌-◌, ◌^◌, ◌≤◌, ◌<◌, ◌≡◌, arith, Option, none, some, ok}
use qproto.Buffer.{AvtBuffer, Heap, null_buffer, buffer_quick_ref, buffer_resize, buffer_offset}

-- The view lies inside the memory, which lies inside the address space.
pub record IsView (b : AvtBuffer) : Type 0 where
  pub from_base : b.base_data ≤ b.data_
  pub to_end : b.data_ + b.len ≤ b.end_data
  pub addressable : b.end_data < 2 ^ 64

-- A resize that succeeds leaves a view of the length asked for, with the same data before it.
pub buffer_resize-IsView :
    (realloc : Option ℕ) (b b' : AvtBuffer) (len : ℕ) (h : Heap)
    → IsView b
    → ((a : ℕ) → realloc ≡ some a → a + len + (b.data_ - b.base_data) < 2 ^ 64)
    → buffer_resize realloc b len h ≡ some (ok b')
    → IsView b' × (b'.len ≡ len) × (b'.data_ - b'.base_data ≡ b.data_ - b.base_data)
unfolding buffer_resize
buffer_resize-IsView none b b' len h v fresh e = ground arith
buffer_resize-IsView (some a) b b' len h v fresh e = ground (arith, fresh a)

-- A reference inside the referenced view is a view, of the bytes asked for, or to the end for 0.
pub buffer_quick_ref-IsView :
    (b d : AvtBuffer) (offset len : ℕ) (h h' : Heap) {r : ℕ}
    → IsView b
    → b.refcnt ≡ some r
    → offset + len ≤ b.len
    → buffer_quick_ref null_buffer b offset len h ≡ some (d, h')
    → IsView d × (d.data_ ≡ b.data_ + offset) × (d.refcnt ≡ b.refcnt)
unfolding buffer_quick_ref
buffer_quick_ref-IsView b d offset len h h' v is fits e = ground arith

-- The check of a new reference ignores where the view begins: an offset that it lets pass can put the
-- new view past the end of the memory.
pub buffer_quick_ref_escapes :
    (b d : AvtBuffer) (offset len : ℕ) (h h' : Heap) {r : ℕ}
    → IsView b
    → b.refcnt ≡ some r
    → b.base_data + offset < b.end_data
    → b.end_data < b.data_ + offset
    → buffer_quick_ref null_buffer b offset len h ≡ some (d, h')
    → ¬ IsView d
unfolding buffer_quick_ref
buffer_quick_ref_escapes b d offset len h h' v is low high e w = ground (arith, w.to_end)

-- Moving a view that reaches the end forward does not shorten it: it then passes the end.
pub buffer_offset_escapes :
    (b b' : AvtBuffer) (offset : ℕ)
    → IsView b
    → b.data_ + b.len ≡ b.end_data
    → 0 < offset
    → buffer_offset b offset ≡ ok b'
    → ¬ IsView b'
unfolding buffer_offset
buffer_offset_escapes b b' offset v full some_way e w = ground (arith, w.to_end)
