-- ===== src/Buffer/Alloc/Lifetime.antt =====
-- A buffer from its allocation to its end.
use qproto.Common.{ℕ, ◌+◌, ◌≡◌, refl, arith, true, ◌∷◌, none, some}
use qproto.Buffer.{AvtBuffer, Heap, update}
use qproto.Buffer.Alloc.{buffer_alloc, buffer_unref}

-- A buffer that was allocated and never referenced again is given back whole by its unref: the memory
-- goes to the free callback with the address and the length that it was allocated with, every counter
-- is as it was before if the new counter's name was not in use, and the caller's pointer is NULL.
pub buffer_alloc-buffer_unref :
    (addr len : ℕ) (fresh : AvtBuffer) (h : Heap)
    → h.counter h.next ≡ none
    → (b : AvtBuffer) × (h1 h2 : Heap) × (buffer_alloc (some addr) true true fresh len h
        ≡ some (b, h1))
      × (buffer_unref (some b) h1 ≡ some (none, h2))
      × (h2.released ≡ (addr, len) ∷ h.released)
      × ((r : ℕ) → h2.counter r ≡ h.counter r)
unfolding buffer_alloc buffer_unref
buffer_alloc-buffer_unref addr len fresh h unused =
    let count = update h.counter h.next (some 1) in
    (
      record fresh {
        refcnt = some h.next;
        base_data = addr;
        end_data = addr + len;
        data_ = addr;
        len = len;
        opaque = 0;
        default_free = true;
      },
      record h { counter = count; next = h.next + 1 },
      record {
        counter = update count h.next none;
        next = h.next + 1;
        released = (addr, len) ∷ h.released;
      },
      ground arith,
      ground arith,
      refl,
      λ r. ground (arith, unused),
    )
