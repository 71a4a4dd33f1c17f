-- ===== src/Buffer/Alloc.antt =====
-- libavtransport/buffer.c and buffer.h: buffers of their own memory, made and given up.
pub mod Lifetime
use qproto.Common.{
  ℕ, ◌+◌, ◌-◌, ◌%◌, ◌^◌, ◌≤◌, Bool, true, false, ◌&&◌, ◌||◌, List, [], ◌∷◌, Option, none, some,
  Result, ok, err, Err, enomem, einval, ltb, leb, ◌==◌, if◌then◌else◌,
}
use qproto.Buffer.{AvtBuffer, Heap, buffer_quick_create, buffer_quick_unref}

-- The first flag is the `malloc` of the structure, whose content is `fresh`; NULL is `none`.
unfoldable pub buffer_create :
    Bool → Bool → AvtBuffer → ℕ → ℕ → ℕ → Bool → Heap → Option (AvtBuffer × Heap)
unfolding buffer_quick_create
buffer_create malloc_ok count_ok fresh addr len opaque free_cb h =
    if malloc_ok
    then (elim (buffer_quick_create count_ok fresh addr len opaque free_cb false h) [
      | err e ↦ none
      | ok made ↦ some made
    ])
    else none

-- `malloc` returns the address of the data, or NULL.
pub buffer_quick_alloc : Option ℕ → Bool → AvtBuffer → ℕ → Heap → Option (AvtBuffer × Heap)
unfolding buffer_quick_create
buffer_quick_alloc alloc count_ok buf len h = elim alloc [
  | none ↦ none
  | some addr ↦ elim (buffer_quick_create count_ok buf addr len 0 false false h) [
    | err e ↦ none
    | ok made ↦ some made
  ]
]

unfoldable pub buffer_alloc :
    Option ℕ → Bool → Bool → AvtBuffer → ℕ → Heap → Option (AvtBuffer × Heap)
unfolding buffer_create
buffer_alloc alloc malloc_ok count_ok fresh len h = elim alloc [
  | none ↦ none
  | some addr ↦ buffer_create malloc_ok count_ok fresh addr len 0 false h
]

-- `*_buf` after the call: NULL, or as it was. The outer option is a fault.
unfoldable pub buffer_unref : Option AvtBuffer → Heap → Option (Option AvtBuffer × Heap)
unfolding buffer_quick_unref
buffer_unref none h = some (none, h)
buffer_unref (some buf) h = elim (buf.refcnt) [
  | none ↦ some (some buf, h)
  | some r ↦ elim (buffer_quick_unref buf h) [ none ↦ none | some (b, h') ↦ some (none, h') ]
]
