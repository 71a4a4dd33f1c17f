-- ===== src/Buffer/Steps.antt =====
-- The calls of a program that makes, shares, changes and drops references, in any order. Copies of the
-- structure without a call are no steps.
use qproto.Common.{ℕ, ◌≤◌, ◌≡◌, Bool, true, List, [], ◌∷◌, ◌++◌, Option, none, some, ok}
use qproto.Buffer.{
  AvtBuffer, Heap, null_buffer, buffer_ref, buffer_offset, buffer_resize, buffer_quick_create,
  buffer_quick_unref, buffer_quick_ref,
}
use qproto.Buffer.Alloc.{buffer_create, buffer_unref}
use qproto.Buffer.Balance.{refs, Balanced}

-- The references that the program holds, and the heap.
pub record Program : Type 0 where
  pub held : List AvtBuffer
  pub heap : Heap

-- The buffer that a call returns, if it is not NULL.
abbrev pub returned : Option AvtBuffer → List AvtBuffer
returned none = []
returned (some b) = b ∷ []

pub data Step : Program → Program → Type 0 where
  create :
      (s t : Program) (b fresh : AvtBuffer) (addr len opaque : ℕ) (free_cb flags : Bool)
      → buffer_quick_create true fresh addr len opaque free_cb flags s.heap ≡ ok (b, t.heap)
      → t.held ≡ b ∷ s.held
      → Step s t
  share :
      (s t : Program) (xs ys : List AvtBuffer) (b d : AvtBuffer) (offset len : ℕ)
      → s.held ≡ xs ++ (b ∷ ys)
      → buffer_quick_ref null_buffer b offset len s.heap ≡ some (d, t.heap)
      → t.held ≡ d ∷ s.held
      → Step s t
  drop_one :
      (s t : Program) (xs ys : List AvtBuffer) (b b' : AvtBuffer)
      → s.held ≡ xs ++ (b ∷ ys)
      → buffer_quick_unref b s.heap ≡ some (b', t.heap)
      → t.held ≡ xs ++ ys
      → Step s t
  -- avt_buffer_create, which avt_buffer_alloc calls.
  allocate :
      (s t : Program) (b fresh : AvtBuffer) (addr len opaque : ℕ)
      (free_cb malloc_ok count_ok : Bool)
      → buffer_create malloc_ok count_ok fresh addr len opaque free_cb s.heap ≡ some (b, t.heap)
      → t.held ≡ b ∷ s.held
      → Step s t
  -- avt_buffer_ref, which may return NULL.
  refer :
      (s t : Program) (xs ys : List AvtBuffer) (b : AvtBuffer) (d : Option AvtBuffer)
      (offset len : ℕ) (malloc_ok : Bool)
      → s.held ≡ xs ++ (b ∷ ys)
      → buffer_ref malloc_ok b offset len s.heap ≡ some (d, t.heap)
      → t.held ≡ returned d ++ s.held
      → Step s t
  -- avt_buffer_quick_ref from `b` to another reference `d`, which is dropped.
  share_over :
      (s t : Program) (xs ys us vs : List AvtBuffer) (b d d' : AvtBuffer) (offset len : ℕ)
      → s.held ≡ xs ++ (d ∷ ys)
      → xs ++ ys ≡ us ++ (b ∷ vs)
      → buffer_quick_ref d b offset len s.heap ≡ some (d', t.heap)
      → t.held ≡ d' ∷ (xs ++ ys)
      → Step s t
  -- avt_buffer_unref, which leaves a buffer without a counter.
  give_up :
      (s t : Program) (xs ys : List AvtBuffer) (b : AvtBuffer) (left : Option AvtBuffer)
      → s.held ≡ xs ++ (b ∷ ys)
      → buffer_unref (some b) s.heap ≡ some (left, t.heap)
      → t.held ≡ returned left ++ (xs ++ ys)
      → Step s t
  move_view :
      (s t : Program) (xs ys : List AvtBuffer) (b b' : AvtBuffer) (offset : ℕ)
      → s.held ≡ xs ++ (b ∷ ys)
      → buffer_offset b offset ≡ ok b'
      → t.held ≡ xs ++ (b' ∷ ys)
      → t.heap ≡ s.heap
      → Step s t
  resize :
      (s t : Program) (xs ys : List AvtBuffer) (b b' : AvtBuffer) (realloc : Option ℕ) (len : ℕ)
      → s.held ≡ xs ++ (b ∷ ys)
      → buffer_resize realloc b len s.heap ≡ some (ok b')
      → t.held ≡ xs ++ (b' ∷ ys)
      → t.heap ≡ s.heap
      → Step s t

pub data Reach (s : Program) : Program → Type 0 where
  here : Reach s s
  next : {t u : Program} → Reach s t → Step t u → Reach s u

-- Every counter counts its references, and those not yet made have none.
pub record IsSound (p : Program) : Type 0 where
  pub balanced : Balanced p.heap p.held
  pub unused : (r : ℕ) → p.heap.next ≤ r → refs p.held r ≡ 0
