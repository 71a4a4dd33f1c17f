-- ===== src/Buffer.antt =====
-- libavtransport/buffer.h and buffer.c: views of reference counted memory. Addresses are numbers.
-- What a call does beyond its result is in the heap that it returns; `none` is a failed assertion or
-- an access to a counter that was freed. Whether a `malloc` succeeds is an argument. Offsets are not
-- negative, as in every call of the library.
pub mod Alloc
pub mod View
pub mod Balance
pub mod Programs
pub mod Steps
pub mod Effects
mod Tests
use qproto.Common.{
  ℕ, ◌+◌, ◌-◌, ◌%◌, ◌^◌, ◌≤◌, Bool, true, false, ◌&&◌, ◌||◌, List, [], ◌∷◌, Option, none, some,
  Result, ok, err, Err, enomem, einval, ltb, leb, ◌==◌, if◌then◌else◌,
}

-- `enum AVTBufferFlags` has one flag, AVT_BUFFER_FLAG_READ_ONLY. `default_free` says whether `free` is
-- `avt_buffer_default_free`. `refcnt` names a counter, or is NULL.
pub record AvtBuffer : Type 0 where
  pub data_ : ℕ
  pub len : ℕ
  pub base_data : ℕ
  pub end_data : ℕ
  pub opaque : ℕ
  pub default_free : Bool
  pub read_only : Bool
  pub refcnt : Option ℕ

-- `(AVTBuffer){ }`, which `memset` makes too
abbrev pub null_buffer : AvtBuffer
null_buffer = record {
  data_ = 0;
  len = 0;
  base_data = 0;
  end_data = 0;
  opaque = 0;
  default_free = false;
  read_only = false;
  refcnt = none;
}

-- The counters in use, the next unused name of one, and the memory handed to `free` callbacks, the
-- latest first.
pub record Heap : Type 0 where
  pub counter : ℕ → Option ℕ
  pub next : ℕ
  pub released : List (ℕ × ℕ)

abbrev pub update : (ℕ → Option ℕ) → ℕ → Option ℕ → ℕ → Option ℕ
update f r v q = if r == q then v else f q

-- `flags` is not stored. `free_cb` is whether a callback other than the default is given.
unfoldable pub buffer_quick_create :
    Bool → AvtBuffer → ℕ → ℕ → ℕ → Bool → Bool → Heap → Result (AvtBuffer × Heap)
buffer_quick_create malloc_ok buf addr len opaque free_cb flags h =
    if malloc_ok
    then ok (
      record buf {
        refcnt = some h.next;
        base_data = addr;
        end_data = addr + len;
        data_ = addr;
        len = len;
        opaque = opaque;
        default_free = if free_cb then false else true;
      },
      record h { counter = update h.counter h.next (some 1); next = h.next + 1 },
    )
    else err enomem

drop_count : AvtBuffer → ℕ → Heap → Option ℕ → Option (AvtBuffer × Heap)
drop_count buf r h none = none
drop_count buf r h (some n) = some (
  null_buffer,
  if leb n 1
      then record h {
        counter = update h.counter r none;
        released = (buf.data_, buf.end_data - buf.base_data) ∷ h.released;
      }
      else record h { counter = update h.counter r (some (n - 1)) },
)

unref_counted : AvtBuffer → Heap → Option ℕ → Option (AvtBuffer × Heap)
unfolding drop_count
unref_counted buf h none = some (buf, h)
unref_counted buf h (some r) = drop_count buf r h (h.counter r)

unfoldable pub buffer_quick_unref : AvtBuffer → Heap → Option (AvtBuffer × Heap)
unfolding unref_counted
buffer_quick_unref buf h = unref_counted buf h buf.refcnt

-- AVT_BUFFER_REF_ALL is 0.
take_view : AvtBuffer → ℕ → ℕ → AvtBuffer
take_view buf offset len = record buf {
  data_ = buf.data_ + offset;
  len = if len == 0 then buf.end_data - (buf.data_ + offset) else len;
}

pub raise_count : ℕ → Heap → Option ℕ → Option Heap
raise_count r h none = none
raise_count r h (some n) = some (record h { counter = update h.counter r (some (n + 1)) })

pub ref_counted : AvtBuffer → AvtBuffer → ℕ → ℕ → Heap → Option ℕ → Option (AvtBuffer × Heap)
unfolding raise_count take_view
ref_counted dst buf offset len h none = some (dst, h)
ref_counted dst buf offset len h (some r) =
    if ltb (buf.base_data + offset) buf.end_data
    then (elim (raise_count r h (h.counter r)) [
      | none ↦ none
      | some h' ↦ some (take_view buf offset len, h')
    ])
    else none

-- The new `*dst`.
unfoldable pub buffer_quick_ref : AvtBuffer → AvtBuffer → ℕ → ℕ → Heap → Option (AvtBuffer × Heap)
unfolding ref_counted buffer_quick_unref
buffer_quick_ref dst buf offset len h = elim (buffer_quick_unref dst h) [
  | none ↦ none
  | some (dst', h') ↦ ref_counted dst' buf offset len h' buf.refcnt
]

get_count : Heap → Option ℕ → Option ℕ
get_count h none = some 0
get_count h (some r) = h.counter r

-- `none` is a read of a freed counter.
unfoldable pub buffer_get_refcount : AvtBuffer → Heap → Option ℕ
unfolding get_count
buffer_get_refcount buf h = get_count h buf.refcnt

-- The assertion that there is no other reference.
sole : AvtBuffer → Heap → Bool
unfolding buffer_get_refcount
sole buf h = elim (buffer_get_refcount buf h) [ none ↦ false | some n ↦ n == 1 ]

pub buffer_update : AvtBuffer → ℕ → ℕ → Heap → Option AvtBuffer
unfolding sole
buffer_update buf addr len h =
    if sole buf h
    then some (record buf {
      data_ = addr + (buf.data_ - buf.base_data);
      base_data = addr;
      end_data = addr + len;
      len = len;
    })
    else none

-- `end_data - data` as the `size_t` that the comparison makes of it
abbrev span : AvtBuffer → ℕ
span buf = (buf.end_data + 2 ^ 64 - buf.data_) % 2 ^ 64

-- The argument `realloc` is the address that it returns, or NULL.
unfoldable pub buffer_resize : Option ℕ → AvtBuffer → ℕ → Heap → Option (Result AvtBuffer)
unfolding sole
buffer_resize realloc buf len h =
    let pre_data : ℕ = buf.data_ - buf.base_data in
    let grown : Result AvtBuffer = elim realloc [
      | none ↦ err enomem
      | some newdata ↦ ok (record buf {
        base_data = newdata;
        data_ = newdata + pre_data;
        end_data = newdata + (len + pre_data);
        len = len;
      })
    ] in
    if leb len buf.len || ltb len (span buf)
    then some (ok (record buf { len = len }))
    else if sole buf h && buf.default_free
    then some (if leb (2 ^ 64) (len + pre_data) then err einval else grown)
    else none

-- The first option is a fault, the second NULL.
unfoldable pub buffer_ref : Bool → AvtBuffer → ℕ → ℕ → Heap → Option (Option AvtBuffer × Heap)
unfolding raise_count
buffer_ref malloc_ok buf offset len h =
    let rest = (buf.end_data + 2 ^ 64 - (buf.data_ + offset)) % 2 ^ 64 in
    let len' = if len == 0 then rest else len in
    let view : AvtBuffer = record buf {
      data_ = buf.data_ + offset;
      len = if len' == 0 then (buf.end_data + 2 ^ 64 - (buf.data_ + offset)) % 2 ^ 64 else len';
    } in
    elim (buf.refcnt) [
      | none ↦ some (none, h)
      | some r ↦
          if ltb buf.end_data (buf.base_data + offset)
          then some (none, h)
          else if malloc_ok
          then (elim (raise_count r h (h.counter r)) [
            | none ↦ none
            | some h' ↦ some (some view, h')
          ])
          else some (none, h)
    ]

unfoldable pub buffer_offset : AvtBuffer → ℕ → Result AvtBuffer
buffer_offset buf offset =
    if ltb buf.end_data (buf.base_data + offset)
    then err einval
    else ok (record buf { data_ = buf.data_ + offset })

-- The address, NULL or not, and the length.
pub buffer_get_data : AvtBuffer → Option ℕ × ℕ
buffer_get_data buf = elim (buf.refcnt) [ none ↦ (none, 0) | some r ↦ (some buf.data_, buf.len) ]

unfoldable pub buffer_get_data_len : AvtBuffer → ℕ
buffer_get_data_len buf = elim (buf.refcnt) [ none ↦ 0 | some r ↦ buf.len ]

pub buffer_read_only : AvtBuffer → Bool
buffer_read_only buf = buf.read_only
