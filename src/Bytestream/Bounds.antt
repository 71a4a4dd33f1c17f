-- ===== src/Bytestream/Bounds.antt =====
-- No operation of the bytestream leaves its pointers out of order or touches bytes that it was not
-- asked to.
use mathlib.Core.Path.{subst}
use qproto.Common.{
  if◌then◌else◌, ltb, ℕ, ◌+◌, ◌-◌, ◌≤◌, ◌<◌, ◌≡◌, refl, ◌⊎◌, arith, List, Option, some, min, length,
  take, replicate, length-take, length-replicate,
}
use qproto.Common.Int.{ℤ}
use qproto.Memory.{Memory, byte}
use qproto.Memory.Writes.{
  IsBytes, Writes, Writes-trans, overwrite-Writes, IsBytes-take, IsBytes-zeros, wb8-Writes,
  wl8-Writes, wb16-Writes, wl16-Writes, wb24-Writes, wl24-Writes, wb32-Writes, wl32-Writes,
  wb64-Writes, wl64-Writes,
}
use qproto.Rational.{AvtRational}
use qproto.Bytestream.{
  AvtBytestream, Endian, big, little, Width, w8, w16, w24, w32, w64, octets, store, with_room,
  bsw_u, bsw_i, bsw_rt, bsw_zpad, bsw_sbuf, bsw_fstr, bsr_u, bsr_i, bsr_rt, bsr_sbuf, bsr_fstr,
  bs_skip,
}

pub record IsValid (bs : AvtBytestream) : Type 0 where
  pub from_start : bs.start ≤ bs.ptr
  pub to_end : bs.ptr ≤ bs.end
  pub inside : bs.end ≤ length bs.mem
  pub bytes : IsBytes bs.mem

-- The calls that a user makes.
pub data Op : Type 0 where
  put_u : Endian → Width → ℕ → Op
  put_i : Endian → Width → ℤ → Op
  put_rt : Endian → AvtRational → Op
  put_zpad : ℕ → Op
  put_sbuf : List ℕ → ℕ → Op
  put_fstr : List ℕ → ℕ → Op
  get_u : Endian → Width → Op
  get_i : Endian → Width → Op
  get_rt : Endian → Op
  get_sbuf : ℕ → Op
  get_fstr : ℕ → Op
  skip : ℕ → Op

-- The stream after a call; `none` is a failed assertion.
unfoldable pub run : Op → AvtBytestream → Option AvtBytestream
run (put_u e w v) bs = bsw_u e w bs v
run (put_i e w v) bs = bsw_i e w bs v
run (put_rt e r) bs = bsw_rt e bs r
run (put_zpad n) bs = bsw_zpad bs n
run (put_sbuf buf n) bs = bsw_sbuf bs buf n
run (put_fstr str n) bs = bsw_fstr bs str n
run (get_u e w) bs = some (bsr_u e w bs).1
run (get_i e w) bs = some (bsr_i e w bs).1
run (get_rt e) bs = some (bsr_rt e bs).1
run (get_sbuf n) bs = some (bsr_sbuf bs n).1
run (get_fstr n) bs = some (bsr_fstr bs n).1
run (skip n) bs = some (bs_skip bs n).1

-- The data that a call hands over is made of bytes.
abbrev pub OpIsBytes : Op → Type 0
OpIsBytes (put_sbuf buf n) = IsBytes buf
OpIsBytes (put_fstr str n) = IsBytes str
OpIsBytes _ = Unit

pub store-Writes :
    (e : Endian) (w : Width) (m : Memory) (p v : ℕ) → Writes m p (octets w) (store e w m p v)
unfolding store
store-Writes big w8 m p v = wb8-Writes m p v
store-Writes big w16 m p v = wb16-Writes m p v
store-Writes big w24 m p v = wb24-Writes m p v
store-Writes big w32 m p v = wb32-Writes m p v
store-Writes big w64 m p v = wb64-Writes m p v
store-Writes little w8 m p v = wl8-Writes m p v
store-Writes little w16 m p v = wl16-Writes m p v
store-Writes little w24 m p v = wl24-Writes m p v
store-Writes little w32 m p v = wl32-Writes m p v
store-Writes little w64 m p v = wl64-Writes m p v

Writes-wider : {m m' : Memory} (p n k : ℕ) → n ≤ k → Writes m p n m' → Writes m p k m'
Writes-wider p n k h w = record {
  same_length = w.same_length;
  frame = λ i out. w.frame i (omega arith);
  keeps_bytes = w.keeps_bytes;
}

-- What a call may do: move the pointer forward inside the bounds and write the bytes it passes.
pub record Advances (bs bs' : AvtBytestream) : Type 0 where
  pub valid : IsValid bs'
  pub same_start : bs'.start ≡ bs.start
  pub same_end : bs'.end ≡ bs.end
  pub forward : bs.ptr ≤ bs'.ptr
  pub frame : (i : ℕ) → (i < bs.ptr) ⊎ (bs'.ptr ≤ i) → byte bs'.mem i ≡ byte bs.mem i

-- A call that has passed its assertion, and one that only moves the pointer.
with_room-inv :
    (bs : AvtBytestream) (n : ℕ) (m : Memory) (bs' : AvtBytestream)
    → with_room bs n m ≡ some bs'
    → (bs.ptr + n ≤ bs.end) × (record bs { mem = m; ptr = bs.ptr + n } ≡ bs')
with_room-inv bs n m bs' e = ground arith

with_room-Advances :
    (bs : AvtBytestream) (n : ℕ) (m : Memory) (bs' : AvtBytestream)
    → IsValid bs
    → Writes bs.mem bs.ptr n m
    → with_room bs n m ≡ some bs'
    → Advances bs bs'
with_room-Advances bs n m bs' v w e =
    let (fits, is) = with_room-inv bs n m bs' e in
    let (fits, is) = with_room-inv bs n m bs' e in
    subst (λ b. Advances bs b) is
      (record {
        valid = record {
          from_start = omega arith;
          to_end = fits;
          inside = omega arith;
          bytes = w.keeps_bytes v.bytes;
        };
        same_start = refl;
        same_end = refl;
        forward = omega arith;
        frame = w.frame;
      })

moved-Advances :
    (bs : AvtBytestream) (p : ℕ) (bs' : AvtBytestream)
    → IsValid bs
    → bs.ptr ≤ p
    → p ≤ bs.end
    → record bs { ptr = p } ≡ bs'
    → Advances bs bs'
moved-Advances bs p bs' v lo hi e =
    subst (λ b. Advances bs b) e
      (record {
        valid = record {
          from_start = omega arith;
          to_end = hi;
          inside = v.inside;
          bytes = v.bytes;
        };
        same_start = refl;
        same_end = refl;
        forward = lo;
        frame = λ i out. refl;
      })

-- Where the reads leave the pointer.
abbrev after_read : AvtBytestream → ℕ → ℕ
after_read bs n = if ltb bs.end (bs.ptr + n) then bs.ptr else bs.ptr + n

read-Advances :
    (bs : AvtBytestream) (n : ℕ) (bs' : AvtBytestream)
    → IsValid bs
    → record bs { ptr = after_read bs n } ≡ bs'
    → Advances bs bs'
read-Advances bs n bs' v e =
    moved-Advances bs (after_read bs n) bs' v (ground arith) (ground arith) e

-- No call breaks the order of the pointers or the bytes of the memory; it moves the pointer
-- forward, and changes no byte but those that the pointer passes.
pub run-Advances :
    (op : Op) (bs : AvtBytestream) (bs' : AvtBytestream)
    → IsValid bs
    → OpIsBytes op
    → run op bs ≡ some bs'
    → Advances bs bs'
unfolding run bsw_u bsw_i bsw_rt bsw_zpad bsw_sbuf bsw_fstr bsr_u bsr_i bsr_rt bsr_sbuf bsr_fstr
    bs_skip
run-Advances (put_u e w x) bs bs' v ok h =
    with_room-Advances bs (octets w) _ bs' v (store-Writes e w bs.mem bs.ptr x) h
run-Advances (put_i e w x) bs bs' v ok h =
    with_room-Advances bs (octets w) _ bs' v (store-Writes e w bs.mem bs.ptr _) h
run-Advances (put_rt e r) bs bs' v ok h =
    let once = λ (x : ℕ) (m : Memory).
      Writes-wider bs.ptr 4 8 (omega arith) (store-Writes e w32 m bs.ptr x) in
    with_room-Advances bs 8 _ bs' v (Writes-trans bs.ptr 8 (once _ _) (once _ _)) h
run-Advances (put_zpad n) bs bs' v ok h =
    with_room-Advances bs n _ bs' v
      (overwrite-Writes bs.mem bs.ptr (replicate n 0) n
        (omega (arith, length-replicate {A = ℕ} n 0)) (IsBytes-zeros n))
      h
run-Advances (put_sbuf buf n) bs bs' v ok h =
    with_room-Advances bs n _ bs' v
      (overwrite-Writes bs.mem bs.ptr (take n buf) n (omega (arith, length-take n buf))
        (IsBytes-take n buf ok))
      h
run-Advances (put_fstr str n) bs bs' v ok h =
    let lens : ℕ = min (length str) n in
    with_room-Advances bs n _ bs' v
      (Writes-trans bs.ptr n
        (overwrite-Writes bs.mem bs.ptr (take lens str) n (omega (arith, length-take lens str))
          (IsBytes-take lens str ok))
        (overwrite-Writes _ bs.ptr (replicate (n - lens) 0) n
          (omega (arith, length-replicate {A = ℕ} (n - lens) 0)) (IsBytes-zeros (n - lens))))
      h
run-Advances (get_u e w) bs bs' v ok h = read-Advances bs (octets w) bs' v (ground arith)
run-Advances (get_i e w) bs bs' v ok h = read-Advances bs (octets w) bs' v (ground arith)
run-Advances (get_rt e) bs bs' v ok h = read-Advances bs 8 bs' v (ground arith)
run-Advances (get_sbuf n) bs bs' v ok h =
    moved-Advances bs (bs.ptr + min n (bs.end - bs.ptr)) bs' v (omega arith)
      (omega (arith, v.to_end)) (cc)
run-Advances (get_fstr n) bs bs' v ok h = read-Advances bs n bs' v (ground arith)
run-Advances (skip n) bs bs' v ok h =
    moved-Advances bs (min (bs.ptr + n) bs.end) bs' v (omega (arith, v.to_end)) (omega arith) (cc)
