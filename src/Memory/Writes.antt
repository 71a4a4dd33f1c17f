-- ===== src/Memory/Writes.antt =====
-- What a store to memory changes.
use qproto.Common.{
  ℕ, zero, suc, ◌+◌, ◌≤◌, ◌<◌, ◌≡◌, ◌⊎◌, arith, [], ◌∷◌, length, overwrite, take, replicate,
  length-overwrite, get_or-overwrite_out, u8, u64, ◌>>◌,
}
use qproto.Memory.{Memory, byte, wb8, wl8, wb16, wl16, wb24, wl24, wb32, wl32, wb64, wl64}

abbrev pub IsBytes : Memory → Type 0
IsBytes m = (i : ℕ) → byte m i < 256

-- `m'` is `m` but for the `n` bytes from `p` on, and is made of bytes if `m` is.
pub record Writes (m : Memory) (p n : ℕ) (m' : Memory) : Type 0 where
  pub same_length : length m' ≡ length m
  pub frame : (i : ℕ) → (i < p) ⊎ (p + n ≤ i) → byte m' i ≡ byte m i
  pub keeps_bytes : IsBytes m → IsBytes m'

byte-overwrite-lt :
    (m : Memory) (p : ℕ) (vs : Memory) (i : ℕ)
    → ((j : ℕ) → byte m j < 256)
    → ((k : ℕ) → byte vs k < 256)
    → byte (overwrite m p vs) i < 256
byte-overwrite-lt [] p vs i hm hv = hm i
byte-overwrite-lt (x ∷ xs) zero [] i hm hv = hm i
byte-overwrite-lt (x ∷ xs) zero (v ∷ vs) zero hm hv = hv 0
byte-overwrite-lt (x ∷ xs) zero (v ∷ vs) (suc i) hm hv =
    byte-overwrite-lt xs zero vs i (λ j. hm (suc j)) (λ k. hv (suc k))
byte-overwrite-lt (x ∷ xs) (suc p) vs zero hm hv = hm 0
byte-overwrite-lt (x ∷ xs) (suc p) vs (suc i) hm hv =
    byte-overwrite-lt xs p vs i (λ j. hm (suc j)) hv

pub overwrite-Writes :
    (m : Memory) (p : ℕ) (vs : Memory) (n : ℕ)
    → length vs ≤ n
    → IsBytes vs
    → Writes m p n (overwrite m p vs)
overwrite-Writes m p vs n h hv = record {
  same_length = length-overwrite m p vs;
  frame = λ i out. get_or-overwrite_out m p vs i 0 (omega arith);
  keeps_bytes = λ hm i. byte-overwrite-lt m p vs i hm hv;
}

-- Bytes given one by one.
pub IsBytes-nil : IsBytes []
IsBytes-nil zero = omega arith
IsBytes-nil (suc i) = omega arith

pub IsBytes-cons : (x : ℕ) (xs : Memory) → x < 256 → IsBytes xs → IsBytes (x ∷ xs)
IsBytes-cons x xs h hs zero = h
IsBytes-cons x xs h hs (suc i) = hs i

pub IsBytes-take : (n : ℕ) (xs : Memory) → IsBytes xs → IsBytes (take n xs)
IsBytes-take zero xs h i = IsBytes-nil i
IsBytes-take (suc n) [] h i = IsBytes-nil i
IsBytes-take (suc n) (x ∷ xs) h i =
    IsBytes-cons x (take n xs) (h 0) (IsBytes-take n xs (λ j. h (suc j))) i

pub IsBytes-zeros : (n : ℕ) → IsBytes (replicate n 0)
IsBytes-zeros zero = IsBytes-nil
IsBytes-zeros (suc n) = IsBytes-cons 0 (replicate n 0) (omega arith) (IsBytes-zeros n)

pub Writes-trans :
    {m m' m'' : Memory} (p n : ℕ) → Writes m p n m' → Writes m' p n m'' → Writes m p n m''
Writes-trans p n a b = record {
  same_length = omega (arith, a.same_length, b.same_length);
  frame = λ i out. omega (arith, a.frame i out, b.frame i out);
  keeps_bytes = λ h. b.keeps_bytes (a.keeps_bytes h);
}

pub IsBytes-four :
    (a b c d : ℕ) (xs : Memory)
    → a < 256
    → b < 256
    → c < 256
    → d < 256
    → IsBytes xs
    → IsBytes (a ∷ b ∷ c ∷ d ∷ xs)
IsBytes-four a b c d xs ha hb hc hd h =
    IsBytes-cons a (b ∷ c ∷ d ∷ xs) ha
      (IsBytes-cons b (c ∷ d ∷ xs) hb (IsBytes-cons c (d ∷ xs) hc (IsBytes-cons d xs hd h)))

-- For the bytes that a macro writes one by one.
ruleset byte_lists = (IsBytes-nil, IsBytes-cons, arith)

module _ (m : Memory) (p v : ℕ) where
  pub wb8-Writes : Writes m p 1 (wb8 m p v)
  unfolding wb8
  wb8-Writes = overwrite-Writes m p _ _ (omega arith) (search byte_lists depth 10)

  pub wb16-Writes : Writes m p 2 (wb16 m p v)
  unfolding wb16
  wb16-Writes = overwrite-Writes m p _ _ (omega arith) (search byte_lists depth 10)

  pub wb24-Writes : Writes m p 3 (wb24 m p v)
  unfolding wb24
  wb24-Writes = overwrite-Writes m p _ _ (omega arith) (search byte_lists depth 10)

  pub wb32-Writes : Writes m p 4 (wb32 m p v)
  unfolding wb32
  wb32-Writes = overwrite-Writes m p _ _ (omega arith) (search byte_lists depth 10)

  pub wb64-Writes : Writes m p 8 (wb64 m p v)
  unfolding wb64
  wb64-Writes = overwrite-Writes m p _ _ (omega arith) (search (IsBytes-four, IsBytes-nil, arith))

  pub wl8-Writes : Writes m p 1 (wl8 m p v)
  unfolding wl8
  wl8-Writes = overwrite-Writes m p _ _ (omega arith) (search byte_lists depth 10)

  pub wl16-Writes : Writes m p 2 (wl16 m p v)
  unfolding wl16
  wl16-Writes = overwrite-Writes m p _ _ (omega arith) (search byte_lists depth 10)

  pub wl24-Writes : Writes m p 3 (wl24 m p v)
  unfolding wl24
  wl24-Writes = overwrite-Writes m p _ _ (omega arith) (search byte_lists depth 10)

  pub wl32-Writes : Writes m p 4 (wl32 m p v)
  unfolding wl32
  wl32-Writes = overwrite-Writes m p _ _ (omega arith) (search byte_lists depth 10)

  pub wl64-Writes : Writes m p 8 (wl64 m p v)
  unfolding wl64
  wl64-Writes =
      let d : ℕ = u64 v in
      let rest : Memory = u8 (d >> 32) ∷ u8 (d >> 40) ∷ u8 (d >> 48) ∷ u8 (d >> 56) ∷ [] in
      let upper =
        IsBytes-four (u8 (d >> 32)) (u8 (d >> 40)) (u8 (d >> 48)) (u8 (d >> 56)) [] (omega arith)
          (omega arith) (omega arith) (omega arith) IsBytes-nil in
      overwrite-Writes m p _ 8 (omega arith) (
        IsBytes-four (u8 (d >> 0)) (u8 (d >> 8)) (u8 (d >> 16)) (u8 (d >> 24)) rest (omega arith)
          (omega arith) (omega arith) (omega arith) upper)
