-- ===== src/Bytestream/Tests.antt =====
-- The bytestream at concrete inputs.
use qproto.Common.{ℕ, ◌+◌, ◌≡◌, refl, arith, List, [], ◌∷◌, some, replicate}
use qproto.Common.Int.{pos, negsuc}
use qproto.Memory.{wl16, wb24, wl24, wb32, wl32}
use qproto.Memory.Writes.{IsBytes-cons, IsBytes-zeros}
use qproto.Bytestream.{
  AvtBytestream, big, little, w16, w24, w32, store, bsw_u, bsw_i, bsw_rt, bsw_fstr, bsr_u,
}
use qproto.Bytestream.Bounds.{IsValid, Op, run, Advances, run-Advances}
use qproto.Bytestream.RoundTrip.{back_to, bsr_u-bsw_u}

abbrev stream : AvtBytestream
stream = record { mem = replicate 12 0; start = 0; ptr = 1; end = 10 }

-- `stream` after the bytes `m` were written from its pointer on.
abbrev written : List ℕ → ℕ → AvtBytestream
written m n = record stream { mem = m; ptr = 1 + n }

stream-IsValid : IsValid stream
stream-IsValid = record {
  from_start = omega arith;
  to_end = omega arith;
  inside = omega arith;
  bytes = IsBytes-zeros 12;
}

abbrev after_16 : AvtBytestream
after_16 = written (0 ∷ 52 ∷ 18 ∷ replicate 9 0) 2

write_16 : bsw_u little w16 stream 4660 ≡ some after_16
unfolding bsw_u store wl16
write_16 = refl

abbrev after_24b : AvtBytestream
after_24b = written (0 ∷ 18 ∷ 52 ∷ 86 ∷ replicate 8 0) 3

write_24b : bsw_u big w24 stream 305419896 ≡ some after_24b
unfolding bsw_u store wb24
write_24b = refl

-- The byte after the word is not zero.
abbrev busy : AvtBytestream
busy = record stream { mem = 0 ∷ 0 ∷ 0 ∷ 0 ∷ 200 ∷ replicate 7 0 }

busy-IsValid : IsValid busy
busy-IsValid = record {
  from_start = omega arith;
  to_end = omega arith;
  inside = omega arith;
  bytes = search (IsBytes-cons, IsBytes-zeros 7, arith) depth 12;
}

abbrev after_24l : AvtBytestream
after_24l = record stream { mem = 0 ∷ 86 ∷ 52 ∷ 18 ∷ 200 ∷ replicate 7 0; ptr = 4 }

write_24l : bsw_u little w24 busy 305419896 ≡ some after_24l
unfolding bsw_u store wl24
write_24l = refl

abbrev after_32 : AvtBytestream
after_32 = written (0 ∷ 18 ∷ 52 ∷ 86 ∷ 120 ∷ replicate 7 0) 4

write_32 : bsw_u big w32 stream 305419896 ≡ some after_32
unfolding bsw_u store wb32
write_32 = refl

bsr_u-bsw_u_example : bsr_u big w32 (back_to stream after_32) ≡ (305419896, after_32)
bsr_u-bsw_u_example =
    bsr_u-bsw_u big w32 stream after_32 305419896 stream-IsValid (omega arith) write_32

abbrev after_minus : AvtBytestream
after_minus = written (0 ∷ 254 ∷ 255 ∷ 255 ∷ 255 ∷ replicate 7 0) 4

write_minus : bsw_i little w32 stream (negsuc 1) ≡ some after_minus
unfolding bsw_i store wl32
write_minus = refl

abbrev after_rt : AvtBytestream
after_rt = written (0 ∷ 0 ∷ 0 ∷ 117 ∷ 48 ∷ replicate 7 0) 8

write_rt : bsw_rt big stream (record { num = pos 1001; den = pos 30000 }) ≡ some after_rt
unfolding bsw_rt store wb32
write_rt = refl

run-Advances_example : Advances stream after_32
unfolding run
run-Advances_example =
    run-Advances (Op.put_u big w32 305419896) stream after_32 stream-IsValid tt write_32

-- The string "AB" in a field of 4 bytes: nothing of it is left.
abbrev after_str : AvtBytestream
after_str = written (replicate 12 0) 4

write_str : bsw_fstr stream (65 ∷ 66 ∷ []) 4 ≡ some after_str
unfolding bsw_fstr
write_str = refl
