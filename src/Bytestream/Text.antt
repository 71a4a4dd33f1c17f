-- ===== src/Bytestream/Text.antt =====
-- `avt_bsw_fstr` and its reader.
use qproto.Common.{
  ℕ, zero, suc, refl, take-all, ◌+◌, ◌-◌, ◌≤◌, ◌<◌, ◌≡◌, arith, List, some, min, length, overwrite,
  replicate, take, get_or-overwrite_in, get_or-overwrite_out, length-replicate, length-overwrite,
  ltb, if◌then◌else◌,
}
use qproto.Memory.{Memory, byte}
use qproto.Bytestream.{AvtBytestream, bsw_fstr}
use qproto.Bytestream.Bounds.{IsValid}

byte-zeros : (n k : ℕ) → byte (replicate n 0) k ≡ 0
byte-zeros zero k = refl
byte-zeros (suc n) zero = refl
byte-zeros (suc n) (suc k) = byte-zeros n k

-- What a field of `n` bytes holds after a string of `s` bytes was written to it: zeros over the
-- first `n - s` bytes, then what is left of the string, then what was there before.
pub bsw_fstr_lem :
    (bs bs' : AvtBytestream) (str : List ℕ) (n k : ℕ)
    → IsValid bs
    → length str ≤ n
    → k < n
    → bsw_fstr bs str n ≡ some bs'
    → byte bs'.mem (bs.ptr + k) ≡ (
        if ltb k (n - length str)
        then 0
        else if ltb k (length str)
        then byte str k
        else byte bs.mem (bs.ptr + k))
unfolding bsw_fstr
bsw_fstr_lem bs bs' str n k v short inside h =
    let lens : ℕ = min (length str) n in
    let zeros : Memory = replicate (n - lens) 0 in
    let copied : Memory = overwrite bs.mem bs.ptr (take lens str) in
    ground (
      arith,
      take-all lens str (omega arith),
      length-replicate {A = ℕ} (n - lens) 0,
      length-overwrite bs.mem bs.ptr (take lens str),
      byte-zeros (n - lens) k,
      get_or-overwrite_in copied bs.ptr zeros (bs.ptr + k) k 0,
      get_or-overwrite_out copied bs.ptr zeros (bs.ptr + k) 0,
      get_or-overwrite_in bs.mem bs.ptr (take lens str) (bs.ptr + k) k 0,
      get_or-overwrite_out bs.mem bs.ptr (take lens str) (bs.ptr + k) 0,
    )
