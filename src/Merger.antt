-- ===== src/Merger.antt =====
-- libavtransport/merger.c: the ranges of a payload that its segments cover, and the checks on a segment.
-- The bytes at the place of `generic_segment.header_7` in the generated packet union are a parameter,
-- also for packets of other kinds, of which the code reads the same place. What new memory holds and
-- the size of AVTMerger are parameters too.
pub mod Checks
pub mod Cover
mod Tests
use qproto.Common.{
  ℕ, zero, suc, ◌+◌, ◌-◌, ◌*◌, ◌/◌, ◌%◌, ◌^◌, Bool, true, false, not, ◌&&◌, List, [], ◌∷◌, ◌++◌,
  Option, none, some, Result, ok, err, Err, enomem, einval, eagain, enoent, ltb, leb, ◌==◌,
  if◌then◌else◌, ◌>>=◌, u32, ◌<<◌, length, get_elem?, set, take, drop, overwrite,
}
use qproto.Common.Int.{ℤ, pos, eqb_ℤ}
use qproto.Packet.{AvtPacketData}
use qproto.Buffer.{AvtBuffer, Heap, buffer_quick_unref}
use qproto.Fifo.{AvtPktd}

pub record AvtMergerRange : Type 0 where
  pub offset : ℕ
  pub size : ℕ

-- The ranges of the payload or of the parity: the array to the end of its allocation, how many are in
-- use, and the size that the allocation is believed to have.
pub record Ranges : Type 0 where
  pub ranges : List AvtMergerRange
  pub nb_ranges : ℕ
  pub ranges_allocated : ℕ

pub record AvtMerger : Type 0 where
  pub active : Bool
  pub target : ℕ
  pub last : ℕ
  pub nb_tgt_packets : ℕ
  pub p_avail : Bool
  pub hdr_mask : ℕ
  pub p : AvtPktd
  pub pkt_len_track : ℕ
  pub target_tot_len : ℕ
  pub data_ranges : Ranges
  pub parity : AvtBuffer
  pub pkt_parity_len_track : ℕ
  pub parity_tot_len : ℕ
  pub parity_ranges : Ranges

abbrev pub ranges_of : AvtMerger → Bool → Ranges
ranges_of m is_parity = if not is_parity then m.data_ranges else m.parity_ranges

abbrev pub range_end : AvtMergerRange → ℕ
range_end r = u32 (r.offset + r.size)

-- `none` lets the segment pass.
abbrev pub validate_range : ℕ → ℕ → AvtMergerRange → Option Err
validate_range seg_off seg_size r =
    if (r.offset == seg_off) && (r.size == seg_size)
    then some eagain
    else if ltb (range_end r) seg_off && leb seg_off r.offset
    then some einval
    else if ltb r.offset (u32 (seg_off + seg_size)) && leb (u32 (seg_off + seg_size)) (range_end r)
    then some einval
    else none

-- `some none` is 0. A range that is read behind the allocation is a fault, `none`.
abbrev pub validate_ranges : ℕ → ℕ → ℕ → List AvtMergerRange → Option (Option Err)
validate_ranges seg_off seg_size zero rs = some none
validate_ranges seg_off seg_size (suc n) [] = none
validate_ranges seg_off seg_size (suc n) (r ∷ rs) = elim (validate_range seg_off seg_size r) [
  | some e ↦ some (some e)
  | none ↦ validate_ranges seg_off seg_size n rs
]

-- The comparison of four bytes with the four of an array.
abbrev pub same_bytes : List ℕ → List ℕ → Bool
same_bytes [] [] = true
same_bytes (x ∷ xs) (y ∷ ys) = (x == y) && same_bytes xs ys
same_bytes xs ys = false

abbrev pub hdr_part : AvtPktd → ℕ
hdr_part p = p.pkt.seq % 7

-- The part of the header that is known at a position, of 0 to 6.
abbrev pub has_part : AvtMerger → ℕ → Bool
has_part m part = not ((m.hdr_mask / 2 ^ (6 - part)) % 2 == 0)

abbrev pub part_data : AvtMerger → ℕ → List ℕ
part_data m part = take 4 (drop (4 * part) m.p.hdr)

unfoldable pub validate_packet :
    (AvtPacketData → List ℕ) → AvtMerger → AvtPktd → ℤ → ℕ → ℕ → ℕ → Bool → Option (Option Err)
validate_packet header_7 m p srs seg_off seg_size tot_size is_parity =
    if not (m.target_tot_len == 0) && (not (tot_size == 0) && not (tot_size == m.target_tot_len))
    then some (some einval)
    else if eqb_ℤ srs (pos 0) && (m.target == p.pkt.seq)
    then some (some einval)
    else if has_part m (hdr_part p) && not (same_bytes (part_data m (hdr_part p)) (header_7 p.pkt))
    then some (some einval)
    else let r = ranges_of m is_parity in validate_ranges seg_off seg_size r.nb_ranges r.ranges

-- How far the loop of `fill_ranges` comes: the segment is worked into a range and done with, it also
-- meets the range behind the one of the given index, or it is none's neighbour.
pub data Place : Type 0 where
  joined : List AvtMergerRange → Place
  meets : List AvtMergerRange → ℕ → Place
  lone : ℕ → Place

abbrev pub prepend : ℕ → ℕ → AvtMergerRange → AvtMergerRange
prepend seg_off seg_size r = record { offset = seg_off; size = u32 (r.size + seg_size) }

abbrev pub extend : ℕ → AvtMergerRange → AvtMergerRange
extend seg_size r = record r { size = u32 (r.size + seg_size) }

-- The test of the range before the one that was prepended to, or behind the one that was extended.
abbrev pub meets_before : List AvtMergerRange → ℕ → ℕ → Option Place
meets_before rs zero seg_off = some (joined rs)
meets_before rs (suc i) seg_off =
    get_elem? rs i >>= λ q. some (if ltb (range_end q) seg_off then joined rs else meets rs i)

abbrev pub meets_behind : List AvtMergerRange → ℕ → ℕ → AvtMergerRange → Option Place
meets_behind rs zero i r = some (joined rs)
meets_behind rs (suc n) i r = get_elem? rs (suc i) >>= λ q.
    some (if ltb (range_end r) q.offset then joined rs else meets rs i)

-- The loop from index `i` on, with as many ranges left as the first argument.
unfoldable pub work_in : ℕ → ℕ → ℕ → ℕ → ℕ → List AvtMergerRange → Option Place
work_in zero seg_off seg_size i dst_idx rs = some (lone dst_idx)
work_in (suc n) seg_off seg_size i dst_idx rs = get_elem? rs i >>= λ r.
    let rest =
      work_in n seg_off seg_size (suc i) (if ltb (range_end r) seg_off then i else dst_idx) rs in
    if u32 (seg_off + seg_size) == r.offset
    then meets_before (set rs i (prepend seg_off seg_size r)) i seg_off
    else if range_end r == seg_off
    then meets_behind (set rs i (extend seg_size r)) n i (extend seg_size r)
    else rest

-- The bytes of an array of ranges, in little endian order, and back.
abbrev pub word_bytes : ℕ → List ℕ
word_bytes n = n % 256 ∷ n / 256 % 256 ∷ n / 65536 % 256 ∷ n / 16777216 % 256 ∷ []

abbrev pub bytes_of : List AvtMergerRange → List ℕ
bytes_of [] = []
bytes_of (r ∷ rs) = word_bytes r.offset ++ word_bytes r.size ++ bytes_of rs

abbrev pub word_of : ℕ → ℕ → ℕ → ℕ → ℕ
word_of a b c d = a + b * 256 + c * 65536 + d * 16777216

abbrev pub ranges_in : List ℕ → List AvtMergerRange
ranges_in (a ∷ b ∷ c ∷ d ∷ e ∷ f ∷ g ∷ h ∷ bs) =
    record { offset = word_of a b c d; size = word_of e f g h } ∷ ranges_in bs
ranges_in bs = []

-- `memmove` of a number of bytes within the array, a fault where it leaves the allocation.
unfoldable pub memmove : ℕ → ℕ → ℕ → List AvtMergerRange → Option (List AvtMergerRange)
memmove dst src n rs =
    let size = 8 * length rs in
    if leb (dst + n) size && leb (src + n) size
    then some (ranges_in (overwrite (bytes_of rs) dst (take n (drop src (bytes_of rs)))))
    else none

-- `avt_reallocarray`: the array cut or continued by what the new memory holds; `none` if there is none.
abbrev pub reallocarray :
    Option (List AvtMergerRange) → ℕ → List AvtMergerRange → Option (List AvtMergerRange)
reallocarray fresh n rs = fresh >>= λ tail. some (take n (rs ++ tail))

-- The number of ranges of the payload is the one that the new size is computed from in both cases.
unfoldable pub reserve_range : Option (List AvtMergerRange) → ℕ → Ranges → Result Ranges
reserve_range fresh nb_data r =
    if ltb r.ranges_allocated (u32 (r.nb_ranges + 1))
    then elim (reallocarray fresh (u32 (u32 (r.nb_ranges + 1) << 1)) r.ranges) [
      | none ↦ err enomem
      | some rs ↦ ok (record r { ranges = rs; ranges_allocated = u32 (u32 (nb_data + 1) << 1) })
    ]
    else ok r

-- Room is made for the new range, with a size of its elements, `sizeof(AVTMerger)`, that is not theirs.
unfoldable pub add_range : ℕ → ℕ → Ranges → Option Ranges
unfolding memmove
add_range merger_size dst_idx r =
    memmove (8 * (dst_idx + 1)) (8 * dst_idx)
      (u32 (r.nb_ranges + 2 ^ 32 - dst_idx - 1) * merger_size) r.ranges
    >>= λ rs. some (record r { ranges = rs; nb_ranges = u32 (r.nb_ranges + 1) })

-- The two ranges from `i` on become one; the rest of the array is moved by as many bytes as there are ranges.
unfoldable pub consolidate : ℕ → Ranges → Option Ranges
unfolding memmove
consolidate i r = get_elem? r.ranges i >>= λ q. get_elem? r.ranges (i + 1) >>= λ next.
    memmove (8 * (i + 1)) (8 * (i + 2)) (u32 (r.nb_ranges + 2 ^ 32 - i - 2))
      (set r.ranges i (record q { size = next.size }))
    >>= λ rs. some (record r { ranges = rs; nb_ranges = u32 (r.nb_ranges + 2 ^ 32 - 1) })

abbrev pub set_ranges : AvtMerger → Bool → Ranges → AvtMerger
set_ranges m is_parity r =
    if not is_parity then record m { data_ranges = r } else record m { parity_ranges = r }

unfoldable pub fill_ranges :
    ℕ → Option (List AvtMergerRange) → AvtMerger → Bool → ℕ → ℕ → Option (Result AvtMerger)
unfolding work_in reserve_range add_range consolidate
fill_ranges merger_size fresh m is_parity seg_off seg_size =
    let r = ranges_of m is_parity in
    work_in r.nb_ranges seg_off seg_size 0 0 r.ranges >>= λ place. elim place [
      | joined rs ↦ some (ok (set_ranges m is_parity (record r { ranges = rs })))
      | lone dst_idx ↦ elim (reserve_range fresh m.data_ranges.nb_ranges r) [
        | err e ↦ some (err e)
        | ok r' ↦ add_range merger_size dst_idx r' >>= λ r''. some (ok (set_ranges m is_parity r''))
      ]
      | meets rs i ↦
          consolidate i (record r { ranges = rs }) >>= λ r'. some (ok (set_ranges m is_parity r'))
    ]

-- The payload length, the packet and the merger without it.
unfoldable pub avt_pkt_merge_force : AvtPktd → AvtMerger → Result (ℕ × AvtPktd × AvtMerger)
avt_pkt_merge_force empty m =
    if not m.active
    then err enoent
    else if not (m.hdr_mask == 127)
    then err eagain
    else ok (m.pkt_len_track, m.p, record m { p = empty })

unfoldable pub avt_pkt_merge_done : AvtMerger → Heap → Option (AvtMerger × Heap)
unfolding buffer_quick_unref
avt_pkt_merge_done m h = buffer_quick_unref m.p.pl h >>= λ (pl, h').
    some (record m { p = record m.p { pl = pl }; active = false }, h')
