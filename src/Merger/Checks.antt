-- ===== src/Merger/Checks.antt =====
-- libavtransport/merger.c, `validate_packet`: what it lets pass.
use qproto.Common.{
  ℕ, zero, suc, ◌+◌, ◌^◌, ◌≤◌, ◌<◌, ◌≡◌, ◌≢◌, ◌↔◌, ◌⊎◌, refl, ap, ap₂, Bool, true, false, not, List,
  [], ◌∷◌, Option, none, some, Err, arith, ◌==◌, ◌&&◌, length, if◌then◌else◌, einval,
}
use qproto.Common.Int.{ℤ, pos, negsuc, eqb_ℤ}
use qproto.Packet.{AvtPacketData}
use qproto.Fifo.{AvtPktd}
use qproto.Merger.{
  AvtMergerRange, Ranges, AvtMerger, ranges_of, validate_range, validate_ranges, same_bytes,
  hdr_part, has_part, part_data, validate_packet,
}

-- No end of a range is past what 32 bits hold.
abbrev pub Fits : List AvtMergerRange → Type 0
Fits [] = Unit
Fits (r ∷ rs) = (r.offset + r.size < 2 ^ 32) × Fits rs

-- The segment is not the range, and its end is not inside the range.
abbrev pub EndsOutside : ℕ → ℕ → AvtMergerRange → Type 0
EndsOutside seg_off seg_size r =
    ((r.offset ≢ seg_off) ⊎ (r.size ≢ seg_size))
    × ((seg_off + seg_size ≤ r.offset) ⊎ (r.offset + r.size < seg_off + seg_size))

abbrev pub AllOutside : ℕ → ℕ → ℕ → List AvtMergerRange → Type 0
AllOutside seg_off seg_size zero rs = Unit
AllOutside seg_off seg_size (suc n) [] = Unit
AllOutside seg_off seg_size (suc n) (r ∷ rs) =
    EndsOutside seg_off seg_size r × AllOutside seg_off seg_size n rs

same_bytes_iff : (xs ys : List ℕ) → (same_bytes xs ys ≡ true) ↔ (xs ≡ ys)
same_bytes_iff [] [] = (λ _. refl, λ _. refl)
same_bytes_iff [] (y ∷ ys) = (λ e. cc, λ e. cc)
same_bytes_iff (x ∷ xs) [] = (λ e. cc, λ e. cc)
same_bytes_iff (x ∷ xs) (y ∷ ys) =
    let ih = same_bytes_iff xs ys in
    (
      λ e.
          let both : (x ≡ y) × (same_bytes xs ys ≡ true) = ground arith in
          ap₂ (λ a zs. a ∷ zs) both.0 (ih.0 both.1),
      λ e. let both : (x ≡ y) × (xs ≡ ys) = (cc, cc) in let same = ih.1 both.1 in ground arith,
    )

validate_range_iff :
    (seg_off seg_size : ℕ) (r : AvtMergerRange)
    → r.offset + r.size < 2 ^ 32
    → seg_off + seg_size < 2 ^ 32
    → (validate_range seg_off seg_size r ≡ none) ↔ EndsOutside seg_off seg_size r
validate_range_iff seg_off seg_size r h k = ground arith

first_passes :
    (v : Option Err) (rest : Option (Option Err)) {P Q : Type 0}
    → (v ≡ none) ↔ P
    → (rest ≡ some none) ↔ Q
    → (elim v [ some e ↦ some (some e) | none ↦ rest ] ≡ some none) ↔ (P × Q)
first_passes none rest p q = (λ e. (p.0 refl, q.0 e), λ (_, x). q.1 x)
first_passes (some e) rest p q = (λ h. cc, λ (x, _). let e0 = p.1 x in cc)

validate_ranges_iff :
    (seg_off seg_size n : ℕ) (rs : List AvtMergerRange)
    → n ≤ length rs
    → Fits rs
    → seg_off + seg_size < 2 ^ 32
    → (validate_ranges seg_off seg_size n rs ≡ some none) ↔ AllOutside seg_off seg_size n rs
validate_ranges_iff seg_off seg_size zero rs h f k = (λ _. tt, λ _. refl)
validate_ranges_iff seg_off seg_size (suc n) [] h f k = absurd (omega arith)
validate_ranges_iff seg_off seg_size (suc n) (r ∷ rs) h f k =
    let ih = validate_ranges_iff seg_off seg_size n rs (omega arith) f.1 k in
    let this = validate_range_iff seg_off seg_size r f.0 k in
    first_passes (validate_range seg_off seg_size r) _ this ih

-- A check passes when each of its tests fails and the rest passes.
checks_iff :
    (a b c : Bool) (r : Option (Option Err))
    → ((if a
          then some (some einval)
          else if b
          then some (some einval)
          else if c
          then some (some einval)
          else r)
        ≡ some none)
      ↔ ((a ≡ false) × (b ≡ false) × (c ≡ false) × (r ≡ some none))
checks_iff true b c r = (λ e. cc, λ (x, _, _, _). cc)
checks_iff false true c r = (λ e. cc, λ (_, x, _, _). cc)
checks_iff false false true r = (λ e. cc, λ (_, _, x, _). cc)
checks_iff false false false r = (λ e. (refl, refl, refl, e), λ (_, _, _, e). e)

lengths_iff :
    (have tot : ℕ)
    → ((not (have == 0) && (not (tot == 0) && not (tot == have))) ≡ false)
      ↔ (have ≢ 0 → tot ≢ 0 → tot ≡ have)
lengths_iff have tot = (λ e a b. ground arith, λ f. ground arith)

eqb_ℤ-pos : (srs : ℤ) → (eqb_ℤ srs (pos 0) ≡ true) ↔ (srs ≡ pos 0)
eqb_ℤ-pos (pos n) = (λ e. ap pos (ground arith), λ e. let z : n ≡ 0 = cc in ground arith)
eqb_ℤ-pos (negsuc n) = (λ e. absurd (ground arith), λ e. cc)

both_false :
    (a b : Bool) {P Q : Type 0} → (a ≡ true) ↔ P → (b ≡ true) ↔ Q → ((a && b) ≡ false) ↔ (P → ¬ Q)
both_false true true p q = (λ e. cc, λ f. absurd (f (p.0 refl) (q.0 refl)))
both_false true false p q = (λ e x y. let z = q.1 y in cc, λ f. refl)
both_false false b p q = (λ e x y. let z = p.1 x in cc, λ f. refl)

eqb_iff : (a b : ℕ) → ((a == b) ≡ true) ↔ (a ≡ b)
eqb_iff a b = ground arith

part_iff :
    (known same : Bool) {P : Type 0}
    → (same ≡ true) ↔ P
    → ((known && not same) ≡ false) ↔ (known ≡ true → P)
part_iff true true p = (λ e h. p.0 refl, λ f. refl)
part_iff true false p = (λ e h. cc, λ f. let z = p.1 (f refl) in cc)
part_iff false same p = (λ e h. cc, λ f. refl)

-- What `validate_packet` asks of a segment: its total length is the known one, the packet is not the
-- unsegmented whole, its part of the header is the known one, and it ends outside of every range.
abbrev pub Passes : (AvtPacketData → List ℕ) → AvtMerger → AvtPktd → ℤ → ℕ → ℕ → ℕ → Ranges → Type 0
Passes header_7 m p srs seg_off seg_size tot_size r =
    (m.target_tot_len ≢ 0 → tot_size ≢ 0 → tot_size ≡ m.target_tot_len)
    × (srs ≡ pos 0 → m.target ≢ p.pkt.seq)
    × (has_part m (hdr_part p) ≡ true → part_data m (hdr_part p) ≡ header_7 p.pkt)
    × AllOutside seg_off seg_size r.nb_ranges r.ranges

-- With the ranges inside their array and no end past 32 bits, `validate_packet` lets a segment pass exactly
-- when its total length agrees with a known one, it is not the target itself said to be unsegmented,
-- its part of the header agrees with a known one, and for each range it is not that range and its end
-- is not inside it. Where the segment starts is not asked: one that starts inside a range and ends
-- behind it passes.
pub validate_packet_lem :
    (header_7 : AvtPacketData → List ℕ) (m : AvtMerger) (p : AvtPktd) (srs : ℤ)
    (seg_off seg_size tot_size : ℕ) (is_parity : Bool)
    → (ranges_of m is_parity).nb_ranges ≤ length (ranges_of m is_parity).ranges
    → Fits (ranges_of m is_parity).ranges
    → seg_off + seg_size < 2 ^ 32
    → (validate_packet header_7 m p srs seg_off seg_size tot_size is_parity ≡ some none)
      ↔ Passes header_7 m p srs seg_off seg_size tot_size (ranges_of m is_parity)
unfolding validate_packet
validate_packet_lem header_7 m p srs seg_off seg_size tot_size is_parity within fits bound =
    let r = ranges_of m is_parity in
    let split = checks_iff _ _ _ (validate_ranges seg_off seg_size r.nb_ranges r.ranges) in
    let len = lengths_iff m.target_tot_len tot_size in
    let seg = both_false _ _ (eqb_ℤ-pos srs) (eqb_iff m.target p.pkt.seq) in
    let hdr =
      part_iff (has_part m (hdr_part p)) _
        (same_bytes_iff (part_data m (hdr_part p)) (header_7 p.pkt)) in
    let rs = validate_ranges_iff seg_off seg_size r.nb_ranges r.ranges within fits bound in
    (
      λ e. let (a, b, c, d) = split.0 e in (len.0 a, seg.0 b, hdr.0 c, rs.0 d),
      λ (a, b, c, d). split.1 (len.1 a, seg.1 b, hdr.1 c, rs.1 d),
    )
