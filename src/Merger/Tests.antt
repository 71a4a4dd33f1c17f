-- ===== src/Merger/Tests.antt =====
-- Segments and ranges at concrete inputs.
use qproto.Common.{
  ℕ, ◌≤◌, ◌<◌, ◌≡◌, ◌↔◌, ◌⊎◌, refl, arith, true, false, List, [], ◌∷◌, none, some, ok, replicate,
}
use qproto.Common.Int.{negsuc}
use qproto.Packet.{AvtPacketData, Body}
use qproto.Buffer.{null_buffer}
use qproto.Fifo.{AvtPktd}
use qproto.Merger.{
  AvtMergerRange, Ranges, AvtMerger, joined, work_in, validate_packet, fill_ranges, set_ranges,
}
use qproto.Merger.Checks.{Fits, Passes, validate_packet_lem}
use qproto.Merger.Cover.{Covers, fill_ranges-Covers}

abbrev blank : AvtPktd
blank = record {
  hdr = replicate 28 7;
  pkt = record { seq = 9; stream_id = 0; body = Body.session_start };
  pl = null_buffer;
  pl_hash = [];
  hdr_len = 0;
  hdr_off = 0;
  pl_has_hash = false;
}

abbrev range : ℕ → ℕ → AvtMergerRange
range off n = record { offset = off; size = n }

-- Room for four ranges, of which two are in use.
abbrev slots : List AvtMergerRange
slots = range 0 100 ∷ range 300 100 ∷ range 0 0 ∷ range 0 0 ∷ []

slots-Fits : Fits slots
slots-Fits = (omega arith, (omega arith, (omega arith, (omega arith, tt))))

abbrev two : Ranges
two = record { ranges = slots; nb_ranges = 2; ranges_allocated = 4 }

abbrev merger : AvtMerger
merger = record {
  active = true;
  target = 8;
  last = 8;
  nb_tgt_packets = 1;
  p_avail = false;
  hdr_mask = 16;
  p = blank;
  pkt_len_track = 200;
  target_tot_len = 1000;
  data_ranges = two;
  parity = null_buffer;
  pkt_parity_len_track = 0;
  parity_tot_len = 0;
  parity_ranges = two;
}

abbrev header_7 : AvtPacketData → List ℕ
header_7 p = 7 ∷ 7 ∷ 7 ∷ 7 ∷ []

validate_packet_lem_example :
    (validate_packet header_7 merger blank (negsuc 0) 50 100 1000 false ≡ some none)
    ↔ Passes header_7 merger blank (negsuc 0) 50 100 1000 two
validate_packet_lem_example =
    validate_packet_lem header_7 merger blank (negsuc 0) 50 100 1000 false (omega arith) slots-Fits
      (omega arith)

-- The segment from 50 to 150 overlaps the range from 0 to 100.
starts_inside : validate_packet header_7 merger blank (negsuc 0) 50 100 1000 false ≡ some none
unfolding validate_packet
starts_inside = refl

work_100 :
    work_in 2 100 50 0 0 slots
    ≡ some (joined (range 0 150 ∷ range 300 100 ∷ range 0 0 ∷ range 0 0 ∷ []))
unfolding work_in
work_100 = refl

fill_ranges-Covers_example :
    (fill_ranges 1400 none merger false 100 50
      ≡ some (
          ok (
            set_ranges merger false
              (record two { ranges = range 0 150 ∷ range 300 100 ∷ range 0 0 ∷ range 0 0 ∷ [] }))))
    × ((b : ℕ)
        → Covers 2 (range 0 150 ∷ range 300 100 ∷ range 0 0 ∷ range 0 0 ∷ []) b
          ↔ (Covers 2 slots b ⊎ ((100 ≤ b) × (b < 150))))
fill_ranges-Covers_example =
    fill_ranges-Covers 1400 none merger false 100 50 _ slots-Fits (omega arith) work_100

-- A segment between two ranges moves more than the array has.
between_ranges : fill_ranges 1400 none merger false 200 50 ≡ none
unfolding fill_ranges
between_ranges = refl

-- One behind all of them is counted and not stored.
behind_ranges :
    fill_ranges 1400 none merger false 500 50
    ≡ some (ok (set_ranges merger false (record two { nb_ranges = 3 })))
unfolding fill_ranges
behind_ranges = refl

-- One that fills the gap leaves the size of the second range.
fills_gap :
    fill_ranges 1400 none merger false 100 200
    ≡ some (
        ok (
          set_ranges merger false (record two {
            ranges = range 0 100 ∷ range 300 100 ∷ range 0 0 ∷ range 0 0 ∷ [];
            nb_ranges = 1;
          })))
unfolding fill_ranges
fills_gap = refl
