-- ===== src/SlidingWin/Tests.antt =====
-- Windows of a few entries.
use qproto.Common.{ℕ, ◌+◌, ◌≤◌, ◌<◌, ◌≡◌, refl, arith, false, [], ◌∷◌, some, length}
use qproto.Common.Int.{ℤ, pos, ◌+ℤ◌, ◌-ℤ◌, ◌*ℤ◌, negsuc}
use qproto.Rational.{AvtRational, avt_compare_ts}
use qproto.Rational.Reduce.{avt_add_stable}
use qproto.SlidingWin.{AvtSlidingWinEntry, AvtSlidingWinCtx, evict, avt_sliding_win}
use qproto.SlidingWin.Room.{avt_sliding_win_room}

abbrev ns : AvtRational
ns = record { num = pos 1; den = pos 1000000000 }

abbrev entry : ℕ → ℕ → AvtSlidingWinEntry
entry v t = record { val = pos v; ts = pos t; tb = ns }

-- A full window of three entries, at 0, 1 and 2 ns; at 3 ns the period of 1 ns has passed for the first two.
abbrev full : AvtSlidingWinCtx
full = record { num_entries = 3; entries = entry 10 0 ∷ entry 20 1 ∷ entry 30 2 ∷ [] }

abbrev full_kept : AvtSlidingWinCtx
full_kept = record { num_entries = 2; entries = entry 20 1 ∷ entry 30 2 ∷ entry 30 2 ∷ [] }

full_runs : evict 3 0 (pos 3) ns (pos 1) full ≡ some full_kept
unfolding evict avt_add_stable avt_compare_ts ◌*ℤ◌ ◌+ℤ◌ ◌-ℤ◌
full_runs = refl

avt_sliding_win_room_example :
    (sum : ℤ) × (after : AvtSlidingWinCtx) × (avt_sliding_win full (pos 40) (pos 3) ns (pos 1) false
      ≡ some (sum, after))
    × (0 < after.num_entries)
    × (after.num_entries ≤ length after.entries)
    × (after.num_entries ≤ 3 + 1)
    × (length after.entries ≡ 3)
avt_sliding_win_room_example =
    avt_sliding_win_room full full_kept (pos 40) (pos 3) ns (pos 1) (omega arith) (omega arith)
      full_runs

-- Both entries are more than a nanosecond old.
too_old : avt_add_stable ns (pos 0) ns (pos 1) ≡ some (pos 1)
unfolding avt_add_stable ◌*ℤ◌ ◌+ℤ◌ ◌-ℤ◌
too_old = refl

before_now : avt_compare_ts (pos 1) ns (pos 5000000000) ns ≡ negsuc 0
unfolding avt_compare_ts ◌*ℤ◌
before_now = refl
