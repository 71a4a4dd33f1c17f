-- ===== src/SlidingWin/Skips.antt =====
-- What the loop does not look at.
use qproto.Common.{◌≡◌, arith, true, false, List, ◌∷◌, some}
use qproto.Common.Int.{ℤ, pos, ◌+ℤ◌, ltb_ℤ}
use qproto.Rational.{AvtRational, avt_compare_ts}
use qproto.Rational.Reduce.{avt_add_stable}
use qproto.SlidingWin.{AvtSlidingWinEntry, AvtSlidingWinCtx, evict, avt_sliding_win}

evict_two :
    (e1 e2 e3 : AvtSlidingWinEntry) (es : List AvtSlidingWinEntry) (ts test : ℤ) (tb : AvtRational)
    (period : ℤ)
    → avt_add_stable e1.tb e1.ts tb period ≡ some test
    → ltb_ℤ (avt_compare_ts test e1.tb ts tb) (pos 0) ≡ true
    → evict 2 0 ts tb period (record { num_entries = 2; entries = e1 ∷ e2 ∷ e3 ∷ es })
      ≡ some (record { num_entries = 1; entries = e2 ∷ e2 ∷ e3 ∷ es })
unfolding evict
evict_two e1 e2 e3 es ts test tb period tested old = ground arith

-- Of two entries, if the first is too old, the second stays in the sum however old it is: the loop
-- goes on to the index after it.
pub avt_sliding_win_skips :
    (e1 e2 e3 : AvtSlidingWinEntry) (es : List AvtSlidingWinEntry) (val ts test : ℤ)
    (tb : AvtRational) (period : ℤ)
    → avt_add_stable e1.tb e1.ts tb period ≡ some test
    → ltb_ℤ (avt_compare_ts test e1.tb ts tb) (pos 0) ≡ true
    → (after : AvtSlidingWinCtx) × (avt_sliding_win
          (record { num_entries = 2; entries = e1 ∷ e2 ∷ e3 ∷ es })
          val
          ts
          tb
          period
          false
        ≡ some (e2.val +ℤ (val +ℤ pos 0), after))
unfolding avt_sliding_win
avt_sliding_win_skips e1 e2 e3 es val ts test tb period tested old = (
  record { num_entries = 2; entries = e2 ∷ record { val = val; ts = ts; tb = tb } ∷ e3 ∷ es },
  ground (arith, evict_two e1 e2 e3 es ts test tb period tested old),
)
