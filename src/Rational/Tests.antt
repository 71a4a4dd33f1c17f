-- ===== src/Rational/Tests.antt =====
-- Timestamps at concrete inputs.
use qproto.Common.{some, ℕ, ◌-◌, ◌*◌, ◌^◌, ◌≡◌, refl, arith, true}
use qproto.Common.Int.{pos, negsuc, negate, ◌*ℤ◌}
use qproto.Rational.{round_down, rescale_rnd, avt_rescale_rnd, avt_rescale, avt_compare_ts}
use qproto.Rational.Rescale.{IsCeiling, rescale_rnd_lem}
use qproto.Rational.Divides.{IsGcd}
use qproto.Rational.Gcd.{gcd_search, gcd_ab, gcd_ab-IsGcd}
use qproto.Rational.Reduce.{avt_make_rational}
use qproto.Rational.Reduce.Lowest.{avt_make_rational-IsGcd}
use qproto.Rational.Compare.{avt_compare_ts_lem}

-- 90 kHz to 1 ns, and the ends of the range.
rescale_runs :
    (avt_rescale (pos 3003) (pos 1000000000) (pos 90000) ≡ pos 33366667)
    × (avt_rescale (negsuc 3002) (pos 1000000000) (pos 90000) ≡ negsuc 33366666)
    × (avt_rescale_rnd (pos 7) (pos 1) (pos 0) 2 ≡ negsuc (2 ^ 63 - 1))
unfolding avt_rescale avt_rescale_rnd
rescale_runs = (refl, refl, refl)

-- The two parts of one time, in milliseconds and at 90 kHz.
compare_runs :
    (avt_compare_ts
        (pos 1000)
        (record { num = pos 1; den = pos 1000 })
        (pos 90000)
        (record { num = pos 1; den = pos 90000 })
      ≡ pos 0)
    × (avt_compare_ts
          (negsuc 999)
          (record { num = pos 1; den = pos 1000 })
          (pos (2 ^ 40))
          (record { num = pos 1; den = pos 90000 })
        ≡ negsuc 0)
unfolding avt_compare_ts ◌*ℤ◌
compare_runs = (refl, refl)

rescale_rnd_lem_example :
    (q : ℕ) × (rescale_rnd (negsuc 6) (pos 1) (pos 2) 2 ≡ negate q) × IsCeiling (7 * 1) 2 q
rescale_rnd_lem_example = rescale_rnd_lem round_down true 7 1 2 (omega arith) (omega arith)

avt_compare_ts_lem_example :
    avt_compare_ts
      (pos (2 ^ 40))
      (record { num = pos 1; den = pos 1000 })
      (negsuc 5)
      (record { num = pos 1; den = pos 90000 })
    ≡ pos 1
unfolding ◌*ℤ◌
avt_compare_ts_lem_example =
    avt_compare_ts_lem (pos (2 ^ 40)) (negsuc 5) 1 1000 1 90000 (omega arith) (omega arith)
      (omega arith) (omega arith) (omega arith) (omega arith)

gcd_ab-IsGcd_example :
    (gcd_search 90000 30000 ≡ some (gcd_ab 90000 30000)) × IsGcd 90000 30000 (gcd_ab 90000 30000)
gcd_ab-IsGcd_example = gcd_ab-IsGcd 90000 30000 (omega arith) (omega arith)

gcd_runs : (gcd_ab 48 36 ≡ 12) × (gcd_ab 0 7 ≡ 7) × (gcd_ab 7 0 ≡ 7) × (gcd_ab 17 5 ≡ 1)
unfolding gcd_ab
gcd_runs = (refl, refl, refl, refl)

avt_make_rational-IsGcd_example :
    (n' d' g : ℕ) × IsGcd 30 45 g
    × (30 ≡ n' * g)
    × (45 ≡ d' * g)
    × (avt_make_rational (negsuc 29) (pos 45) ≡ record { num = negate n'; den = pos d' })
avt_make_rational-IsGcd_example =
    avt_make_rational-IsGcd true 30 45 (omega arith) (omega arith) (λ e. omega arith)
