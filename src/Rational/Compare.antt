-- ===== src/Rational/Compare.antt =====
-- `avt_compare_ts` is the exact order of the two times, on both of its paths.
use qproto.Common.{
  ℕ, zero, suc, ◌*◌, ◌^◌, ◌≤◌, ◌<◌, ◌≡◌, refl, arith, true, false, ltb, Bool-cases, inl, inr,
}
use qproto.Common.Int.{ℤ, pos, negsuc, ltb_ℤ, ◌*ℤ◌, abs}
use qproto.Common.Division.{IsQuotient, mul-le}
use qproto.Rational.{
  round_down, code, rescale_rnd, order, is_small, compare_products, avt_compare_ts,
}
use qproto.Rational.Rescale.{IsCeiling, rescale_rnd_lem}

ltb_cong : (a b c d : ℕ) → (a < b → c < d) → (b ≤ a → d ≤ c) → ltb a b ≡ ltb c d
ltb_cong a b c d f g = ground arith

-- Comparison with a quotient, rounded either way, is comparison with the product.
below-quotient : (n c q k : ℕ) → IsQuotient n c q → ltb q k ≡ ltb n (k * c)
below-quotient n c q k (lo, hi) =
    ltb_cong q k n (k * c) (λ h. omega (arith, mul-le (suc q) k c h))
      (λ h. omega (arith, mul-le k q c h))

above-ceiling : (n c q k : ℕ) → IsCeiling n c q → ltb k q ≡ ltb (k * c) n
above-ceiling n c q k (lo, hi) =
    ltb_cong k q (k * c) n (λ h. omega (arith, mul-le (suc k) q c h))
      (λ h. omega (arith, mul-le q k c h))

-- Whether a time, rescaled downwards, is before `t`.
rescaled_before :
    (a t : ℤ) (b c : ℕ)
    → 0 < c
    → abs a < 2 ^ 63
    → ltb_ℤ (rescale_rnd a (pos b) (pos c) (code round_down)) t ≡ ltb_ℤ (a *ℤ pos b) (t *ℤ pos c)
unfolding ◌*ℤ◌
rescaled_before (pos n) (pos k) b c h small =
    let (q, is, rounded) = rescale_rnd_lem round_down false n b c h (omega arith) in
    ground (arith, is, below-quotient (n * b) c q k rounded)
rescaled_before (pos n) (negsuc k) b c h small =
    let (q, is, rounded) = rescale_rnd_lem round_down false n b c h (omega arith) in
    ground (arith, is)
rescaled_before (negsuc n) (pos zero) b c h small =
    let (q, is, rounded) = rescale_rnd_lem round_down true (suc n) b c h (omega arith) in
    ground (arith, is, above-ceiling (suc n * b) c q 0 rounded)
rescaled_before (negsuc n) (pos (suc k)) b c h small =
    let (q, is, rounded) = rescale_rnd_lem round_down true (suc n) b c h (omega arith) in
    ground (arith, is)
rescaled_before (negsuc n) (negsuc k) b c h small =
    let (q, is, rounded) = rescale_rnd_lem round_down true (suc n) b c h (omega arith) in
    ground (arith, is, above-ceiling (suc n * b) c q (suc k) rounded)

-- Both paths of the comparison give the order of the products.
products-order :
    (ts_a ts_b : ℤ) (a b : ℕ)
    → 0 < a
    → 0 < b
    → abs ts_a < 2 ^ 63
    → abs ts_b < 2 ^ 63
    → compare_products ts_a (pos a) ts_b (pos b) ≡ order (ts_a *ℤ pos a) (ts_b *ℤ pos b)
unfolding compare_products
products-order ts_a ts_b a b ha hb la lb = elim (Bool-cases (is_small ts_a (pos a) ts_b (pos b))) [
  | inl fast ↦ rw fast refl
  | inr slow ↦
      rw (slow, rescaled_before ts_a ts_b a b hb la, rescaled_before ts_b ts_a b a ha lb) refl
]

mul_pos : (a b : ℕ) → pos a *ℤ pos b ≡ pos (a * b)
unfolding ◌*ℤ◌
mul_pos a b = ground arith

product-pos : (a b : ℕ) → 0 < a → 0 < b → 0 < a * b
product-pos a b ha hb = omega (arith, mul-le 1 a b (omega arith))

-- Timebases whose parts are positive: the comparison of two timestamps above -2^63 is the order of
-- the times ts_a * num_a / den_a and ts_b * num_b / den_b, exactly, whichever path it takes.
pub avt_compare_ts_lem :
    (ts_a ts_b : ℤ) (na da nb db : ℕ)
    → 0 < na
    → 0 < da
    → 0 < nb
    → 0 < db
    → abs ts_a < 2 ^ 63
    → abs ts_b < 2 ^ 63
    → avt_compare_ts ts_a
        (record { num = pos na; den = pos da })
        ts_b
        (record { num = pos nb; den = pos db })
      ≡ order (ts_a *ℤ pos (na * db)) (ts_b *ℤ pos (nb * da))
unfolding avt_compare_ts
avt_compare_ts_lem ts_a ts_b na da nb db hna hda hnb hdb la lb =
    rw (mul_pos na db, mul_pos nb da)
      (products-order ts_a ts_b (na * db) (nb * da) (product-pos na db hna hdb)
        (product-pos nb da hnb hda) la lb)
