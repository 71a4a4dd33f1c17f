-- ===== src/Scheduler/Clock.antt =====
-- `update_sw`: the time that a packet takes.
use qproto.Common.{
  ℕ, ◌*◌, ◌^◌, ◌<◌, ◌≡◌, ◌∙◌, ap, ap₂, arith, false, some, u64, Option-cases, inl, inr,
}
use qproto.Common.Int.{pos, ◌+ℤ◌, to_int64}
use qproto.Rational.{avt_rescale, rescale_rnd, round_near_inf, code}
use qproto.Rational.Rescale.{IsNearest, rescale_rnd_lem}
use qproto.SlidingWin.{avt_sliding_win}
use qproto.Scheduler.{AvtScheduler, nanoseconds, update_sw}

duration_lem :
    (bits b q : ℕ)
    → rescale_rnd (pos bits) (pos b) (pos 1000000000) (code round_near_inf) ≡ pos q
    → q < 2 ^ 63
    → avt_rescale (pos bits) (pos b) (pos 1000000000) ≡ pos q
unfolding avt_rescale
duration_lem bits b q runs fits =
    let whole : to_int64 (pos q) ≡ pos q = ground arith in ap (λ x. to_int64 x) runs ∙ whole

-- The time moves by the duration.
update_sw-time :
    (s s' : AvtScheduler) (size : ℕ)
    → update_sw s size ≡ some s'
    → s'.time ≡ s.time +ℤ avt_rescale (pos (u64 (size * 8))) s.bandwidth (pos 1000000000)
unfolding update_sw
update_sw-time s s' size e =
    elim (Option-cases
      (avt_sliding_win s.sw (pos (u64 (size * 8))) s.time nanoseconds (pos 1000000000) false)) [
        | inl fault ↦ absurd (ground arith)
        | inr (r, runs) ↦ ground arith
      ]

-- For a bandwidth of `b` bits per second, a packet of `size` bytes advances the time of the scheduler
-- by its bits times the bandwidth, over 10^9, rounded to the nearest, where that fits 63 bits: the
-- time grows with the bandwidth.
pub update_sw-IsNearest :
    (s s' : AvtScheduler) (size b : ℕ)
    → s.bandwidth ≡ pos b
    → size * 8 < 2 ^ 63
    → size * 8 * b < 2 ^ 62 * 1000000000
    → update_sw s size ≡ some s'
    → (q : ℕ) × IsNearest (size * 8 * b) 1000000000 q × (s'.time ≡ s.time +ℤ pos q)
update_sw-IsNearest s s' size b is small fits e =
    let (q, runs, nearest) =
      rescale_rnd_lem round_near_inf false (size * 8) b 1000000000 (omega arith) small in
    let bits : u64 (size * 8) ≡ size * 8 = omega arith in
    let same = duration_lem (size * 8) b q runs (omega arith) in
    (
      q,
      nearest,
      update_sw-time s s' size e
          ∙ ap₂ (λ (n : ℕ) x. s.time +ℤ avt_rescale (pos n) x (pos 1000000000)) bits is
          ∙ ap (λ x. s.time +ℤ x) same,
    )
