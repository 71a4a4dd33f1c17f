-- ===== src/Rational/Reduce.antt =====
-- libavtransport/rational.c: `reduce_rational` and its callers, and `avt_add_stable`.
pub mod Lowest
use qproto.Common.{
  ℕ, zero, suc, ◌+◌, ◌-◌, ◌*◌, ◌/◌, ◌%◌, ◌^◌, min, Bool, true, false, ◌&&◌, ◌||◌, Option, none,
  some, ◌>>=◌, ltb, leb, ◌==◌, not, if◌then◌else◌,
}
use qproto.Common.Int.{
  ℤ, pos, negsuc, ◌+ℤ◌, ◌-ℤ◌, ◌*ℤ◌, abs, signed, differ, is_neg, div_ℤ, eqb_ℤ, ltb_ℤ, to_int32,
  to_int64, int64_min, int64_max,
}
use qproto.Rational.{AvtRational, avt_rescale_rational}
use qproto.Rational.Gcd.{gcd_ab}

-- The numerators and denominators of the convergents are not negative and below 2^63.
pub record Convergent : Type 0 where
  pub top : ℕ
  pub bottom : ℕ

-- The loop; `den` falls in each round.
convergents : ℕ → ℕ → ℕ → ℕ → Convergent → Convergent → Convergent
convergents max zero num den a0 a1 = a1
convergents max (suc rounds) num den a0 a1 =
    let x = num / den in
    let a2 : Convergent = record {
      top = x * a1.top + a0.top;
      bottom = x * a1.bottom + a0.bottom;
    } in
    let x' = if a1.top == 0 then x else (max - a0.top) / a1.top in
    let x'' = if a1.bottom == 0 then x' else min x' ((max - a0.bottom) / a1.bottom) in
    let last : Convergent = record {
      top = x'' * a1.top + a0.top;
      bottom = x'' * a1.bottom + a0.bottom;
    } in
    let rest = convergents max rounds den (num - den * x) a1 a2 in
    if den == 0
    then a1
    else if ltb max a2.top || ltb max a2.bottom
    then if ltb (num * a1.bottom) (den * (2 * x'' * a1.bottom + a0.bottom)) then last else a1
    else rest

reduced : ℕ → ℕ → ℕ → Convergent
unfolding convergents
reduced max num den =
    let gcd = gcd_ab num den in
    let n = if gcd == 0 then num else num / gcd in
    let d = if gcd == 0 then den else den / gcd in
    if leb n max && leb d max
    then record { top = n; bottom = d }
    else convergents max d n d (record { top = 0; bottom = 1 }) (record { top = 1; bottom = 0 })

reduce_rational : AvtRational → ℕ → AvtRational
unfolding reduced
reduce_rational in_ max =
    let a1 = reduced max (abs in_.num) (abs in_.den) in
    let sign = differ (is_neg in_.num) (is_neg in_.den) in
    record { num = signed sign a1.top; den = pos a1.bottom }

pub avt_make_rational : ℤ → ℤ → AvtRational
unfolding reduce_rational
avt_make_rational num den = reduce_rational (record { num = num; den = den }) (2 ^ 31 - 1)

-- The products of 64 bits are stored in the fields of 32 bits.
mul_rational : AvtRational → AvtRational → AvtRational
unfolding reduce_rational
mul_rational b c =
    reduce_rational (record { num = to_int32 (b.num *ℤ c.num); den = to_int32 (b.den *ℤ c.den) })
      (2 ^ 31 - 1)

abbrev clamp : ℤ → ℤ
clamp a = if ltb_ℤ a int64_min then int64_min else if ltb_ℤ int64_max a then int64_max else a

-- The last part, where the increment is not a multiple of the timebase.
add_inexact : AvtRational → ℤ → AvtRational → ℤ
add_inexact ts_tb ts inc_tb =
    let old = avt_rescale_rational ts ts_tb inc_tb in
    let old_ts = avt_rescale_rational old inc_tb ts_tb in
    if eqb_ℤ old int64_max
    then ts
    else clamp (avt_rescale_rational (old +ℤ pos 1) inc_tb ts_tb +ℤ (ts -ℤ old_ts))

-- `none` is a division by zero.
unfoldable pub avt_add_stable : AvtRational → ℤ → AvtRational → ℤ → Option ℤ
unfolding mul_rational add_inexact
avt_add_stable ts_tb ts inc_tb inc =
    let unit : Bool = eqb_ℤ inc (pos 1) in
    let step =
      if unit then inc_tb else mul_rational inc_tb (record { num = to_int32 inc; den = pos 1 }) in
    let m = step.num *ℤ ts_tb.den in
    let d = step.den *ℤ ts_tb.num in
    div_ℤ m d >>= λ quotient.
    if abs m % abs d == 0 && not (ltb_ℤ (int64_max -ℤ quotient) ts)
    then some (ts +ℤ quotient)
    else if ltb_ℤ m d
    then some ts
    else some (add_inexact ts_tb ts step)
