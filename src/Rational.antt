-- ===== src/Rational.antt =====
-- libavtransport/rational.c and include/avtransport/rational.h: rescaling and comparison of
-- timestamps. `rational_int` has 128 bits, which no product of the code leaves, so it is ℤ. Where
-- an assertion fails, the model goes on as builds without assertions do, whose guards return.
pub mod Rescale
pub mod Compare
pub mod Divides
pub mod Gcd
pub mod Reduce
mod Tests
use Prim.Native.Nat.{bit_or, bit_xor}
use qproto.Common.{
  ℕ, suc, ◌+◌, ◌-◌, ◌*◌, ◌/◌, ◌%◌, ◌^◌, min, Bool, true, false, ◌&&◌, ◌||◌, ltb, leb, ◌==◌, not,
  if◌then◌else◌,
}
use qproto.Common.Int.{ℤ, pos, negsuc, ◌*ℤ◌, abs, negate, ltb_ℤ, int64_min, to_int64}

pub record AvtRational : Type 0 where
  pub num : ℤ
  pub den : ℤ

-- `enum AVTRoundingMode` and the values of its members.
pub data AvtRoundingMode : Type 0 where
  round_zero round_inf round_down round_up round_near_inf : AvtRoundingMode

abbrev pub code : AvtRoundingMode → ℕ
code round_zero = 0
code round_inf = 1
code round_down = 2
code round_up = 3
code round_near_inf = 5

-- `rnd ^ ((rnd >> 1) & 1)`
mirrored : ℕ → ℕ
mirrored rnd = bit_xor rnd (rnd / 2 % 2)

-- `r`
bias : ℕ → ℕ → ℕ
bias rnd c = if rnd == 5 then c / 2 else if rnd % 2 == 1 then c - 1 else 0

-- The last line, for `a >= 0`.
rescale_magnitude : ℕ → ℕ → ℕ → ℕ → ℕ
unfolding bias
rescale_magnitude a b c rnd = (a * b + bias rnd c) / c

-- `-INT64_MAX` replaces what is below it.
rescale_signed : ℤ → ℕ → ℕ → ℕ → ℤ
unfolding rescale_magnitude mirrored
rescale_signed (pos n) b c rnd = pos (rescale_magnitude n b c rnd)
rescale_signed (negsuc n) b c rnd =
    negate (rescale_magnitude (min (suc n) (2 ^ 63 - 1)) b c (mirrored rnd))

pub rescale_rnd : ℤ → ℤ → ℤ → ℕ → ℤ
unfolding rescale_signed
rescale_rnd a (pos b) (pos c) rnd =
    if c == 0 || not (leb rnd 5 && not (rnd == 4)) then int64_min else rescale_signed a b c rnd
rescale_rnd a _ _ rnd = int64_min

pub avt_rescale_rnd : ℤ → ℤ → ℤ → ℕ → ℤ
unfolding rescale_rnd
avt_rescale_rnd a b c rnd = to_int64 (rescale_rnd a b c rnd)

unfoldable pub avt_rescale : ℤ → ℤ → ℤ → ℤ
unfolding rescale_rnd
avt_rescale a b c = to_int64 (rescale_rnd a b c (code round_near_inf))

-- The products of 32-bit values fit the parameters of 64 bits.
pub avt_rescale_rational_rnd : ℤ → AvtRational → AvtRational → ℕ → ℤ
unfolding avt_rescale_rnd
avt_rescale_rational_rnd a b c rnd = avt_rescale_rnd a (b.num *ℤ c.den) (c.num *ℤ b.den) rnd

pub avt_rescale_rational : ℤ → AvtRational → AvtRational → ℤ
unfolding avt_rescale_rational_rnd
avt_rescale_rational a b c = avt_rescale_rational_rnd a b c (code round_near_inf)

-- `(x > y) - (x < y)`
abbrev pub order : ℤ → ℤ → ℤ
order x y = if ltb_ℤ x y then negsuc 0 else if ltb_ℤ y x then pos 1 else pos 0

-- `(llabs(ts_a) | a | llabs(ts_b) | b) <= INT_MAX`; a negative product makes the word negative.
is_small : ℤ → ℤ → ℤ → ℤ → Bool
is_small ts_a (pos a) ts_b (pos b) =
    leb (bit_or (bit_or (bit_or (abs ts_a) a) (abs ts_b)) b) (2 ^ 31 - 1)
is_small ts_a _ ts_b _ = true

compare_products : ℤ → ℤ → ℤ → ℤ → ℤ
unfolding is_small rescale_rnd
compare_products ts_a a ts_b b =
    if is_small ts_a a ts_b b
    then order (ts_a *ℤ a) (ts_b *ℤ b)
    else if ltb_ℤ (rescale_rnd ts_a a b (code round_down)) ts_b
    then negsuc 0
    else if ltb_ℤ (rescale_rnd ts_b b a (code round_down)) ts_a
    then pos 1
    else pos 0

unfoldable pub avt_compare_ts : ℤ → AvtRational → ℤ → AvtRational → ℤ
unfolding compare_products
avt_compare_ts ts_a tb_a ts_b tb_b =
    compare_products ts_a (tb_a.num *ℤ tb_b.den) ts_b (tb_b.num *ℤ tb_a.den)
