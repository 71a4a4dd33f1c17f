-- ===== src/Memory/Loads.antt =====
-- What the loads of bytestream.h make of bytes: sums of their shifted values.
use qproto.Common.{ℕ, ◌+◌, ◌*◌, ◌^◌, ◌<◌, ◌≡◌, arith, ◌<<◌}
use qproto.Common.Bits.{or-high_low, or-low_high}
use qproto.Memory.{◌|||◌}

-- Two bytes, the first one high.
module _ (a b : ℕ) (ha : a < 256) (hb : b < 256) where
  pub big16 : (a << 8 ||| b << 0) ≡ a * 2 ^ 8 + b
  big16 = omega (arith, or-high_low 8 (a) (a << 8) (b << 0) (omega arith) (omega arith))

-- Three bytes in the upper part of a 32-bit word, from the top down and from the bottom up.
module _ (a b c : ℕ) (ha : a < 256) (hb : b < 256) (hc : c < 256) where
  pub big24 : (a << 24 ||| b << 16 ||| c << 8) ≡ a * 2 ^ 24 + b * 2 ^ 16 + c * 2 ^ 8
  big24 =
      let upto_2 : (a << 24 ||| b << 16) ≡ a * 2 ^ 24 + b * 2 ^ 16 =
        omega (arith, or-high_low 24 (a) (a << 24) (b << 16) (omega arith) (omega arith)) in
      omega (
        arith,
        upto_2,
        or-high_low 16 (a * 2 ^ 8 + b) (a << 24 ||| b << 16) (c << 8) (omega (arith, upto_2))
            (omega arith),
      )

  pub little24 : (a << 8 ||| b << 16 ||| c << 24) ≡ a * 2 ^ 8 + b * 2 ^ 16 + c * 2 ^ 24
  little24 =
      let upto_2 : (a << 8 ||| b << 16) ≡ a * 2 ^ 8 + b * 2 ^ 16 =
        omega (arith, or-low_high 16 b (b << 16) (a << 8) (omega arith) (omega arith)) in
      omega (
        arith,
        upto_2,
        or-low_high 24 c (c << 24) (a << 8 ||| b << 16) (omega arith) (omega (arith, upto_2)),
      )

-- Four bytes, from the top down and from the bottom up.
module _ (a b c d : ℕ) (ha : a < 256) (hb : b < 256) (hc : c < 256) (hd : d < 256) where
  pub big32 : (a << 24 ||| b << 16 ||| c << 8 ||| d << 0) ≡ a * 2 ^ 24 + b * 2 ^ 16 + c * 2 ^ 8 + d
  big32 =
      let upto_2 : (a << 24 ||| b << 16) ≡ a * 2 ^ 24 + b * 2 ^ 16 =
        omega (arith, or-high_low 24 (a) (a << 24) (b << 16) (omega arith) (omega arith)) in
      let upto_3 : (a << 24 ||| b << 16 ||| c << 8) ≡ a * 2 ^ 24 + b * 2 ^ 16 + c * 2 ^ 8 = omega (
        arith,
        upto_2,
        or-high_low 16 (a * 2 ^ 8 + b) (a << 24 ||| b << 16) (c << 8) (omega (arith, upto_2))
            (omega arith),
      ) in
      omega (
        arith,
        upto_3,
        or-high_low 8 (a * 2 ^ 16 + b * 2 ^ 8 + c) (a << 24 ||| b << 16 ||| c << 8) (d << 0)
            (omega (arith, upto_3)) (omega arith),
      )

  pub little32 :
      (a << 0 ||| b << 8 ||| c << 16 ||| d << 24) ≡ a + b * 2 ^ 8 + c * 2 ^ 16 + d * 2 ^ 24
  little32 =
      let upto_2 : (a << 0 ||| b << 8) ≡ a + b * 2 ^ 8 =
        omega (arith, or-low_high 8 b (b << 8) (a << 0) (omega arith) (omega arith)) in
      let upto_3 : (a << 0 ||| b << 8 ||| c << 16) ≡ a + b * 2 ^ 8 + c * 2 ^ 16 = omega (
        arith,
        upto_2,
        or-low_high 16 c (c << 16) (a << 0 ||| b << 8) (omega arith) (omega (arith, upto_2)),
      ) in
      omega (
        arith,
        upto_3,
        or-low_high 24 d (d << 24) (a << 0 ||| b << 8 ||| c << 16) (omega arith)
            (omega (arith, upto_3)),
      )

-- Eight bytes: the upper four come first in `big64`, the lower four in `little64`.
module _ (a b c d e f g h : ℕ) (ha : a < 256) (hb : b < 256) (hc : c < 256) (hd : d < 256)
    (he : e < 256) (hf : f < 256) (hg : g < 256) (hh : h < 256) where
  pub big64 :
      (a << 56 ||| b << 48 ||| c << 40 ||| d << 32 ||| e << 24 ||| f << 16 ||| g << 8 ||| h << 0)
      ≡ a * 2 ^ 56 + b * 2 ^ 48 + c * 2 ^ 40 + d * 2 ^ 32 + e * 2 ^ 24 + f * 2 ^ 16 + g * 2 ^ 8 + h
  big64 =
      let upto_2 : (a << 56 ||| b << 48) ≡ a * 2 ^ 56 + b * 2 ^ 48 =
        omega (arith, or-high_low 56 (a) (a << 56) (b << 48) (omega arith) (omega arith)) in
      let upto_3 : (a << 56 ||| b << 48 ||| c << 40) ≡ a * 2 ^ 56 + b * 2 ^ 48 + c * 2 ^ 40 =
        omega (
          arith,
          upto_2,
          or-high_low 48 (a * 2 ^ 8 + b) (a << 56 ||| b << 48) (c << 40) (omega (arith, upto_2))
              (omega arith),
        ) in
      let upto_4 : (a << 56 ||| b << 48 ||| c << 40 ||| d << 32)
          ≡ a * 2 ^ 56 + b * 2 ^ 48 + c * 2 ^ 40 + d * 2 ^ 32 =
        omega (
          arith,
          upto_3,
          or-high_low 40 (a * 2 ^ 16 + b * 2 ^ 8 + c) (a << 56 ||| b << 48 ||| c << 40) (d << 32)
              (omega (arith, upto_3)) (omega arith),
        ) in
      let upto_5 : (a << 56 ||| b << 48 ||| c << 40 ||| d << 32 ||| e << 24)
          ≡ a * 2 ^ 56 + b * 2 ^ 48 + c * 2 ^ 40 + d * 2 ^ 32 + e * 2 ^ 24 =
        omega (
          arith,
          upto_4,
          or-high_low 32 (a * 2 ^ 24 + b * 2 ^ 16 + c * 2 ^ 8 + d)
              (a << 56 ||| b << 48 ||| c << 40 ||| d << 32) (e << 24) (omega (arith, upto_4))
              (omega arith),
        ) in
      let upto_6 : (a << 56 ||| b << 48 ||| c << 40 ||| d << 32 ||| e << 24 ||| f << 16)
          ≡ a * 2 ^ 56 + b * 2 ^ 48 + c * 2 ^ 40 + d * 2 ^ 32 + e * 2 ^ 24 + f * 2 ^ 16 =
        omega (
          arith,
          upto_5,
          or-high_low 24 (a * 2 ^ 32 + b * 2 ^ 24 + c * 2 ^ 16 + d * 2 ^ 8 + e)
              (a << 56 ||| b << 48 ||| c << 40 ||| d << 32 ||| e << 24) (f << 16)
              (omega (arith, upto_5)) (omega arith),
        ) in
      let upto_7 : (a << 56 ||| b << 48 ||| c << 40 ||| d << 32 ||| e << 24 ||| f << 16 ||| g << 8)
          ≡ a * 2 ^ 56
            + b * 2 ^ 48
            + c * 2 ^ 40
            + d * 2 ^ 32
            + e * 2 ^ 24
            + f * 2 ^ 16
            + g * 2 ^ 8 =
        omega (
          arith,
          upto_6,
          or-high_low 16 (a * 2 ^ 40 + b * 2 ^ 32 + c * 2 ^ 24 + d * 2 ^ 16 + e * 2 ^ 8 + f)
              (a << 56 ||| b << 48 ||| c << 40 ||| d << 32 ||| e << 24 ||| f << 16) (g << 8)
              (omega (arith, upto_6)) (omega arith),
        ) in
      omega (
        arith,
        upto_7,
        or-high_low 8
            (a * 2 ^ 48 + b * 2 ^ 40 + c * 2 ^ 32 + d * 2 ^ 24 + e * 2 ^ 16 + f * 2 ^ 8 + g)
            (a << 56 ||| b << 48 ||| c << 40 ||| d << 32 ||| e << 24 ||| f << 16 ||| g << 8)
            (h << 0) (omega (arith, upto_7)) (omega arith),
      )

  pub little64 :
      (a << 0 ||| b << 8 ||| c << 16 ||| d << 24 ||| e << 32 ||| f << 40 ||| g << 48 ||| h << 56)
      ≡ a + b * 2 ^ 8 + c * 2 ^ 16 + d * 2 ^ 24 + e * 2 ^ 32 + f * 2 ^ 40 + g * 2 ^ 48 + h * 2 ^ 56
  little64 =
      let upto_2 : (a << 0 ||| b << 8) ≡ a + b * 2 ^ 8 =
        omega (arith, or-low_high 8 b (b << 8) (a << 0) (omega arith) (omega arith)) in
      let upto_3 : (a << 0 ||| b << 8 ||| c << 16) ≡ a + b * 2 ^ 8 + c * 2 ^ 16 = omega (
        arith,
        upto_2,
        or-low_high 16 c (c << 16) (a << 0 ||| b << 8) (omega arith) (omega (arith, upto_2)),
      ) in
      let upto_4 : (a << 0 ||| b << 8 ||| c << 16 ||| d << 24)
          ≡ a + b * 2 ^ 8 + c * 2 ^ 16 + d * 2 ^ 24 =
        omega (
          arith,
          upto_3,
          or-low_high 24 d (d << 24) (a << 0 ||| b << 8 ||| c << 16) (omega arith)
              (omega (arith, upto_3)),
        ) in
      let upto_5 : (a << 0 ||| b << 8 ||| c << 16 ||| d << 24 ||| e << 32)
          ≡ a + b * 2 ^ 8 + c * 2 ^ 16 + d * 2 ^ 24 + e * 2 ^ 32 =
        omega (
          arith,
          upto_4,
          or-low_high 32 e (e << 32) (a << 0 ||| b << 8 ||| c << 16 ||| d << 24) (omega arith)
              (omega (arith, upto_4)),
        ) in
      let upto_6 : (a << 0 ||| b << 8 ||| c << 16 ||| d << 24 ||| e << 32 ||| f << 40)
          ≡ a + b * 2 ^ 8 + c * 2 ^ 16 + d * 2 ^ 24 + e * 2 ^ 32 + f * 2 ^ 40 =
        omega (
          arith,
          upto_5,
          or-low_high 40 f (f << 40) (a << 0 ||| b << 8 ||| c << 16 ||| d << 24 ||| e << 32)
              (omega arith) (omega (arith, upto_5)),
        ) in
      let upto_7 : (a << 0 ||| b << 8 ||| c << 16 ||| d << 24 ||| e << 32 ||| f << 40 ||| g << 48)
          ≡ a + b * 2 ^ 8 + c * 2 ^ 16 + d * 2 ^ 24 + e * 2 ^ 32 + f * 2 ^ 40 + g * 2 ^ 48 =
        omega (
          arith,
          upto_6,
          or-low_high 48 g (g << 48)
              (a << 0 ||| b << 8 ||| c << 16 ||| d << 24 ||| e << 32 ||| f << 40) (omega arith)
              (omega (arith, upto_6)),
        ) in
      omega (
        arith,
        upto_7,
        or-low_high 56 h (h << 56)
            (a << 0 ||| b << 8 ||| c << 16 ||| d << 24 ||| e << 32 ||| f << 40 ||| g << 48)
            (omega arith) (omega (arith, upto_7)),
      )
