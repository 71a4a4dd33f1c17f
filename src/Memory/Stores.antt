-- ===== src/Memory/Stores.antt =====
-- A load after the store of the same macro pair, for every value that is stored.
use mathlib.Core.List.{[], ◌∷◌}
use qproto.Common.{
  ℕ, ◌+◌, ◌-◌, ◌*◌, ◌/◌, ◌%◌, ◌^◌, ◌≤◌, ◌<◌, ◌≡◌, arith, length, u8, u16, u32, u64, ◌>>◌,
  get_or-overwrite_in, get_or-overwrite_out, inr,
}
use qproto.Memory.{Memory, byte, wb8, wl8, wb16, wl16, wb24, wl24, wb32, wl32, wb64, wl64}
use qproto.Memory.{rb8, rl8, rb16, rl16, rb24, rl24, rb32, rl32, rb64, rl64}
use qproto.Memory.Loads.{big16, big24, little24, big32, little32, big64, little64}

module _ (m : Memory) (p v : ℕ) where
  pub rb8-wb8 : p + 1 ≤ length m → rb8 (wb8 m p v) p ≡ v % 2 ^ 8
  unfolding rb8 wb8
  rb8-wb8 fits = get_or-overwrite_in m p (u8 v ∷ []) p 0 0 (omega arith) (omega arith) (omega arith)

  pub rl8-wl8 : p + 1 ≤ length m → rl8 (wl8 m p v) p ≡ v % 2 ^ 8
  unfolding rl8 wl8
  rl8-wl8 fits = get_or-overwrite_in m p (u8 v ∷ []) p 0 0 (omega arith) (omega arith) (omega arith)

  pub rb16-wb16 : p + 2 ≤ length m → rb16 (wb16 m p v) p ≡ v % 2 ^ 16
  unfolding rb16 wb16
  rb16-wb16 fits =
      let d : ℕ = u16 v in
      let bs : Memory = u8 (d >> 8) ∷ u8 (d >> 0) ∷ [] in
      ground (
        arith,
        get_or-overwrite_in m p bs p 0 0,
        get_or-overwrite_in m p bs (p + 1) 1 0,
        big16 (u8 (d >> 8)) (u8 (d >> 0)),
      )

  pub rb32-wb32 : p + 4 ≤ length m → rb32 (wb32 m p v) p ≡ v % 2 ^ 32
  unfolding rb32 wb32
  rb32-wb32 fits =
      let d : ℕ = u32 v in
      let bs : Memory = u8 (d >> 24) ∷ u8 (d >> 16) ∷ u8 (d >> 8) ∷ u8 (d >> 0) ∷ [] in
      ground (
        arith,
        get_or-overwrite_in m p bs p 0 0,
        get_or-overwrite_in m p bs (p + 1) 1 0,
        get_or-overwrite_in m p bs (p + 2) 2 0,
        get_or-overwrite_in m p bs (p + 3) 3 0,
        big32 (u8 (d >> 24)) (u8 (d >> 16)) (u8 (d >> 8)) (u8 (d >> 0)),
      )

  pub rl32-wl32 : p + 4 ≤ length m → rl32 (wl32 m p v) p ≡ v % 2 ^ 32
  unfolding rl32 wl32
  rl32-wl32 fits =
      let d : ℕ = u32 v in
      let bs : Memory = u8 (d >> 0) ∷ u8 (d >> 8) ∷ u8 (d >> 16) ∷ u8 (d >> 24) ∷ [] in
      ground (
        arith,
        get_or-overwrite_in m p bs p 0 0,
        get_or-overwrite_in m p bs (p + 1) 1 0,
        get_or-overwrite_in m p bs (p + 2) 2 0,
        get_or-overwrite_in m p bs (p + 3) 3 0,
        little32 (u8 (d >> 0)) (u8 (d >> 8)) (u8 (d >> 16)) (u8 (d >> 24)),
      )

  pub rb64-wb64 : p + 8 ≤ length m → rb64 (wb64 m p v) p ≡ v % 2 ^ 64
  unfolding rb64 wb64
  rb64-wb64 fits =
      let d : ℕ = u64 v in
      let bs : Memory =
        u8 (d >> 56)
        ∷ u8 (d >> 48)
        ∷ u8 (d >> 40)
        ∷ u8 (d >> 32)
        ∷ u8 (d >> 24)
        ∷ u8 (d >> 16)
        ∷ u8 (d >> 8)
        ∷ u8 (d >> 0)
        ∷ [] in
      ground (
        arith,
        get_or-overwrite_in m p bs p 0 0,
        get_or-overwrite_in m p bs (p + 1) 1 0,
        get_or-overwrite_in m p bs (p + 2) 2 0,
        get_or-overwrite_in m p bs (p + 3) 3 0,
        get_or-overwrite_in m p bs (p + 4) 4 0,
        get_or-overwrite_in m p bs (p + 5) 5 0,
        get_or-overwrite_in m p bs (p + 6) 6 0,
        get_or-overwrite_in m p bs (p + 7) 7 0,
        big64 (u8 (d >> 56)) (u8 (d >> 48)) (u8 (d >> 40)) (u8 (d >> 32)) (u8 (d >> 24))
            (u8 (d >> 16)) (u8 (d >> 8)) (u8 (d >> 0)),
      )

  pub rl64-wl64 : p + 8 ≤ length m → rl64 (wl64 m p v) p ≡ v % 2 ^ 64
  unfolding rl64 wl64
  rl64-wl64 fits =
      let d : ℕ = u64 v in
      let bs : Memory =
        u8 (d >> 0)
        ∷ u8 (d >> 8)
        ∷ u8 (d >> 16)
        ∷ u8 (d >> 24)
        ∷ u8 (d >> 32)
        ∷ u8 (d >> 40)
        ∷ u8 (d >> 48)
        ∷ u8 (d >> 56)
        ∷ [] in
      ground (
        arith,
        get_or-overwrite_in m p bs p 0 0,
        get_or-overwrite_in m p bs (p + 1) 1 0,
        get_or-overwrite_in m p bs (p + 2) 2 0,
        get_or-overwrite_in m p bs (p + 3) 3 0,
        get_or-overwrite_in m p bs (p + 4) 4 0,
        get_or-overwrite_in m p bs (p + 5) 5 0,
        get_or-overwrite_in m p bs (p + 6) 6 0,
        get_or-overwrite_in m p bs (p + 7) 7 0,
        little64 (u8 (d >> 0)) (u8 (d >> 8)) (u8 (d >> 16)) (u8 (d >> 24)) (u8 (d >> 32))
            (u8 (d >> 40)) (u8 (d >> 48)) (u8 (d >> 56)),
      )

  -- AVT_RL16 reads the bytes of AVT_WL16 in the other order.
  pub rl16-wl16 : p + 2 ≤ length m → rl16 (wl16 m p v) p ≡ v % 2 ^ 8 * 2 ^ 8 + v / 2 ^ 8 % 2 ^ 8
  unfolding rl16 wl16
  rl16-wl16 fits =
      let d : ℕ = u16 v in
      let bs : Memory = u8 (d >> 0) ∷ u8 (d >> 8) ∷ [] in
      ground (
        arith,
        get_or-overwrite_in m p bs p 0 0,
        get_or-overwrite_in m p bs (p + 1) 1 0,
        big16 (u8 (d >> 0)) (u8 (d >> 8)),
      )

  -- A 24-bit word holds the upper three bytes of a 32-bit value.
  pub rb24-wb24 : p + 3 ≤ length m → rb24 (wb24 m p v) p ≡ v % 2 ^ 32 - v % 2 ^ 8
  unfolding rb24 wb24
  rb24-wb24 fits =
      let d : ℕ = u32 v in
      let bs : Memory = u8 (d >> 24) ∷ u8 (d >> 16) ∷ u8 (d >> 8) ∷ [] in
      ground (
        arith,
        get_or-overwrite_in m p bs p 0 0,
        get_or-overwrite_in m p bs (p + 1) 1 0,
        get_or-overwrite_in m p bs (p + 2) 2 0,
        big24 (u8 (d >> 24)) (u8 (d >> 16)) (u8 (d >> 8)),
      )

  -- AVT_RL24 takes its top byte from past the word.
  pub rl24-wl24 :
      byte m (p + 3) < 256
      → p + 3 ≤ length m
      → rl24 (wl24 m p v) p ≡ v % 2 ^ 24 - v % 2 ^ 8 + byte m (p + 3) * 2 ^ 24
  unfolding rl24 wl24
  rl24-wl24 small fits =
      let d : ℕ = u32 v in
      let bs : Memory = u8 (d >> 8) ∷ u8 (d >> 16) ∷ u8 (d >> 24) ∷ [] in
      ground (
        arith,
        get_or-overwrite_in m p bs p 0 0,
        get_or-overwrite_in m p bs (p + 1) 1 0,
        get_or-overwrite_out m p bs (p + 3) 0 (inr (omega arith)),
        little24 (u8 (d >> 8)) (u8 (d >> 16)) (byte m (p + 3)),
      )
