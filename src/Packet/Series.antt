-- ===== src/Packet/Series.antt =====
-- `avt_packet_change_size` against `avt_packet_series`.
use mathlib.Core.Path.{subst}
use qproto.Common.{
  ◌==◌, ℕ, ◌≤◌, ◌≡◌, if◌then◌else◌, eq_of_some, Option-cases, inl, inr, ltb, refl, Bool, true,
  false, Option, none, some, arith,
}
use qproto.Common.Int.{ℤ, pos, negsuc}
use qproto.Packet.{
  AvtPacketData, Body, StreamData, FecGroupData, Segmented, SizedData, SeriesOut, fec_group_data,
  segment, parity, packet_series, packet_change_size, series_of, resize, resize_sized, sized_series,
}

-- Where the packets that have a place in the whole begin.
abbrev pub place_of : Body → ℕ → ℕ
place_of (fec_group_data d) off = off
place_of (segment k s) off = off
place_of (parity k s) off = off
place_of _ off = 0

-- Stream data does not say how much there is in all, if something is missing.
abbrev pub total_of : Body → ℕ → ℕ → ℕ
total_of (Body.stream_data d) len tot = if len == tot then tot else 0
total_of _ len tot = tot

-- FEC data says nothing of parity.
abbrev pub parity_of : Body → Option Bool
parity_of (fec_group_data d) = none
parity_of (parity k s) = some true
parity_of _ = some false

-- A piece returns -1, and any other packet 0 or, if something is missing, 1.
abbrev pub answer_of : Body → ℕ → ℕ → ℤ
answer_of (segment k s) len tot = negsuc 0
answer_of (parity k s) len tot = negsuc 0
answer_of _ len tot = if len == tot then pos 0 else pos 1

-- What is reported of a packet that carries `len` of `tot` bytes, from byte `off` on.
abbrev pub description : ℕ → ℕ → ℕ → Body → ℤ × Option SeriesOut
description off len tot kind = (
  answer_of kind len tot,
  some (record {
    is_parity = parity_of kind;
    off = place_of kind off;
    cur = len;
    tot = total_of kind len tot;
  }),
)

module _ (off len tot : ℕ) (fits : len ≤ tot) where
  reported :
      (b b' : Body) (r : ℤ × Option SeriesOut)
      → series_of b ≡ r
      → some b ≡ some b'
      → series_of b' ≡ r
  reported b b' r d h = subst (λ x. series_of x ≡ r) (eq_of_some h) d

  sized-series :
      (d : SizedData)
      → sized_series (resize_sized d len tot) ≡ description off len tot (Body.metadata d)
  sized-series d = ground arith

  stream-series :
      (d : StreamData)
      → series_of (Body.stream_data (record d { data_length = len; pkt_segmented = ltb len tot }))
        ≡ description off len tot (Body.stream_data d)
  unfolding series_of
  stream-series d = ground arith

  fec-series :
      (d : FecGroupData)
      → series_of (
          fec_group_data
            (record { fec_data_length = len; fec_total_data_length = tot; fec_data_offset = off }))
        ≡ description off len tot (fec_group_data d)
  unfolding series_of
  fec-series d = ground arith

  resize-series :
      (b b' : Body) → resize b off len tot ≡ some b' → series_of b' ≡ description off len tot b
  unfolding resize series_of
  resize-series (Body.stream_config d) b' h = reported _ b' _ (sized-series d) h
  resize-series (Body.metadata d) b' h = reported _ b' _ (sized-series d) h
  resize-series (Body.user_data d) b' h = reported _ b' _ (sized-series d) h
  resize-series (Body.lut_icc d) b' h = reported _ b' _ (sized-series d) h
  resize-series (Body.font_data d) b' h = reported _ b' _ (sized-series d) h
  resize-series (Body.stream_data d) b' h = reported _ b' _ (stream-series d) h
  resize-series (fec_group_data d) b' h = reported _ b' _ (fec-series d) h
  resize-series (segment Segmented.stream_config s) b' h = cc
  resize-series (parity Segmented.stream_config s) b' h = cc
  resize-series (segment k s) b' h = reported _ b' _ refl h
  resize-series (parity k s) b' h = reported _ b' _ refl h
  resize-series _ b' h = cc

-- A packet whose size was changed to `len` of `tot` bytes, from byte `off` on, keeps its sequence number
-- and its stream, and `avt_packet_series` reports of it just that: segments and parity packets are
-- pieces, with their place and the whole length; any other packet is complete exactly when `len` is
-- `tot`, with the place for FEC data and 0 for the others, and with the whole length, for which stream
-- data says 0 when something is missing.
pub packet_series-packet_change_size :
    (p p' : AvtPacketData) (off len tot : ℕ)
    → len ≤ tot
    → packet_change_size p off len tot ≡ some p'
    → (packet_series p' ≡ description off len tot p.body)
      × (p'.seq ≡ p.seq)
      × (p'.stream_id ≡ p.stream_id)
unfolding packet_change_size packet_series
packet_series-packet_change_size p p' off len tot fits h =
    elim (Option-cases (resize p.body off len tot)) [
      | inl e ↦ absurd (ground arith)
      | inr (b, e) ↦
          let same : record p { body = b } ≡ p' = ground arith in
          (
            subst (λ (q : AvtPacketData). series_of q.body ≡ description off len tot p.body) same
                (resize-series off len tot fits p.body b e),
            ground arith,
            ground arith,
          )
    ]
