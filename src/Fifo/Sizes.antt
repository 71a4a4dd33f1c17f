-- ===== src/Fifo/Sizes.antt =====
-- libavtransport/utils.c: `avt_pkt_fifo_drop` and `avt_pkt_fifo_size`.
use qproto.Common.{
  ◌>>=◌, ℕ, zero, suc, ◌+◌, ◌-◌, ◌*◌, ◌%◌, ◌^◌, max, List, [], ◌∷◌, Option, some, Result, ok, err,
  einval, ltb, ◌==◌, if◌then◌else◌,
}
use qproto.Buffer.{Heap, buffer_get_data_len}
use qproto.Fifo.{AvtPktd, AvtPacketFifo, unref_slots}

-- `sizeof_pktd` is `sizeof(AVTPktd)`, which depends on the platform and the generated headers.
module _ (sizeof_pktd : ℕ) where
  pub pkt_fifo_get_entry_size : AvtPktd → ℕ
  pkt_fifo_get_entry_size e = (sizeof_pktd + buffer_get_data_len e.pl) % 2 ^ 64

  -- The first index at which the sum passes the ceiling; 0 if none of the `n` packets does.
  pub first_over : ℕ → ℕ → ℕ → ℕ → List AvtPktd → ℕ
  unfolding pkt_fifo_get_entry_size
  first_over zero i acc ceiling xs = 0
  first_over (suc n) i acc ceiling [] = 0
  first_over (suc n) i acc ceiling (x ∷ xs) =
      let acc' = (acc + pkt_fifo_get_entry_size x) % 2 ^ 64 in
      let rest = first_over n (i + 1) acc' ceiling xs in if ltb ceiling acc' then i else rest

  -- The loop ends with `idx` at `fifo->nb`, which is then stored back.
  unfoldable pub pkt_fifo_drop : AvtPacketFifo → ℕ → ℕ → Heap → Option (Result AvtPacketFifo × Heap)
  unfolding first_over unref_slots
  pkt_fifo_drop f nb_pkts ceiling h =
      let idx = if nb_pkts == 0 then first_over f.nb 0 0 ceiling f.slots else f.nb - nb_pkts in
      if ltb f.nb nb_pkts
      then some (err einval, h)
      else unref_slots idx (f.nb - idx) f.slots h >>= λ (xs, h').
          some (ok (record f { slots = xs; nb = max idx f.nb }), h')

  pub payload_sum : ℕ → List AvtPktd → ℕ → ℕ
  payload_sum zero xs acc = acc
  payload_sum (suc n) [] acc = acc
  payload_sum (suc n) (x ∷ xs) acc = payload_sum n xs ((acc + buffer_get_data_len x.pl) % 2 ^ 64)

  pub pkt_fifo_size : AvtPacketFifo → ℕ
  unfolding payload_sum
  pkt_fifo_size f = payload_sum f.nb f.slots (f.nb * sizeof_pktd % 2 ^ 64)
