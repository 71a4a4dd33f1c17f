-- ===== src/Fifo/Sharing.antt =====
-- What the FIFO does to the references that its packets hold.
use qproto.Common.{
  ℕ, zero, suc, ◌+◌, ◌^◌, ◌≤◌, ◌<◌, ◌≡◌, refl, ◌∙◌, ap, arith, List, [], ◌∷◌, ◌++◌, none, some, ok,
  length, take, overwrite, u32, length-take,
}
use qproto.Buffer.{AvtBuffer, Heap}
use qproto.Buffer.Balance.{Balanced, buffer_quick_unref-Balanced}
use qproto.Fifo.{AvtPktd, AvtPacketFifo, unref_slots, pkt_fifo_clear}
use qproto.Fifo.Transfer.{pkt_fifo_move}
use qproto.Fifo.Queue.{contents, IsValid}

-- The payloads of packets.
abbrev pub payloads : List AvtPktd → List AvtBuffer
payloads [] = []
payloads (x ∷ xs) = x.pl ∷ payloads xs

-- What a walk over the first `n` slots leaves.
pub record Cleared (n : ℕ) (xs : List AvtPktd) (h : Heap) (bs : List AvtBuffer) : Type 0 where
  pub slots : List AvtPktd
  pub heap : Heap
  pub runs : unref_slots 0 n xs h ≡ some (slots, heap)
  pub balanced : Balanced heap bs
  pub same_length : length slots ≡ length xs

unref_slots-Cleared :
    (n : ℕ) (xs : List AvtPktd) (h : Heap) (bs : List AvtBuffer)
    → n ≤ length xs
    → Balanced h (payloads (take n xs) ++ bs)
    → Cleared n xs h bs
unfolding unref_slots
unref_slots-Cleared zero xs h bs fits bal = record {
  slots = xs;
  heap = h;
  runs = refl;
  balanced = bal;
  same_length = refl;
}
unref_slots-Cleared (suc n) [] h bs fits bal = absurd (omega arith)
unref_slots-Cleared (suc n) (x ∷ xs) h bs fits bal =
    let u = buffer_quick_unref-Balanced x.pl (payloads (take n xs) ++ bs) h bal in
    let rest = unref_slots-Cleared n xs u.heap bs (omega arith) u.balanced in
    record {
      slots = record x { pl = u.buf } ∷ rest.slots;
      heap = rest.heap;
      runs = rw (u.runs, rest.runs) refl;
      balanced = rest.balanced;
      same_length = ap suc rest.same_length;
    }

-- Clearing a FIFO whose references are counted never faults, leaves no packet, and drops exactly the
-- references of its packets.
pub pkt_fifo_clear_lem :
    (f : AvtPacketFifo) (h : Heap) (bs : List AvtBuffer)
    → IsValid f
    → Balanced h (payloads (contents f) ++ bs)
    → (g : AvtPacketFifo) × (h' : Heap) × (pkt_fifo_clear f h ≡ some (g, h'))
      × (contents g ≡ [])
      × IsValid g
      × Balanced h' bs
unfolding pkt_fifo_clear
pkt_fifo_clear_lem f h bs v bal =
    let c = unref_slots-Cleared f.nb f.slots h bs (omega (arith, v.allocated, v.within)) bal in
    (
      record f { slots = c.slots; nb = 0 },
      c.heap,
      rw (c.runs) refl,
      refl,
      record { allocated = c.same_length ∙ v.allocated; within = omega arith },
      c.balanced,
    )

take-overwrite_end :
    (n : ℕ) (xs vs : List AvtPktd) (k : ℕ)
    → k ≡ n + length vs
    → k ≤ length xs
    → take k (overwrite xs n vs) ≡ take n xs ++ vs
take-overwrite_end zero xs [] zero e fits = refl
take-overwrite_end zero xs [] (suc k) e fits = absurd (omega arith)
take-overwrite_end zero [] (v ∷ vs) k e fits = absurd (omega arith)
take-overwrite_end zero (x ∷ xs) (v ∷ vs) zero e fits = absurd (omega arith)
take-overwrite_end zero (x ∷ xs) (v ∷ vs) (suc k) e fits =
    ap (λ ys. v ∷ ys) (take-overwrite_end zero xs vs k (omega arith) (omega arith))
take-overwrite_end (suc n) xs vs zero e fits = absurd (omega arith)
take-overwrite_end (suc n) [] vs (suc k) e fits = absurd (omega arith)
take-overwrite_end (suc n) (x ∷ xs) vs (suc k) e fits =
    ap (λ ys. x ∷ ys) (take-overwrite_end n xs vs k (omega arith) (omega arith))

-- Moving packets where there is room puts them behind those of the destination, in order, and empties
-- the source; but it drops the references of the packets that it has moved: the counters are then
-- those of a program without the moved packets.
pub pkt_fifo_move_lem :
    (dst src : AvtPacketFifo) (h : Heap) (bs : List AvtBuffer)
    → IsValid dst
    → IsValid src
    → dst.nb + src.nb < dst.alloc
    → dst.alloc < 2 ^ 32
    → Balanced h (payloads (contents src) ++ bs)
    → (g left : AvtPacketFifo) × (h' : Heap) × (pkt_fifo_move none dst src h
        ≡ some (ok (g, left), h'))
      × (contents g ≡ contents dst ++ contents src)
      × (contents left ≡ [])
      × Balanced h' bs
unfolding pkt_fifo_move
pkt_fifo_move_lem dst src h bs vd vs room small bal =
    let (c, hc, runs, empty, vc, balanced) = pkt_fifo_clear_lem src h bs vs bal in
    let packets : List AvtPktd = take src.nb src.slots in
    let taken : length packets ≡ src.nb =
      omega (arith, length-take src.nb src.slots, vs.allocated, vs.within) in
    (
      record dst { slots = overwrite dst.slots dst.nb packets; nb = u32 (dst.nb + src.nb) },
      c,
      hc,
      ground (arith, runs),
      take-overwrite_end dst.nb dst.slots packets _ (omega arith) (omega (arith, vd.allocated)),
      empty,
      balanced,
    )
