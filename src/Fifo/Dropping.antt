-- ===== src/Fifo/Dropping.antt =====
-- `avt_pkt_fifo_drop` and `avt_pkt_fifo_size`.
use qproto.Common.{
  ℕ, zero, suc, ◌+◌, ◌-◌, ◌≤◌, ◌<◌, ◌≡◌, arith, max, List, [], ◌∷◌, none, some, Result, ok, err,
  einval, get_elem?, take, ltb, Option-cases, inl, inr, ◌⊎◌, Bool-cases,
}
use qproto.Buffer.{AvtBuffer, Heap, buffer_quick_unref}
use qproto.Fifo.{AvtPktd, AvtPacketFifo, unref_slots}
use qproto.Fifo.Sizes.{pkt_fifo_drop}
use qproto.Fifo.Copying.{headers}

-- The payload of slot `i` refers to nothing.
abbrev pub IsBare : List AvtPktd → ℕ → Type 0
IsBare xs i = (x : AvtPktd) → get_elem? xs i ≡ some x → x.pl.refcnt ≡ none

unref-none :
    (b : AvtBuffer) (h : Heap) (r : AvtBuffer × Heap)
    → buffer_quick_unref b h ≡ some r
    → r.0.refcnt ≡ none
unfolding buffer_quick_unref
unref-none b h r e = ground arith

-- What a walk has done when its first slot is unreferenced.
unref_slots_here :
    (n : ℕ) (x : AvtPktd) (xs : List AvtPktd) (h : Heap) (r : List AvtPktd × Heap)
    → unref_slots 0 (suc n) (x ∷ xs) h ≡ some r
    → (a : AvtBuffer × Heap) × (q : List AvtPktd × Heap) × (buffer_quick_unref x.pl h ≡ some a)
      × (unref_slots 0 n xs a.1 ≡ some q)
      × (r.0 ≡ record x { pl = a.0 } ∷ q.0)
unfolding unref_slots
unref_slots_here n x xs h r e = elim (Option-cases (buffer_quick_unref x.pl h)) [
  | inl fault ↦ ground arith
  | inr (a, is) ↦ elim (Option-cases (unref_slots 0 n xs a.1)) [
    | inl fault ↦ ground arith
    | inr (q, rest) ↦ (a, q, is, rest, ground arith)
  ]
]

-- And when its first slot is skipped.
unref_slots_skip :
    (skip n : ℕ) (x : AvtPktd) (xs : List AvtPktd) (h : Heap) (r : List AvtPktd × Heap)
    → unref_slots (suc skip) (suc n) (x ∷ xs) h ≡ some r
    → (q : List AvtPktd × Heap) × (unref_slots skip (suc n) xs h ≡ some q) × (r.0 ≡ x ∷ q.0)
unfolding unref_slots
unref_slots_skip skip n x xs h r e = elim (Option-cases (unref_slots skip (suc n) xs h)) [
  | inl fault ↦ ground arith
  | inr (q, rest) ↦ (q, rest, ground arith)
]

unref_slots-headers :
    (skip n : ℕ) (xs : List AvtPktd) (h : Heap) (r : List AvtPktd × Heap)
    → unref_slots skip n xs h ≡ some r
    → headers r.0 ≡ headers xs
unfolding unref_slots
unref_slots-headers skip zero xs h r e = ground arith
unref_slots-headers skip (suc n) [] h r e = ground arith
unref_slots-headers zero (suc n) (x ∷ xs) h r e =
    let (a, q, is, rest, parts) = unref_slots_here n x xs h r e in
    ground (arith, unref_slots-headers zero n xs a.1 q rest)
unref_slots-headers (suc skip) (suc n) (x ∷ xs) h r e =
    let (q, rest, parts) = unref_slots_skip skip n x xs h r e in
    ground (arith, unref_slots-headers skip (suc n) xs h q rest)

-- The slots before the walk are untouched.
unref_slots-others :
    (skip n : ℕ) (xs : List AvtPktd) (h : Heap) (r : List AvtPktd × Heap)
    → unref_slots skip n xs h ≡ some r
    → take skip r.0 ≡ take skip xs
unfolding unref_slots
unref_slots-others skip zero xs h r e = ground arith
unref_slots-others skip (suc n) [] h r e = ground arith
unref_slots-others zero (suc n) (x ∷ xs) h r e = ground arith
unref_slots-others (suc skip) (suc n) (x ∷ xs) h r e =
    let (q, rest, parts) = unref_slots_skip skip n x xs h r e in
    ground (arith, unref_slots-others skip (suc n) xs h q rest)

unref_slots-IsBare :
    (skip n : ℕ) (xs : List AvtPktd) (h : Heap) (r : List AvtPktd × Heap)
    → unref_slots skip n xs h ≡ some r
    → (i : ℕ) → skip ≤ i
    → i < skip + n
    → IsBare r.0 i
unfolding unref_slots
unref_slots-IsBare skip zero xs h r e i lo hi y is = ground arith
unref_slots-IsBare skip (suc n) [] h r e i lo hi y is = ground arith
unref_slots-IsBare zero (suc n) (x ∷ xs) h r e zero lo hi y is =
    let (a, q, free, rest, parts) = unref_slots_here n x xs h r e in
    ground (arith, unref-none x.pl h a free)
unref_slots-IsBare zero (suc n) (x ∷ xs) h r e (suc i) lo hi y is =
    let (a, q, free, rest, parts) = unref_slots_here n x xs h r e in
    unref_slots-IsBare zero n xs a.1 q rest i (omega arith) (omega arith) y (ground arith)
unref_slots-IsBare (suc skip) (suc n) (x ∷ xs) h r e zero lo hi y is = ground arith
unref_slots-IsBare (suc skip) (suc n) (x ∷ xs) h r e (suc i) lo hi y is =
    let (q, rest, parts) = unref_slots_skip skip n x xs h r e in
    unref_slots-IsBare skip (suc n) xs h q rest i (omega arith) (omega arith) y (ground arith)

-- `avt_pkt_fifo_drop` with a number of packets unreferences the payloads of that many packets at the
-- end of the FIFO and changes no other packet. It takes none of them out: the count of packets and
-- their headers are what they were. With more packets asked for than there are it is EINVAL and
-- changes nothing.
pub pkt_fifo_drop_lem :
    (sizeof_pktd n ceiling : ℕ) (f : AvtPacketFifo) (h h' : Heap) (r : Result AvtPacketFifo)
    → 0 < n
    → pkt_fifo_drop sizeof_pktd f n ceiling h ≡ some (r, h')
    → (f.nb < n × (r ≡ err einval) × (h' ≡ h))
      ⊎ ((g : AvtPacketFifo) × (r ≡ ok g)
          × (n ≤ f.nb)
          × (g.nb ≡ f.nb)
          × (headers g.slots ≡ headers f.slots)
          × (take (f.nb - n) g.slots ≡ take (f.nb - n) f.slots)
          × ((i : ℕ) → f.nb - n ≤ i → i < f.nb → IsBare g.slots i))
unfolding pkt_fifo_drop
pkt_fifo_drop_lem sizeof_pktd n ceiling f h h' r some_n e = elim (Bool-cases (ltb f.nb n)) [
  | inl over ↦ inl (ground arith)
  | inr fits ↦ elim (Option-cases (unref_slots (f.nb - n) (f.nb - (f.nb - n)) f.slots h)) [
    | inl fault ↦ ground arith
    | inr (q, walk) ↦ inr (
      record f { slots = q.0; nb = max (f.nb - n) f.nb },
      ground arith,
      ground arith,
      ground arith,
      unref_slots-headers (f.nb - n) (f.nb - (f.nb - n)) f.slots h q walk,
      unref_slots-others (f.nb - n) (f.nb - (f.nb - n)) f.slots h q walk,
      (λ i lo hi.
          unref_slots-IsBare (f.nb - n) (f.nb - (f.nb - n)) f.slots h q walk i lo (omega arith)),
    )
  ]
]
