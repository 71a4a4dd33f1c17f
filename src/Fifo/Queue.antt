-- ===== src/Fifo/Queue.antt =====
-- Pushes that hand their packet over, and pops, make the FIFO a queue.
use qproto.Common.{
  leb, if◌then◌else◌, ◌==◌, Bool-cases, inl, inr, ℕ, zero, suc, ◌+◌, ◌-◌, ◌*◌, ◌^◌, ◌≤◌, ◌<◌, ◌≡◌,
  ◌≢◌, refl, ◌∙◌, ap, arith, max, true, List, [], ◌∷◌, ◌++◌, Option, none, some, ok, err, enoent,
  length, set, take, replicate, overwrite, u32, length-set, length-overwrite, length-take,
  length-append, length-replicate,
}
use qproto.Buffer.{Heap, null_buffer}
use qproto.Fifo.{AvtPktd, AvtPacketFifo, make_room, pkt_fifo_push_refd_d, pkt_fifo_pop_d}

-- The packets in the FIFO, the oldest first.
abbrev pub contents : AvtPacketFifo → List AvtPktd
contents f = take f.nb f.slots

pub record IsValid (f : AvtPacketFifo) : Type 0 where
  pub allocated : length f.slots ≡ f.alloc
  pub within : f.nb ≤ f.alloc

pub take-set_end :
    (xs : List AvtPktd) (n : ℕ) (p : AvtPktd)
    → n < length xs
    → take (suc n) (set xs n p) ≡ take n xs ++ (p ∷ [])
take-set_end [] n p h = absurd (omega arith)
take-set_end (x ∷ xs) zero p h = refl
take-set_end (x ∷ xs) (suc n) p h = ap (λ ys. x ∷ ys) (take-set_end xs n p (omega arith))

take-take-append :
    (xs ys : List AvtPktd) (n k : ℕ)
    → n ≤ length xs
    → n ≤ k
    → take n (take k (xs ++ ys)) ≡ take n xs
take-take-append xs ys zero k h l = refl
take-take-append [] ys (suc n) k h l = absurd (omega arith)
take-take-append (x ∷ xs) ys (suc n) zero h l = absurd (omega arith)
take-take-append (x ∷ xs) ys (suc n) (suc k) h l =
    ap (λ zs. x ∷ zs) (take-take-append xs ys n k (omega arith) (omega arith))

take-overwrite :
    (xs vs : List AvtPktd) → length vs ≤ length xs → take (length vs) (overwrite xs 0 vs) ≡ vs
take-overwrite [] [] h = refl
take-overwrite (x ∷ xs) [] h = refl
take-overwrite [] (v ∷ vs) h = absurd (omega arith)
take-overwrite (x ∷ xs) (v ∷ vs) h = ap (λ ys. v ∷ ys) (take-overwrite xs vs (omega arith))

-- The FIFO after the check for room, if `realloc` succeeds.
abbrev pub roomy : AvtPktd → AvtPacketFifo → AvtPacketFifo
roomy junk f =
    let n : ℕ = max (u32 (f.alloc * 2)) 1 in
    if leb f.alloc (u32 (f.nb + 1))
    then record f { slots = take n (f.slots ++ replicate (n - length f.slots) junk); alloc = n }
    else f

-- It has a slot for one more packet, and the same packets.
pub record HasRoom (f g : AvtPacketFifo) : Type 0 where
  pub valid : IsValid g
  pub same_nb : g.nb ≡ f.nb
  pub room : g.nb < g.alloc
  pub same : contents g ≡ contents f
  pub growth : g.alloc ≤ max f.alloc (2 * f.nb + 2)

pub make_room_lem :
    (junk : AvtPktd) (f : AvtPacketFifo) → make_room (some junk) f ≡ ok (roomy junk f)
unfolding make_room
make_room_lem junk f = ground arith

pub roomy-HasRoom :
    (junk : AvtPktd) (f : AvtPacketFifo) → IsValid f → f.alloc < 2 ^ 31 → HasRoom f (roomy junk f)
roomy-HasRoom junk f v small =
    let n : ℕ = max (u32 (f.alloc * 2)) 1 in
    let fill : List AvtPktd = replicate (n - length f.slots) junk in
    ground (
      arith,
      length-take n (f.slots ++ fill),
      length-append f.slots fill,
      length-replicate (n - length f.slots) junk,
      take-take-append f.slots fill f.nb n,
    )

-- A pushed packet comes last, and its payload has left the caller's packet.
pub pkt_fifo_push_refd_d_lem :
    (junk : AvtPktd) (f : AvtPacketFifo) (p : AvtPktd)
    → IsValid f
    → f.alloc < 2 ^ 31
    → (g : AvtPacketFifo) × (pkt_fifo_push_refd_d (some junk) f p
        ≡ ok (g, record p { pl = null_buffer }))
      × IsValid g
      × (contents g ≡ contents f ++ (p ∷ []))
      × (g.nb ≡ f.nb + 1)
      × (g.alloc ≤ max f.alloc (2 * f.nb + 2))
unfolding pkt_fifo_push_refd_d
pkt_fifo_push_refd_d_lem junk f p v small =
    let g = roomy junk f in
    let r = roomy-HasRoom junk f v small in
    let one_more : u32 (g.nb + 1) ≡ suc g.nb =
      omega (arith, r.room, r.growth, r.same_nb, v.within) in
    let last = take-set_end g.slots g.nb p (omega (arith, r.valid.allocated, r.room)) in
    (
      record g { slots = set g.slots g.nb p; nb = u32 (g.nb + 1) },
      ground (arith, make_room_lem junk f),
      record {
        allocated = length-set g.slots g.nb p ∙ r.valid.allocated;
        within = omega (arith, r.room);
      },
      ap (λ (k : ℕ). take k (set g.slots g.nb p)) one_more
          ∙ last
          ∙ ap (λ xs. xs ++ (p ∷ [])) r.same,
      omega (arith, r.room, r.same_nb, r.growth),
      r.growth,
    )

-- A pop, over the fields of the FIFO.
popped :
    (xs : List AvtPktd) (nb alloc : ℕ) (h : Heap)
    → length xs ≡ alloc
    → nb ≤ alloc
    → nb ≢ 0
    → let f : AvtPacketFifo = record { slots = xs; nb = nb; alloc = alloc } in
      (p : AvtPktd) × (g : AvtPacketFifo) × (pkt_fifo_pop_d f true h ≡ some (ok (g, some p), h))
      × IsValid g
      × (contents f ≡ p ∷ contents g)
      × (g.nb + 1 ≡ f.nb)
      × (g.alloc ≡ f.alloc)
unfolding pkt_fifo_pop_d
popped [] nb alloc h a w n = absurd (omega arith)
popped (x ∷ xs) zero alloc h a w n = absurd (n refl)
popped (x ∷ xs) (suc n) alloc h a w ne =
    let rest : List AvtPktd = take (suc n - 1) xs in
    let one_less : suc n - 1 ≡ n = omega arith in
    (
      x,
      record { slots = overwrite (x ∷ xs) 0 rest; nb = suc n - 1; alloc = alloc },
      ground arith,
      record { allocated = length-overwrite (x ∷ xs) 0 rest ∙ a; within = omega arith },
      ground (
        arith,
        take-overwrite (x ∷ xs) rest,
        length-take (suc n - 1) xs,
        ap (λ (k : ℕ). take k xs) one_less,
      ),
      omega arith,
      refl,
    )

-- A pop hands out the oldest packet and leaves the others in order.
pub pkt_fifo_pop_d_lem :
    (f : AvtPacketFifo) (h : Heap)
    → IsValid f
    → f.nb ≢ 0
    → (p : AvtPktd) × (g : AvtPacketFifo) × (pkt_fifo_pop_d f true h ≡ some (ok (g, some p), h))
      × IsValid g
      × (contents f ≡ p ∷ contents g)
      × (g.nb + 1 ≡ f.nb)
      × (g.alloc ≡ f.alloc)
unfolding pkt_fifo_pop_d
pkt_fifo_pop_d_lem f h v some_left = popped f.slots f.nb f.alloc h v.allocated v.within some_left

-- A user's calls, and the queue that they are meant for.
pub data Op : Type 0 where
  push : AvtPktd → Op
  pop : Op

pub run : AvtPktd → List Op → AvtPacketFifo → Heap → List (Option AvtPktd)
run junk [] f h = []
run junk (push p ∷ ops) f h = elim (pkt_fifo_push_refd_d (some junk) f p) [
  | err e ↦ []
  | ok (g, left) ↦ none ∷ run junk ops g h
]
run junk (pop ∷ ops) f h = elim (pkt_fifo_pop_d f true h) [
  | none ↦ []
  | some (err e, h') ↦ none ∷ run junk ops f h'
  | some (ok (g, out), h') ↦ out ∷ run junk ops g h'
]

unfoldable pub run_queue : List Op → List AvtPktd → List (Option AvtPktd)
run_queue [] q = []
run_queue (push p ∷ ops) q = none ∷ run_queue ops (q ++ (p ∷ []))
run_queue (pop ∷ ops) [] = none ∷ run_queue ops []
run_queue (pop ∷ ops) (p ∷ q) = some p ∷ run_queue ops q

pop_empty :
    (f : AvtPacketFifo) (h : Heap) → f.nb ≡ 0 → pkt_fifo_pop_d f true h ≡ some (err enoent, h)
unfolding pkt_fifo_pop_d
pop_empty f h e = ground arith

-- The bound leaves room for the doublings of every push to come.
abbrev pub IsRoomy : List Op → AvtPacketFifo → Type 0
IsRoomy ops f = (f.alloc < 2 ^ 31) × (2 * (f.nb + length ops) < 2 ^ 31)

-- Over any sequence of pushes and pops, too short for the doubled allocation to reach 2^31 slots,
-- the FIFO answers as a queue does: nothing is lost, repeated or reordered, and no call faults.
pub run_refines :
    (junk : AvtPktd) (ops : List Op) (f : AvtPacketFifo) (h : Heap)
    → IsValid f
    → IsRoomy ops f
    → run junk ops f h ≡ run_queue ops (contents f)
unfolding run run_queue
run_refines junk [] f h v room = refl
run_refines junk (push p ∷ ops) f h v room =
    let (g, runs, valid, queue, one_more, growth) =
      pkt_fifo_push_refd_d_lem junk f p v (omega arith) in
    ground (arith, runs, queue, run_refines junk ops g h valid (omega arith, omega arith))
run_refines junk (pop ∷ ops) f h v room = elim (Bool-cases (f.nb == 0)) [
  | inl empty ↦
      let none_left : f.nb ≡ 0 = ground arith in
      ground (
        arith,
        pop_empty f h none_left,
        run_refines junk ops f h v (room.0, omega arith),
        ap (λ (k : ℕ). take k f.slots) none_left,
      )
  | inr left ↦
      let (p, g, runs, valid, queue, one_less, same_alloc) =
        pkt_fifo_pop_d_lem f h v (ground arith) in
      ground (arith, runs, queue, run_refines junk ops g h valid (omega arith, omega arith))
]
