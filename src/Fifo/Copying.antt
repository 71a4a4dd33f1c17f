-- ===== src/Fifo/Copying.antt =====
-- `avt_pkt_fifo_copy`, and pushes into a slot that a packet has left.
use qproto.Common.{
  ℕ, zero, suc, ◌+◌, ◌-◌, ◌^◌, ◌<◌, ◌≡◌, ◌≢◌, refl, ◌∙◌, ap, arith, List, [], ◌∷◌, none, some, ok,
  length, get_elem?, set, u32, Option-cases, inl, inr,
}
use qproto.Packet.{AvtPacketData}
use qproto.Buffer.{update, AvtBuffer, Heap, buffer_quick_ref}
use qproto.Fifo.{AvtPktd, AvtPacketFifo, pkt_fifo_push_d}
use qproto.Fifo.Transfer.{pkt_fifo_copy, copy_slots}
use qproto.Fifo.Queue.{IsValid}

-- The packets without their payloads.
abbrev pub headers : List AvtPktd → List AvtPacketData
headers [] = []
headers (x ∷ xs) = x.pkt ∷ headers xs

headers-set :
    (xs : List AvtPktd) (i : ℕ) (x y : AvtPktd)
    → get_elem? xs i ≡ some x
    → y.pkt ≡ x.pkt
    → headers (set xs i y) ≡ headers xs
headers-set [] i x y e k = refl
headers-set (z ∷ zs) zero x y e k = ground (arith)
headers-set (z ∷ zs) (suc i) x y e k = ap (λ ps. z.pkt ∷ ps) (headers-set zs i x y e k)

copy_slots-headers :
    (n at i : ℕ) (ds ss ds' ss' : List AvtPktd) (h h' : Heap)
    → copy_slots n at i ds ss h ≡ some (ds', ss', h')
    → headers ds' ≡ headers ds
unfolding copy_slots
copy_slots-headers zero at i ds ss ds' ss' h h' e = ground arith
copy_slots-headers (suc n) at i ds ss ds' ss' h h' e = elim (Option-cases (get_elem? ds at)) [
  | inl past ↦ absurd (ground (arith))
  | inr (p, here) ↦ elim (Option-cases (get_elem? ss i)) [
    | inl past ↦ absurd (ground arith)
    | inr (q, there) ↦ elim (Option-cases (buffer_quick_ref p.pl p.pl 0 0 h)) [
      | inl fault ↦ absurd (ground arith)
      | inr ((b, hb), refd) ↦
          let y : AvtPktd = record p { pl = b } in
          copy_slots-headers n (at + 1) (i + 1) (set ds at y) (set ss i p) ds' ss' hb h'
            (ground arith)
          ∙ headers-set ds at p y here refl
    ]
  ]
]

-- A copy where there is room brings no packet of the source over: the destination counts the packets
-- that its own slots already held.
pub pkt_fifo_copy_keeps :
    (dst src g s : AvtPacketFifo) (h h' : Heap)
    → dst.nb + src.nb < dst.alloc
    → dst.alloc < 2 ^ 32
    → pkt_fifo_copy none dst src h ≡ some (ok (g, s), h')
    → (headers g.slots ≡ headers dst.slots) × (g.nb ≡ dst.nb + src.nb)
unfolding pkt_fifo_copy
pkt_fifo_copy_keeps dst src g s h h' room small e =
    elim (Option-cases (copy_slots src.nb dst.nb 0 dst.slots src.slots h)) [
      | inl fault ↦ absurd (ground arith)
      | inr ((ds, ss, hc), runs) ↦ (
        ground (arith, copy_slots-headers src.nb dst.nb 0 dst.slots src.slots ds ss h hc runs),
        ground arith,
      )
    ]

get_elem?-set_self :
    (xs : List AvtPktd) (i j : ℕ) (x : AvtPktd)
    → i ≡ j
    → i < length xs
    → get_elem? (set xs i x) j ≡ some x
get_elem?-set_self [] i j x e h = absurd (omega arith)
get_elem?-set_self (y ∷ ys) zero zero x e h = refl
get_elem?-set_self (y ∷ ys) zero (suc j) x e h = absurd (omega arith)
get_elem?-set_self (y ∷ ys) (suc i) zero x e h = absurd (omega arith)
get_elem?-set_self (y ∷ ys) (suc i) (suc j) x e h =
    get_elem?-set_self ys i j x (omega arith) (omega arith)

-- A reference into a buffer that refers to another counter.
ref_over :
    (dst src : AvtBuffer) (h : Heap) (q r n m : ℕ)
    → dst.refcnt ≡ some q
    → h.counter q ≡ some (suc (suc n))
    → src.refcnt ≡ some r
    → q ≢ r
    → h.counter r ≡ some m
    → src.base_data < src.end_data
    → buffer_quick_ref dst src 0 0 h
      ≡ some (
        record src { data_ = src.data_ + 0; len = src.end_data - (src.data_ + 0) },
        record h { counter = update (update h.counter q (some (suc n))) r (some (m + 1)) },
      )
unfolding buffer_quick_ref
ref_over dst src h q r n m held counted pr ne pcount view = ground arith

-- A push into a slot that a packet has left, without a change of the allocation, drops a count of
-- what the departed packet refers to, although that packet is elsewhere.
pub pkt_fifo_push_d_drops :
    (f : AvtPacketFifo) (stale p : AvtPktd) (h : Heap) (q r n m : ℕ)
    → IsValid f
    → f.nb + 1 < f.alloc
    → f.alloc < 2 ^ 32
    → get_elem? f.slots f.nb ≡ some stale
    → stale.pl.refcnt ≡ some q
    → h.counter q ≡ some (suc (suc n))
    → p.pl.refcnt ≡ some r
    → q ≢ r
    → h.counter r ≡ some m
    → p.pl.base_data < p.pl.end_data
    → (g : AvtPacketFifo) × (h' : Heap) × (pkt_fifo_push_d none f p h ≡ some (ok g, h'))
      × (h'.counter q ≡ some (suc n))
      × (h'.counter r ≡ some (m + 1))
unfolding pkt_fifo_push_d
pkt_fifo_push_d_drops f stale p h q r n m v room small at_end held counted pr ne pcount view =
    let b : AvtBuffer = record p.pl {
      data_ = p.pl.data_ + 0;
      len = p.pl.end_data - (p.pl.data_ + 0);
    } in
    let pushed : List AvtPktd = set f.slots f.nb (record stale { pl = b }) in
    let last =
      get_elem?-set_self f.slots f.nb (u32 (f.nb + 1) - 1) (record stale { pl = b }) (omega arith)
        (omega (arith, v.allocated)) in
    let counters = update (update h.counter q (some (suc n))) r (some (m + 1)) in
    (
      record f {
        slots = set pushed (u32 (f.nb + 1) - 1) (record p { pl = b });
        nb = u32 (f.nb + 1);
      },
      record h { counter = counters },
      ground (arith, ref_over stale.pl p.pl h q r n m held counted pr ne pcount view, last),
      ground arith,
      ground arith,
    )
