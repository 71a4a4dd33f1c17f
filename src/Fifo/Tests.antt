-- ===== src/Fifo/Tests.antt =====
-- Packet FIFOs at concrete inputs.
use qproto.Common.{ℕ, ◌+◌, ◌≤◌, ◌≡◌, refl, arith, true, false, [], ◌∷◌, ◌++◌, some, none, ok}
use qproto.Packet.{Body}
use qproto.Buffer.{AvtBuffer, Heap, null_buffer, update, buffer_quick_ref, buffer_quick_unref}
use qproto.Buffer.Balance.{Balanced}
use qproto.Fifo.{AvtPktd, AvtPacketFifo, pkt_fifo_push_refd_d, pkt_fifo_pop_d, pkt_fifo_clear}
use qproto.Fifo.Sizes.{pkt_fifo_drop}
use qproto.Fifo.Transfer.{pkt_fifo_move, pkt_fifo_copy}
use qproto.Fifo.Queue.{
  contents, IsValid, push, pop, run, run_queue, pkt_fifo_push_refd_d_lem, pkt_fifo_pop_d_lem,
  run_refines,
}
use qproto.Fifo.Sharing.{payloads, pkt_fifo_clear_lem, pkt_fifo_move_lem}
use qproto.Fifo.Copying.{headers, pkt_fifo_copy_keeps}

-- A buffer of 10 bytes with the counter `r`, and a packet that carries it.
abbrev bytes10 : ℕ → AvtBuffer
bytes10 r = record null_buffer {
  data_ = 1000;
  len = 10;
  base_data = 1000;
  end_data = 1010;
  default_free = true;
  refcnt = some r;
}

abbrev packet : ℕ → AvtPktd
packet r = record {
  hdr = [];
  pkt = record { seq = r; stream_id = 0; body = Body.session_start };
  pl = bytes10 r;
  pl_hash = [];
  hdr_len = 0;
  hdr_off = 0;
  pl_has_hash = false;
}

abbrev empty : AvtPacketFifo
empty = record { slots = []; nb = 0; alloc = 0 }

empty-IsValid : IsValid empty
empty-IsValid = record { allocated = refl; within = omega arith }

-- Two packets and two slots that other packets have left.
abbrev two : AvtPacketFifo
two = record { slots = packet 1 ∷ packet 2 ∷ packet 2 ∷ packet 2 ∷ []; nb = 2; alloc = 4 }

two-IsValid : IsValid two
two-IsValid = record { allocated = refl; within = omega arith }

-- The counters 1 and 2, with one reference each.
abbrev ones : Heap
ones = record {
  counter = update (update (λ r. none) 1 (some 1)) 2 (some 1);
  next = 3;
  released = [];
}

ones-Balanced : Balanced ones (payloads (contents two) ++ [])
ones-Balanced r = ground arith

pkt_fifo_push_refd_d_lem_example :
    (g : AvtPacketFifo) × (pkt_fifo_push_refd_d (some (packet 9)) empty (packet 1)
      ≡ ok (g, record (packet 1) { pl = null_buffer }))
    × IsValid g
    × (contents g ≡ packet 1 ∷ [])
    × (g.nb ≡ 1)
    × (g.alloc ≤ 2)
pkt_fifo_push_refd_d_lem_example =
    pkt_fifo_push_refd_d_lem (packet 9) empty (packet 1) empty-IsValid (omega arith)

pkt_fifo_pop_d_lem_example :
    (p : AvtPktd) × (g : AvtPacketFifo) × (pkt_fifo_pop_d two true ones
      ≡ some (ok (g, some p), ones))
    × IsValid g
    × (contents two ≡ p ∷ contents g)
    × (g.nb + 1 ≡ 2)
    × (g.alloc ≡ 4)
pkt_fifo_pop_d_lem_example = pkt_fifo_pop_d_lem two ones two-IsValid (omega arith)

run_refines_example :
    run (packet 9) (push (packet 1) ∷ push (packet 2) ∷ pop ∷ pop ∷ pop ∷ []) empty ones
    ≡ none ∷ none ∷ some (packet 1) ∷ some (packet 2) ∷ none ∷ []
unfolding run_queue
run_refines_example =
    run_refines (packet 9) (push (packet 1) ∷ push (packet 2) ∷ pop ∷ pop ∷ pop ∷ []) empty ones
      empty-IsValid (omega arith, omega arith)

pkt_fifo_clear_lem_example :
    (g : AvtPacketFifo) × (h' : Heap) × (pkt_fifo_clear two ones ≡ some (g, h'))
    × (contents g ≡ [])
    × IsValid g
    × Balanced h' []
pkt_fifo_clear_lem_example = pkt_fifo_clear_lem two ones [] two-IsValid ones-Balanced

abbrev roomy_empty : AvtPacketFifo
roomy_empty = record { slots = packet 5 ∷ packet 6 ∷ packet 7 ∷ []; nb = 0; alloc = 3 }

roomy_empty-IsValid : IsValid roomy_empty
roomy_empty-IsValid = record { allocated = refl; within = omega arith }

pkt_fifo_move_lem_example :
    (g left : AvtPacketFifo) × (h' : Heap) × (pkt_fifo_move none roomy_empty two ones
      ≡ some (ok (g, left), h'))
    × (contents g ≡ packet 1 ∷ packet 2 ∷ [])
    × (contents left ≡ [])
    × Balanced h' []
pkt_fifo_move_lem_example =
    pkt_fifo_move_lem roomy_empty two ones [] roomy_empty-IsValid two-IsValid (omega arith)
      (omega arith) ones-Balanced

-- Slots whose payloads refer to nothing
abbrev bare : ℕ → AvtPktd
bare r = record (packet r) { pl = null_buffer }

abbrev blank : AvtPacketFifo
blank = record { slots = bare 5 ∷ bare 6 ∷ bare 7 ∷ []; nb = 0; alloc = 3 }

abbrev overwritten : AvtPacketFifo
overwritten = record two { slots = bare 5 ∷ bare 6 ∷ packet 2 ∷ packet 2 ∷ [] }

copied : pkt_fifo_copy none blank two ones ≡ some (ok (record blank { nb = 2 }, overwritten), ones)
unfolding pkt_fifo_copy buffer_quick_ref
copied = refl

pkt_fifo_copy_keeps_example :
    (headers (bare 5 ∷ bare 6 ∷ bare 7 ∷ []) ≡ headers blank.slots) × (2 ≡ blank.nb + two.nb)
pkt_fifo_copy_keeps_example =
    pkt_fifo_copy_keeps blank two (record blank { nb = 2 }) overwritten ones ones (omega arith)
      (omega arith) copied

-- Packet 2 is also elsewhere.
abbrev elsewhere : Heap
elsewhere = record ones { counter = update (update (λ r. none) 1 (some 1)) 2 (some 2) }

abbrev half : AvtPacketFifo
half = record two { slots = packet 1 ∷ bare 2 ∷ packet 2 ∷ packet 2 ∷ [] }

abbrev freed : Heap
freed = record ones { counter = update ones.counter 2 none; released = (1000, 10) ∷ [] }

dropped : pkt_fifo_drop 200 two 1 0 ones ≡ some (ok half, freed)
unfolding pkt_fifo_drop buffer_quick_unref
dropped = refl
