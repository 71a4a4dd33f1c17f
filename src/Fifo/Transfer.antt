-- ===== src/Fifo/Transfer.antt =====
-- libavtransport/utils.c: `avt_pkt_fifo_copy` and `avt_pkt_fifo_move`.
use qproto.Common.{
  ◌>>=◌, ℕ, zero, suc, ◌+◌, List, Option, some, Result, ok, err, enomem, get_elem?, set, take,
  overwrite, u32, leb, if◌then◌else◌,
}
use qproto.Buffer.{Heap, buffer_quick_ref}
use qproto.Fifo.{AvtPktd, AvtPacketFifo, fifo_resize, pkt_fifo_clear}

pub room_for : Option AvtPktd → AvtPacketFifo → ℕ → Result AvtPacketFifo
unfolding fifo_resize
room_for realloc dst n =
    if leb dst.alloc (u32 (dst.nb + n))
    then fifo_resize realloc dst (u32 (dst.alloc + n))
    else ok dst

-- The slots of the destination from `at` on and those of the source from `i` on, `n` rounds left.
-- `*psrc = *pdst` goes as in the source.
unfoldable pub copy_slots :
    ℕ → ℕ → ℕ → List AvtPktd → List AvtPktd → Heap → Option (List AvtPktd × List AvtPktd × Heap)
copy_slots zero at i ds ss h = some (ds, ss, h)
copy_slots (suc n) at i ds ss h = get_elem? ds at >>= λ pdst. get_elem? ss i >>= λ _.
    buffer_quick_ref pdst.pl pdst.pl 0 0 h >>= λ (b, h').
    copy_slots n (at + 1) (i + 1) (set ds at (record pdst { pl = b })) (set ss i pdst) h'

-- The destination and the source after the call.
unfoldable pub pkt_fifo_copy :
    Option AvtPktd
    → AvtPacketFifo
    → AvtPacketFifo
    → Heap
    → Option (Result (AvtPacketFifo × AvtPacketFifo) × Heap)
unfolding room_for copy_slots
pkt_fifo_copy realloc dst src h = elim (room_for realloc dst src.nb) [
  | err e ↦ some (err enomem, h)
  | ok g ↦ copy_slots src.nb g.nb 0 g.slots src.slots h >>= λ (ds, ss, h').
      some (ok (record g { slots = ds; nb = u32 (g.nb + src.nb) }, record src { slots = ss }), h')
]

unfoldable pub pkt_fifo_move :
    Option AvtPktd
    → AvtPacketFifo
    → AvtPacketFifo
    → Heap
    → Option (Result (AvtPacketFifo × AvtPacketFifo) × Heap)
unfolding room_for pkt_fifo_clear
pkt_fifo_move realloc dst src h = elim (room_for realloc dst src.nb) [
  | err e ↦ some (err enomem, h)
  | ok g ↦
      let moved : AvtPacketFifo = record g {
        slots = overwrite g.slots g.nb (take src.nb src.slots);
        nb = u32 (g.nb + src.nb);
      } in
      pkt_fifo_clear src h >>= λ (left, h'). some (ok (moved, left), h')
]
