-- ===== src/Fifo.antt =====
-- libavtransport/utils.c and utils_internal.h: the packet FIFO. Its array keeps what was in a slot
-- after the packet has left, so the slots are modelled to the end of the allocation. `none` is a
-- fault, as in `Buffer`; `realloc` is NULL or fills the new slots with what it is given here.
pub mod Transfer
pub mod Sizes
pub mod Queue
pub mod Pushing
pub mod Sharing
pub mod Copying
pub mod Dropping
mod Tests
use qproto.Common.{
  ◌>>=◌, ℕ, zero, suc, ◌+◌, ◌-◌, ◌*◌, ◌%◌, ◌^◌, max, Bool, true, false, List, [], ◌∷◌, ◌++◌, Option,
  none, some, Result, ok, err, Err, enomem, einval, enoent, length, get_elem?, set, take, drop,
  replicate, overwrite, u32, ltb, leb, ◌==◌, if◌then◌else◌,
}
use qproto.Buffer.{
  AvtBuffer, Heap, null_buffer, buffer_quick_unref, buffer_quick_ref, buffer_get_data_len,
}
use qproto.Packet.{AvtPacketData}

-- packet_common.h
pub record AvtPktd : Type 0 where
  pub hdr : List ℕ
  pub pkt : AvtPacketData
  pub pl : AvtBuffer
  pub pl_hash : List ℕ
  pub hdr_len : ℕ
  pub hdr_off : ℕ
  pub pl_has_hash : Bool

pub record AvtPacketFifo : Type 0 where
  pub slots : List AvtPktd
  pub nb : ℕ
  pub alloc : ℕ

-- `avt_buffer_quick_unref` on the payloads of `n` slots, after `skip` slots that are left alone.
unfoldable pub unref_slots : ℕ → ℕ → List AvtPktd → Heap → Option (List AvtPktd × Heap)
unref_slots skip zero xs h = some (xs, h)
unref_slots skip (suc n) [] h = none
unref_slots zero (suc n) (x ∷ xs) h = buffer_quick_unref x.pl h >>= λ (b, h').
    unref_slots zero n xs h' >>= λ (ys, h''). some (record x { pl = b } ∷ ys, h'')
unref_slots (suc skip) (suc n) (x ∷ xs) h =
    unref_slots skip (suc n) xs h >>= λ (ys, h'). some (x ∷ ys, h')

unfoldable pub pkt_fifo_clear : AvtPacketFifo → Heap → Option (AvtPacketFifo × Heap)
unfolding unref_slots
pkt_fifo_clear f h =
    unref_slots 0 f.nb f.slots h >>= λ (xs, h'). some (record f { slots = xs; nb = 0 }, h')

pub pkt_fifo_free : AvtPacketFifo → Heap → Option (AvtPacketFifo × Heap)
unfolding pkt_fifo_clear
pkt_fifo_free f h =
    pkt_fifo_clear f h >>= λ (f', h'). some (record { slots = []; nb = 0; alloc = 0 }, h')

-- No overflow in `avt_reallocarray`: fewer than 2 ^ 32 slots.
pub fifo_resize : Option AvtPktd → AvtPacketFifo → ℕ → Result AvtPacketFifo
fifo_resize realloc f alloc_new =
    let n : ℕ = max alloc_new 1 in
    elim realloc [
      | none ↦ err enomem
      | some junk ↦
          ok (record f {
            slots = take n (f.slots ++ replicate (n - length f.slots) junk);
            alloc = n;
          })
    ]

-- `if ((fifo->nb + 1) >= fifo->alloc)` with its body.
pub make_room : Option AvtPktd → AvtPacketFifo → Result AvtPacketFifo
unfolding fifo_resize
make_room realloc f =
    if leb f.alloc (u32 (f.nb + 1)) then fifo_resize realloc f (u32 (f.alloc * 2)) else ok f

-- The new packet is the last one of the FIFO returned.
unfoldable pub pkt_fifo_push_new :
    Option AvtPktd
    → AvtPacketFifo
    → Option AvtBuffer
    → ℕ
    → ℕ
    → Heap
    → Option (Result AvtPacketFifo × Heap)
unfolding make_room
pkt_fifo_push_new realloc f pl offset len h = elim (make_room realloc f) [
  | err e ↦ some (err e, h)
  | ok g ↦ get_elem? g.slots g.nb >>= λ slot.
      (elim pl [ none ↦ some (slot.pl, h) | some buf ↦ buffer_quick_ref slot.pl buf offset len h ])
      >>= λ (b, h'). some (
        ok (record g { slots = set g.slots g.nb (record slot { pl = b }); nb = u32 (g.nb + 1) }),
        h',
      )
]

-- Changes the packet that a push has just made.
unfoldable pub on_last : (AvtPktd → AvtPktd) → AvtPacketFifo → Option AvtPacketFifo
on_last change f = get_elem? f.slots (f.nb - 1) >>= λ slot.
    some (record f { slots = set f.slots (f.nb - 1) (change slot) })

finish_push :
    (AvtPktd → AvtPktd) → Result AvtPacketFifo × Heap → Option (Result AvtPacketFifo × Heap)
unfolding on_last
finish_push change (err e, h) = some (err enomem, h)
finish_push change (ok f, h) = on_last change f >>= λ g. some (ok g, h)

unfoldable pub pkt_fifo_push_d :
    Option AvtPktd → AvtPacketFifo → AvtPktd → Heap → Option (Result AvtPacketFifo × Heap)
unfolding pkt_fifo_push_new finish_push
pkt_fifo_push_d realloc f p h =
    pkt_fifo_push_new realloc f (some p.pl) 0 0 h
    >>= finish_push (λ slot. record p { pl = slot.pl })

pub pkt_fifo_push_p :
    Option AvtPktd
    → AvtPacketFifo
    → AvtPacketData
    → Option AvtBuffer
    → Heap
    → Option (Result AvtPacketFifo × Heap)
unfolding pkt_fifo_push_new finish_push
pkt_fifo_push_p realloc f pkt pl h =
    pkt_fifo_push_new realloc f pl 0 0 h >>= finish_push (λ slot. record slot { pkt = pkt })

-- The FIFO and `*p`, whose payload has moved.
unfoldable pub pkt_fifo_push_refd_d :
    Option AvtPktd → AvtPacketFifo → AvtPktd → Result (AvtPacketFifo × AvtPktd)
unfolding make_room
pkt_fifo_push_refd_d realloc f p = elim (make_room realloc f) [
  | err e ↦ err enomem
  | ok g ↦
      ok (
        record g { slots = set g.slots g.nb p; nb = u32 (g.nb + 1) },
        record p { pl = null_buffer },
      )
]

-- Without a payload the slot keeps the one that it had.
pub pkt_fifo_push_refd_p :
    Option AvtPktd
    → AvtPacketFifo
    → AvtPacketData
    → Option AvtBuffer
    → Option (Result (AvtPacketFifo × Option AvtBuffer))
unfolding make_room
pkt_fifo_push_refd_p realloc f pkt pl = elim (make_room realloc f) [
  | err e ↦ some (err enomem)
  | ok g ↦ get_elem? g.slots g.nb >>= λ slot.
      let filled : AvtPktd = elim pl [
        | none ↦ record slot { pkt = pkt }
        | some buf ↦ record slot { pkt = pkt; pl = buf }
      ] in
      let left : Option AvtBuffer = elim pl [ none ↦ none | some buf ↦ some null_buffer ] in
      some (ok (record g { slots = set g.slots g.nb filled; nb = u32 (g.nb + 1) }, left))
]

-- `pl` is the buffer to reference into, if there is one.
pub pkt_fifo_peek :
    AvtPacketFifo
    → Option AvtBuffer
    → Heap
    → Option (Result (AvtPacketData × Option AvtBuffer) × Heap)
pkt_fifo_peek f pl h =
    if f.nb == 0
    then some (err enoent, h)
    else get_elem? f.slots 0 >>= λ slot. (elim pl [
      | none ↦ some (ok (slot.pkt, none), h)
      | some dst ↦
          buffer_quick_ref dst slot.pl 0 0 h >>= λ (b, h'). some (ok (slot.pkt, some b), h')
    ])

-- `fifo->nb--` and the `memmove`.
advance : AvtPacketFifo → AvtPacketFifo
advance f = record f {
  slots = overwrite f.slots 0 (take (f.nb - 1) (drop 1 f.slots));
  nb = f.nb - 1;
}

-- `wanted` is whether `p` is not NULL; then the packet is returned, else its payload is dropped.
unfoldable pub pkt_fifo_pop_d :
    AvtPacketFifo → Bool → Heap → Option (Result (AvtPacketFifo × Option AvtPktd) × Heap)
unfolding advance
pkt_fifo_pop_d f wanted h =
    if f.nb == 0
    then some (err enoent, h)
    else get_elem? f.slots 0 >>= λ slot.
        if wanted
        then some (ok (advance f, some slot), h)
        else buffer_quick_unref slot.pl h >>= λ (b, h').
            some
              (ok (advance (record f { slots = set f.slots 0 (record slot { pl = b }) }), none), h')

-- `pl_wanted` is whether `pl` is not NULL.
pub pkt_fifo_pop_p :
    AvtPacketFifo
    → Bool
    → Heap
    → Option (Result (AvtPacketFifo × AvtPacketData × Option AvtBuffer) × Heap)
unfolding advance
pkt_fifo_pop_p f pl_wanted h =
    if f.nb == 0
    then some (err enoent, h)
    else get_elem? f.slots 0 >>= λ slot.
        if pl_wanted
        then some (ok (advance f, slot.pkt, some slot.pl), h)
        else buffer_quick_unref slot.pl h >>= λ (b, h'). some (
          ok (
            advance (record f { slots = set f.slots 0 (record slot { pl = b }) }),
            slot.pkt,
            none,
          ),
          h',
        )
