-- ===== src/Output/Tests.antt =====
-- A sender at concrete inputs.
use qproto.Common.{
  ℕ, ◌≡◌, refl, ◌≢◌, arith, true, false, List, [], ◌∷◌, Option, none, some, ok, ◌==◌, if◌then◌else◌,
}
use qproto.Common.Int.{ℤ, pos, negsuc}
use qproto.Packet.{Body, zstd}
use qproto.Buffer.{AvtBuffer, Heap, buffer_quick_unref}
use qproto.Fifo.{AvtPktd}
use qproto.Output.{Compressor, compress_payload}
use qproto.Output.Compression.{compress_payload-owns}
use qproto.Output.Streams.{SenderStreams, Op, add, close, apply_op, run}
use qproto.Output.Streams.Listing.{IsListing, run-IsListing, cycles, run-cycles}
use qproto.Output.Packets.{new_pktd, send_pkt}
use qproto.Output.Packets.Delivery.{Called, last_error, send_pkt-Called}

-- A compressor that halves, and counters of which one is in use.
abbrev halver : Compressor
halver = record {
  memory = λ m. some 4096;
  zstd_result = λ n. 50;
  brotli_result = λ n. some 40;
  buffer_ok = true;
  count_ok = true;
}

abbrev heap : Heap
heap = record { counter = λ r. if r == 0 then some 2 else none; next = 1; released = [] }

abbrev packet : AvtPktd
packet = new_pktd 3 Body.time_sync

compress_payload-owns_example :
    (pl : AvtBuffer) × (h' : Heap) × (compress_payload halver zstd packet 100 heap
      ≡ some (ok (record packet { pl = pl }, h')))
    × (pl.data_ ≡ 4096)
    × (pl.len ≡ 50)
    × (pl.refcnt ≡ some 1)
    × (h'.counter 1 ≡ some 1)
    × ((r : ℕ) → r ≢ 1 → h'.counter r ≡ heap.counter r)
    × (h'.released ≡ [])
compress_payload-owns_example =
    compress_payload-owns halver zstd packet 100 heap 4096 49 refl refl refl refl refl

-- A sender without streams, and one after the calls.
abbrev fresh : SenderStreams
fresh = record {
  streams = λ i. record { allocated = false; active = false };
  active_stream_idx = [];
  nb_streams = 0;
}

fresh-IsListing : IsListing fresh
fresh-IsListing = record {
  counted = refl;
  bounded = omega arith;
  listed = λ id h. cc;
  reserved = refl;
}

abbrev calls : List Op
calls = add 4 ∷ close 4 ∷ add 4 ∷ []

abbrev later : SenderStreams
later = record {
  streams = λ i.
      if i == 4
      then record { allocated = true; active = true }
      else if i == 4
      then record { allocated = true; active = false }
      else if i == 4
      then record { allocated = true; active = true }
      else record { allocated = false; active = false };
  active_stream_idx = 4 ∷ 4 ∷ [];
  nb_streams = 2;
}

called : run fresh calls ≡ some later
unfolding run
called = refl

run-IsListing_example : IsListing later
run-IsListing_example = run-IsListing fresh calls fresh-IsListing called

abbrev nearly_full : SenderStreams
nearly_full = record fresh { nb_streams = 65530 }

run-cycles_example :
    (s' : SenderStreams) × (run nearly_full (cycles 5 4) ≡ some s')
    × (s'.nb_streams ≡ 65535)
    × ((i : ℕ) → (s'.streams i).active ≡ (nearly_full.streams i).active)
    × (apply_op s' (add 4) ≡ none)
run-cycles_example = run-cycles 5 nearly_full 4 (omega arith) refl refl

-- Connections that are the results of their next calls.
abbrev answer : ℤ → AvtPktd → Heap → Option (ℤ × ℤ × Heap)
answer c p h = some (c, c, h)

two_of_three :
    send_pkt answer (pos 0 ∷ negsuc 10 ∷ pos 0 ∷ []) packet heap
    ≡ some (negsuc 10, pos 0 ∷ negsuc 10 ∷ pos 0 ∷ [], heap)
unfolding send_pkt
two_of_three = refl

send_pkt-Called_example :
    (codes : List ℤ) × (mid : Heap) × (pl : AvtBuffer) × Called answer packet
      (pos 0 ∷ negsuc 10 ∷ pos 0 ∷ [])
      heap
      codes
      (pos 0 ∷ negsuc 10 ∷ pos 0 ∷ [])
      mid
    × (negsuc 10 ≡ last_error (pos 0) codes)
    × (buffer_quick_unref packet.pl mid ≡ some (pl, heap))
send_pkt-Called_example =
    send_pkt-Called answer packet (pos 0 ∷ negsuc 10 ∷ pos 0 ∷ []) heap two_of_three
