-- ===== src/Scheduler/Push/Tests.antt =====
-- A packet of 25 bytes in segments, with headers of 4 bytes and packets of 14 bytes at most.
use qproto.Common.{
  ℕ, ◌≡◌, refl, arith, true, false, List, [], ◌∷◌, Option, some, none, Result, ok, replicate, map,
}
use qproto.Common.Int.{pos, ◌+ℤ◌, ◌-ℤ◌, ◌*ℤ◌}
use qproto.Rational.{avt_rescale, avt_compare_ts}
use qproto.Rational.Reduce.{avt_add_stable}
use qproto.Rational.Gcd.{gcd_ab}
use qproto.SlidingWin.{AvtSlidingWinEntry, avt_sliding_win}
use qproto.Packet.{packet_change_size, AvtPacketData, StreamData, Body, no_compression}
use qproto.Buffer.{buffer_get_data_len, AvtBuffer, Heap, null_buffer, update, buffer_quick_ref}
use qproto.Fifo.{AvtPktd, AvtPacketFifo, pkt_fifo_push_new, on_last}
use qproto.Fifo.Queue.{contents}
use qproto.Encode.{packet_create_segment, packet_encode_header}
use qproto.Scheduler.{AvtScheduler, SchedulerPacketContext, nanoseconds, update_sw, get_seq}
use qproto.Scheduler.Push.{Push, Flow, returns, push_internal, resume}
use qproto.Scheduler.Push.After.{After}
use qproto.Scheduler.Push.Calls.{Outcome, Resumable, resume-Outcome}
use qproto.Scheduler.Push.First.{Start}
use qproto.Scheduler.Push.Fresh.{Called, push_internal-Outcome}

abbrev no_entry : AvtSlidingWinEntry
no_entry = record { val = pos 0; ts = pos 0; tb = nanoseconds }

abbrev idle : AvtScheduler
idle = record {
  max_pkt_size = 14;
  bandwidth = pos 1000;
  seq = 7;
  staging = none;
  sw = record { num_entries = 0; entries = replicate 2 no_entry };
  avail = pos 1000;
  time = pos 0;
}

abbrev payload : AvtBuffer
payload = record null_buffer {
  data_ = 1000;
  len = 25;
  base_data = 1000;
  end_data = 1025;
  default_free = true;
  refcnt = some 0;
}

abbrev frame : StreamData
frame = record {
  data_length = 25;
  pkt_segmented = false;
  pkt_compression = no_compression;
  pts = pos 7;
  duration = pos 1;
}

abbrev packet : AvtPktd
packet = record {
  hdr = replicate 40 0;
  pkt = record { seq = 0; stream_id = 1; body = Body.stream_data frame };
  pl = payload;
  pl_hash = [];
  hdr_len = 0;
  hdr_off = 0;
  pl_has_hash = false;
}

abbrev context : SchedulerPacketContext
context = record {
  p = packet;
  hash_sent = false;
  seg_offset = 0;
  pl_left = 0;
  seg_hdr_size = 0;
  present = true;
  pts = pos 0;
  duration = pos 0;
  size = 0;
}

abbrev blank : AvtPktd
blank = record packet { pl = null_buffer }

abbrev bucket : AvtPacketFifo
bucket = record { slots = replicate 5 blank; nb = 0; alloc = 5 }

abbrev one : Heap
one = record { counter = update (λ r. none) 0 (some 1); next = 1; released = [] }

abbrev four : Body → ℕ
four b = 4

abbrev four_bytes : AvtPacketData → List ℕ
four_bytes p = 1 ∷ 2 ∷ 3 ∷ 4 ∷ []

abbrev full : AvtPacketFifo → Option AvtPktd
full f = none

start :
    Start four 14 25 payload
      (record { s = idle; state = context; dst = bucket; heap = one; out_acc = 0 })
start = record {
  valid = record { allocated = refl; within = omega arith };
  small = omega arith;
  budget = omega arith;
  payload = refl;
  some_bytes = omega arith;
  room = omega arith;
  no_hash = refl;
}

push_internal-Outcome_example :
    After
      (λ _. ⊥)
      (Called four four_bytes full 14 4 25 payload
        (record { s = idle; state = context; dst = bucket; heap = one; out_acc = 0 }))
      (push_internal four four_bytes full idle context bucket 14 20 one)
push_internal-Outcome_example =
    push_internal-Outcome four four_bytes full idle context bucket 14 20 4 0 one (λ g. refl)
      (omega arith) (omega arith) (omega arith) refl refl start

-- After a first packet of 10 bytes.
abbrev sent_first : AvtPktd
sent_first = record packet { pl = record payload { len = 10 } }

abbrev begun : Push
begun = record {
  s = idle;
  state = record context { seg_offset = 10; pl_left = 15; seg_hdr_size = 4 };
  dst = record { slots = sent_first ∷ replicate 4 blank; nb = 1; alloc = 5 };
  heap = record one { counter = update (λ r. none) 0 (some 2) };
  out_acc = 0;
}

begun-Resumable : Resumable 25 begun
begun-Resumable = record {
  valid = record { allocated = refl; within = omega arith };
  small = omega arith;
  budget = omega arith;
  whole = omega arith;
  no_hash = refl;
}

-- Two more packets, of 10 and 5 bytes: 14 and 9 with their headers.
abbrev summary : Option Flow → Option (Result ℕ × ℕ × List ℕ)
summary (some (returns r w)) =
    some (r, w.state.seg_offset, map (λ (x : AvtPktd). x.pl.len) (contents w.dst))
summary _ = none

resume_runs :
    summary (resume four four_bytes full 14 40 25 begun) ≡ some (ok 23, 25, 10 ∷ 10 ∷ 5 ∷ [])
unfolding resume pkt_fifo_push_new on_last buffer_quick_ref packet_create_segment
    packet_encode_header update_sw avt_sliding_win avt_rescale get_seq ◌+ℤ◌ ◌-ℤ◌ ◌*ℤ◌ avt_add_stable
    gcd_ab avt_compare_ts
resume_runs = refl

-- The whole packet in one call, and in a call that stops after two packets.
push_runs :
    (summary (push_internal four four_bytes full idle context bucket 14 40 one)
      ≡ some (ok 37, 25, 10 ∷ 10 ∷ 5 ∷ []))
    × (summary (push_internal four four_bytes full idle context bucket 14 30 one)
        ≡ some (ok 28, 20, 10 ∷ 10 ∷ []))
unfolding push_internal packet_change_size buffer_get_data_len pkt_fifo_push_new on_last
    buffer_quick_ref packet_create_segment packet_encode_header update_sw avt_sliding_win
    avt_rescale get_seq ◌+ℤ◌ ◌-ℤ◌ ◌*ℤ◌ avt_add_stable gcd_ab avt_compare_ts
push_runs = (refl, refl)

resume-Outcome_example :
    After
      (λ _. ⊥)
      (Outcome four four_bytes full 14 4 25 payload 10 (sent_first ∷ []))
      (resume four four_bytes full 14 20 25 begun)
resume-Outcome_example =
    resume-Outcome four four_bytes full 14 20 25 begun 0 begun-Resumable (λ g. refl) (omega arith)
      (omega arith) (omega arith) refl
