-- ===== src/Scheduler/Tests.antt =====
-- The scheduler at concrete inputs.
use qproto.Common.{ℕ, ◌*◌, ◌≡◌, refl, arith, some, none, replicate, [], ◌∷◌, true, false, ok}
use qproto.Common.Int.{pos, ◌+ℤ◌, ◌-ℤ◌}
use qproto.Packet.{Body, no_compression, packet_get_tb}
use qproto.Buffer.{Heap, null_buffer}
use qproto.Fifo.{AvtPktd, AvtPacketFifo}
use qproto.Fifo.Queue.{IsValid}
use qproto.Scheduler.Streams.{SchedulerStream, preload_pkt, pending, preload_pkt-pending}
use qproto.Rational.{AvtRational, avt_rescale}
use qproto.Rational.Rescale.{IsNearest}
use qproto.SlidingWin.{AvtSlidingWinEntry, avt_sliding_win}
use qproto.Scheduler.{AvtScheduler, nanoseconds, update_sw}
use qproto.Scheduler.Clock.{update_sw-IsNearest}

abbrev no_entry : AvtSlidingWinEntry
no_entry = record { val = pos 0; ts = pos 0; tb = nanoseconds }

abbrev idle : AvtScheduler
idle = record {
  max_pkt_size = 100;
  bandwidth = pos 1000000;
  seq = 7;
  staging = none;
  sw = record { num_entries = 0; entries = replicate 4 no_entry };
  avail = pos 1000000;
  time = pos 0;
}

-- After 1000 bytes; at this bandwidth they take 8 ms, and the time moves by 8 ns.
abbrev busy : AvtScheduler
busy = record idle {
  sw = record {
    num_entries = 1;
    entries = record { val = pos 8000; ts = pos 0; tb = nanoseconds } ∷ replicate 3 no_entry;
  };
  avail = pos 992000;
  time = pos 8;
}

sent_1000 : update_sw idle 1000 ≡ some busy
unfolding update_sw avt_sliding_win avt_rescale ◌+ℤ◌ ◌-ℤ◌
sent_1000 = refl

update_sw-IsNearest_example :
    (q : ℕ) × IsNearest (1000 * 8 * 1000000) 1000000000 q × (pos 8 ≡ pos 0 +ℤ pos q)
update_sw-IsNearest_example =
    update_sw-IsNearest idle busy 1000 1000000 refl (omega arith) (omega arith) sent_1000

-- A stream with a time base of 1/1000, no top packet and two packets that wait.
abbrev frame : ℕ → AvtPktd
frame pts = record {
  hdr = [];
  pkt = record {
    seq = 0;
    stream_id = 3;
    body = Body.stream_data (record {
      data_length = 0;
      pkt_segmented = false;
      pkt_compression = no_compression;
      pts = pos pts;
      duration = pos 40;
    });
  };
  pl = null_buffer;
  pl_hash = [];
  hdr_len = 0;
  hdr_off = 0;
  pl_has_hash = false;
}

abbrev millis : AvtRational
millis = record { num = pos 1; den = pos 1000 }

abbrev frames : AvtPacketFifo
frames = record { slots = frame 0 ∷ frame 40 ∷ []; nb = 2; alloc = 2 }

abbrev waiting : SchedulerStream
waiting = record {
  reg = record { seq = 0; stream_id = 3; body = Body.stream_registration millis };
  cur = record {
    p = frame 0;
    hash_sent = false;
    seg_offset = 0;
    pl_left = 0;
    seg_hdr_size = 0;
    present = false;
    pts = pos 0;
    duration = pos 0;
    size = 0;
  };
  fifo = frames;
  active = true;
  active_id = 0;
}

abbrev heap : Heap
heap = record { counter = λ r. none; next = 0; released = [] }

preload_pkt-pending_example :
    (st' : SchedulerStream) × (preload_pkt (λ b. 36) idle waiting heap ≡ some (ok st', heap))
    × (st'.cur.present ≡ true)
    × (pending st' ≡ frame 0 ∷ frame 40 ∷ [])
    × IsValid st'.fifo
    × (st'.reg ≡ waiting.reg)
unfolding packet_get_tb
preload_pkt-pending_example =
    preload_pkt-pending (λ b. 36) idle waiting heap millis refl
      (record { allocated = refl; within = omega arith }) (λ none_left. cc)
