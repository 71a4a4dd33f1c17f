-- ===== src/Scheduler.antt =====
-- libavtransport/scheduler.c and scheduler.h: what the scheduler keeps, and the parts of it that every
-- packet goes through. The operations that choose between streams are not modelled.
pub mod Push
pub mod Clock
pub mod Streams
mod Tests
use qproto.Common.{
  ℕ, ◌+◌, ◌-◌, ◌*◌, ◌%◌, ◌^◌, min, Bool, true, false, Option, none, some, ◌>>=◌, u64, List, [],
  Result, ok, err, eagain, ◌==◌, if◌then◌else◌,
}
use qproto.Common.Int.{ℤ, pos, negsuc, ◌+ℤ◌, ◌-ℤ◌}
use qproto.Packet.{AvtPacketData}
use qproto.Rational.{AvtRational, avt_rescale}
use qproto.SlidingWin.{AvtSlidingWinCtx, avt_sliding_win}
use qproto.Fifo.{AvtPktd, AvtPacketFifo}

pub record SchedulerPacketContext : Type 0 where
  pub p : AvtPktd
  pub hash_sent : Bool
  pub seg_offset : ℕ
  pub pl_left : ℕ
  pub seg_hdr_size : ℕ
  pub present : Bool
  pub pts : ℤ
  pub duration : ℤ
  pub size : ℕ

-- The fields that the modelled operations use. `staging` is the bucket that it points to.
pub record AvtScheduler : Type 0 where
  pub max_pkt_size : ℕ
  pub bandwidth : ℤ
  pub seq : ℕ
  pub staging : Option AvtPacketFifo
  pub sw : AvtSlidingWinCtx
  pub avail : ℤ
  pub time : ℤ

pub scheduler_init : AvtScheduler → ℕ → ℤ → AvtScheduler
scheduler_init s max_pkt_size bandwidth = record s {
  seq = 0;
  bandwidth = bandwidth;
  avail = bandwidth;
  max_pkt_size = min max_pkt_size (2 ^ 32 - 1);
}

-- The sequence number, and the scheduler.
unfoldable pub get_seq : AvtScheduler → ℕ × AvtScheduler
get_seq s = (s.seq, record s { seq = u64 (s.seq + 1) })

abbrev pub nanoseconds : AvtRational
nanoseconds = record { num = pos 1; den = pos 1000000000 }

unfoldable pub update_sw : AvtScheduler → ℕ → Option AvtScheduler
update_sw s size =
    let bits = u64 (size * 8) in
    let duration = avt_rescale (pos bits) s.bandwidth (pos 1000000000) in
    avt_sliding_win s.sw (pos bits) s.time nanoseconds (pos 1000000000) false >>= λ (sum, sw').
    some (record s { sw = sw'; avail = s.bandwidth -ℤ sum; time = s.time +ℤ duration })

-- EAGAIN, or the staging bucket with the scheduler that is left without one.
pub scheduler_pop : AvtScheduler → Result (AvtPacketFifo × AvtScheduler)
scheduler_pop s = elim (s.staging) [
  | none ↦ err eagain
  | some bkt ↦ if bkt.nb == 0 then err eagain else ok (bkt, record s { staging = none })
]

pub scheduler_flush : AvtScheduler → Option AvtPacketFifo × AvtScheduler
scheduler_flush s = (s.staging, record s { staging = none })
