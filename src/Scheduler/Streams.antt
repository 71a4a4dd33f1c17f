-- ===== src/Scheduler/Streams.antt =====
-- libavtransport/scheduler.c: the streams of the scheduler, each with its top packet and the packets that
-- wait behind it. `hdr_size` is the generated avt_pkt_hdr_size. A time base that is read and was never
-- stored is a fault, `none`.
use mathlib.Core.Path.{subst, ap₂}
use qproto.Common.{
  ℕ, ◌+◌, ◌*◌, ◌≡◌, ◌≢◌, refl, ap, sym, ◌∙◌, Bool, true, false, List, [], ◌∷◌, Option, none, some,
  Result, ok, err, u64, take, ◌>>=◌, if◌then◌else◌, Bool-cases, inl, inr,
}
use qproto.Common.Int.{ℤ, pos, int64_min, eqb_ℤ}
use qproto.Packet.{AvtPacketData, Body, packet_get_duration, packet_get_pts, packet_get_tb}
use qproto.Rational.{AvtRational, avt_rescale, avt_rescale_rational}
use qproto.Buffer.{Heap, buffer_get_data_len}
use qproto.Fifo.{AvtPktd, AvtPacketFifo, pkt_fifo_pop_d}
use qproto.Fifo.Queue.{contents, IsValid, pkt_fifo_pop_d_lem}
use qproto.Scheduler.{AvtScheduler, SchedulerPacketContext, nanoseconds}

pub record SchedulerStream : Type 0 where
  pub reg : AvtPacketData
  pub cur : SchedulerPacketContext
  pub fifo : AvtPacketFifo
  pub active : Bool
  pub active_id : ℕ

abbrev pub in_nanoseconds : Option AvtRational → ℤ → Option ℤ
in_nanoseconds s_tb v = s_tb >>= λ tb. some (avt_rescale_rational v tb nanoseconds)

-- How long a packet of a number of bits lasts: what it says itself, or the time to transmit it.
abbrev pub duration_of : AvtScheduler → Option AvtRational → AvtPacketData → ℕ → Option ℤ
duration_of s s_tb pkt size =
    if eqb_ℤ (packet_get_duration pkt) int64_min
    then some (avt_rescale (pos size) s.bandwidth (pos 1000000000))
    else in_nanoseconds s_tb (packet_get_duration pkt)

abbrev pub pts_of : Option AvtRational → AvtPacketData → Option ℤ
pts_of s_tb pkt =
    if eqb_ℤ (packet_get_pts pkt) int64_min
    then some int64_min
    else in_nanoseconds s_tb (packet_get_pts pkt)

module _ (hdr_size : Body → ℕ) (s : AvtScheduler) where
  unfoldable pub update_stream_ctx : SchedulerStream → Option SchedulerStream
  update_stream_ctx st =
      let s_tb = packet_get_tb st.reg in
      let size = u64 ((hdr_size st.cur.p.pkt.body + buffer_get_data_len st.cur.p.pl) * 8) in
      duration_of s s_tb st.cur.p.pkt size >>= λ duration. pts_of s_tb st.cur.p.pkt >>= λ pts.
      some (record st {
        cur = record st.cur { pts = pts; duration = duration; present = true; size = size };
      })

  unfoldable pub preload_pkt : SchedulerStream → Heap → Option (Result SchedulerStream × Heap)
  preload_pkt st h =
      if st.cur.present
      then some (ok st, h)
      else pkt_fifo_pop_d st.fifo true h >>= λ (r, h'). elim r [
        | err e ↦ some (err e, h')
        | ok (fifo, none) ↦ none
        | ok (fifo, some p) ↦
            update_stream_ctx (record st { fifo = fifo; cur = record st.cur { p = p } }) >>= λ st'.
            some (ok st', h')
      ]

-- The packets that a stream has still to send, the next one first.
abbrev pub pending : SchedulerStream → List AvtPktd
pending st = if st.cur.present then st.cur.p ∷ contents st.fifo else contents st.fifo

pending-top :
    (st : SchedulerStream) → st.cur.present ≡ true → pending st ≡ st.cur.p ∷ contents st.fifo
pending-top st e = rw e

pending-fifo : (st : SchedulerStream) → st.cur.present ≡ false → pending st ≡ contents st.fifo
pending-fifo st e = rw e

if-false {ℓ} : {A : Type ℓ} (t : Bool) (x y : A) → t ≡ false → (if t then x else y) ≡ y
if-false t x y e = rw e

if-runs :
    (t : Bool) (a b : Option ℤ)
    → ((v : ℤ) × (a ≡ some v))
    → ((v : ℤ) × (b ≡ some v))
    → (v : ℤ) × ((if t then a else b) ≡ some v)
if-runs true a b p q = p
if-runs false a b p q = q

in_nanoseconds-runs :
    (s_tb : Option AvtRational) (tb : AvtRational) (v : ℤ)
    → s_tb ≡ some tb
    → (w : ℤ) × (in_nanoseconds s_tb v ≡ some w)
in_nanoseconds-runs s_tb tb v known = (avt_rescale_rational v tb nanoseconds, rw known)

duration_of-runs :
    (s : AvtScheduler) (s_tb : Option AvtRational) (tb : AvtRational) (pkt : AvtPacketData)
    (size : ℕ)
    → s_tb ≡ some tb
    → (d : ℤ) × (duration_of s s_tb pkt size ≡ some d)
duration_of-runs s s_tb tb pkt size known =
    if-runs (eqb_ℤ (packet_get_duration pkt) int64_min)
      (some (avt_rescale (pos size) s.bandwidth (pos 1000000000)))
      (in_nanoseconds s_tb (packet_get_duration pkt))
      (avt_rescale (pos size) s.bandwidth (pos 1000000000), refl)
      (in_nanoseconds-runs s_tb tb (packet_get_duration pkt) known)

pts_of-runs :
    (s_tb : Option AvtRational) (tb : AvtRational) (pkt : AvtPacketData)
    → s_tb ≡ some tb
    → (p : ℤ) × (pts_of s_tb pkt ≡ some p)
pts_of-runs s_tb tb pkt known =
    if-runs (eqb_ℤ (packet_get_pts pkt) int64_min) (some int64_min)
      (in_nanoseconds s_tb (packet_get_pts pkt)) (int64_min, refl)
      (in_nanoseconds-runs s_tb tb (packet_get_pts pkt) known)

module _ (hdr_size : Body → ℕ) (s : AvtScheduler) where
  update_stream_ctx-runs :
      (st : SchedulerStream) (tb : AvtRational)
      → packet_get_tb st.reg ≡ some tb
      → (st' : SchedulerStream) × (update_stream_ctx hdr_size s st ≡ some st')
        × (st'.cur.present ≡ true)
        × (st'.cur.p ≡ st.cur.p)
        × (st'.fifo ≡ st.fifo)
        × (st'.reg ≡ st.reg)
  unfolding update_stream_ctx
  update_stream_ctx-runs st tb known =
      let size = u64 ((hdr_size st.cur.p.pkt.body + buffer_get_data_len st.cur.p.pl) * 8) in
      let (d, ed) = duration_of-runs s (packet_get_tb st.reg) tb st.cur.p.pkt size known in
      let (p, ep) = pts_of-runs (packet_get_tb st.reg) tb st.cur.p.pkt known in
      (
        record st { cur = record st.cur { pts = p; duration = d; present = true; size = size } },
        rw (ed, ep),
        refl,
        refl,
        refl,
        refl,
      )

  popped-pending :
      (st : SchedulerStream) (g : AvtPacketFifo) (p : AvtPktd) (h : Heap) (tb : AvtRational)
      → packet_get_tb st.reg ≡ some tb
      → st.cur.present ≡ false
      → pkt_fifo_pop_d st.fifo true h ≡ some (ok (g, some p), h)
      → contents st.fifo ≡ p ∷ contents g
      → IsValid g
      → (st' : SchedulerStream) × (preload_pkt hdr_size s st h ≡ some (ok st', h))
        × (st'.cur.present ≡ true)
        × (pending st' ≡ pending st)
        × IsValid st'.fifo
        × (st'.reg ≡ st.reg)
  unfolding preload_pkt
  popped-pending st g p h tb known absent popped order v =
      let (st', run, there, top, rest, same) =
        update_stream_ctx-runs (record st { fifo = g; cur = record st.cur { p = p } }) tb known in
      (
        st',
        if-false _ _ _ absent ∙ rw (popped, run),
        there,
        pending-top st' there
            ∙ ap₂ (λ q f. q ∷ contents f) top rest
            ∙ sym order
            ∙ sym (pending-fifo st absent),
        subst IsValid (sym rest) v,
        same,
      )

  -- A stream whose FIFO is valid, whose time base was stored and which has a packet to send: with no
  -- fault and no error, and the counters as they were, `preload_pkt` leaves its next packet on top, and
  -- the packets that it has still to send are the same in the same order.
  pub preload_pkt-pending :
      (st : SchedulerStream) (h : Heap) (tb : AvtRational)
      → packet_get_tb st.reg ≡ some tb
      → IsValid st.fifo
      → pending st ≢ []
      → (st' : SchedulerStream) × (preload_pkt hdr_size s st h ≡ some (ok st', h))
        × (st'.cur.present ≡ true)
        × (pending st' ≡ pending st)
        × IsValid st'.fifo
        × (st'.reg ≡ st.reg)
  unfolding preload_pkt
  preload_pkt-pending st h tb known v some_left = elim (Bool-cases st.cur.present) [
    | inl there ↦ (st, rw there, there, refl, v, refl)
    | inr absent ↦
        let waits : st.fifo.nb ≢ 0 = λ none_left.
          some_left (pending-fifo st absent ∙ ap (λ n. take n st.fifo.slots) none_left) in
        let (p, g, popped, v', order, _, _) = pkt_fifo_pop_d_lem st.fifo h v waits in
        popped-pending st g p h tb known absent popped order v'
  ]
