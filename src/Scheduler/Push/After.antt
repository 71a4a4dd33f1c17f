-- ===== src/Scheduler/Push/After.antt =====
-- What holds after the steps of `scheduler_push_internal`.
use qproto.Common.{
  ℕ, ◌+◌, ◌-◌, ◌^◌, ◌<◌, ◌≡◌, refl, ◌∙◌, sym, ap, arith, List, Option, none, some, ◌>>=◌, Result,
  err, enomem, get_elem?, Bool, true, false, if◌then◌else◌, Result-cases, eq_of_some, inl, inr,
}
use qproto.Buffer.{AvtBuffer}
use qproto.Packet.{AvtPacketData, Body}
use qproto.Fifo.{AvtPktd, AvtPacketFifo, pkt_fifo_push_new, on_last}
use qproto.Fifo.Queue.{IsValid}
use qproto.Fifo.Pushing.{LastIs, Pushed, push_new-Pushed, on_last-keeps}
use qproto.Encode.{packet_encode_header, packet_encode_header-keeps}
use qproto.Scheduler.{update_sw}
use qproto.Scheduler.Push.{
  Push, Flow, returns, goes_on, out_of_rounds, ◌>>>◌, reserve, set_packet, account,
}

-- `Q` holds if the function goes on and `R` if it returns; it has not run out of rounds. A fault ends
-- everything.
abbrev pub After : (Push → Type 0) → (Result ℕ → Push → Type 0) → Option Flow → Type 0
After Q R none = Unit
After Q R (some (returns r w)) = R r w
After Q R (some (goes_on w)) = Q w
After Q R (some out_of_rounds) = ⊥

pub After-bind :
    (Q Q' : Push → Type 0) (R : Result ℕ → Push → Type 0) (m : Option Flow) (k : Push → Option Flow)
    → After Q R m
    → ((w : Push) → Q w → After Q' R (k w))
    → After Q' R (m >>> k)
After-bind Q Q' R none k h f = tt
After-bind Q Q' R (some (returns r w)) k h f = h
After-bind Q Q' R (some (goes_on w)) k h f = f w h
After-bind Q Q' R (some out_of_rounds) k h f = absurd h

pub After-option :
    {A : Type 0} (Q : Push → Type 0) (R : Result ℕ → Push → Type 0) (o : Option A)
    (k : A → Option Flow)
    → ((a : A) → o ≡ some a → After Q R (k a))
    → After Q R (o >>= k)
After-option Q R none k f = tt
After-option Q R (some a) k f = f a refl

pub After-if :
    (Q : Push → Type 0) (R : Result ℕ → Push → Type 0) (b : Bool) (x y : Option Flow)
    → (b ≡ true → After Q R x)
    → (b ≡ false → After Q R y)
    → After Q R (if b then x else y)
After-if Q R true x y f g = f refl
After-if Q R false x y f g = g refl

pub After-ends :
    (Q : Push → Type 0) (R : Result ℕ → Push → Type 0) (b : Bool) (x y : Flow)
    → After Q R (some x)
    → After Q R (some y)
    → After Q R (some (if b then x else y))
After-ends Q R true x y f g = f
After-ends Q R false x y f g = g

pub After-weaken :
    (Q : Push → Type 0) (R S : Result ℕ → Push → Type 0) (m : Option Flow)
    → After Q R m
    → ((r : Result ℕ) (w : Push) → R r w → S r w)
    → After Q S m
After-weaken Q R S none h f = tt
After-weaken Q R S (some (returns r w)) h f = f r w h
After-weaken Q R S (some (goes_on w)) h f = h
After-weaken Q R S (some out_of_rounds) h f = absurd h

abbrev pub Enomem : Result ℕ → Push → Type 0
Enomem r w = r ≡ err enomem

-- A packet was reserved for a view of the payload.
pub record Reserved (w : Push) (offset len : ℕ) (w' : Push) : Type 0 where
  pub same_s : w'.s ≡ w.s
  pub same_state : w'.state ≡ w.state
  pub same_acc : w'.out_acc ≡ w.out_acc
  pub pushed : Pushed w.dst w'.dst offset len w.state.p.pl

-- The last packet has the header `pkt` and the payload `pl`.
pub record Filled (w : Push) (k : ℕ) (old : List AvtPktd) (pkt : AvtPacketData) (pl : AvtBuffer)
    (w' : Push) : Type 0 where
  pub same_s : w'.s ≡ w.s
  pub same_state : w'.state ≡ w.state
  pub same_acc : w'.out_acc ≡ w.out_acc
  pub x : AvtPktd
  pub last : LastIs w'.dst k old x
  pub header : x.pkt ≡ pkt
  pub payload : x.pl ≡ pl
  pub same_alloc : w'.dst.alloc ≡ w.dst.alloc

-- Only the accounts have changed.
pub record Accounted (w : Push) (acc : ℕ) (w' : Push) : Type 0 where
  pub same_state : w'.state ≡ w.state
  pub same_dst : w'.dst ≡ w.dst
  pub more : w'.out_acc ≡ w.out_acc + acc

module _ (hdr_size : Body → ℕ) (encode : AvtPacketData → List ℕ)
    (realloc : AvtPacketFifo → Option AvtPktd) where
  pub reserve-After :
      (w : Push) (offset len r : ℕ)
      → IsValid w.dst
      → w.dst.alloc < 2 ^ 31
      → w.state.p.pl.refcnt ≡ some r
      → 0 < len
      → After
          (Reserved w offset len)
          Enomem
          (reserve hdr_size encode realloc w (some w.state.p.pl) offset len)
  unfolding reserve
  reserve-After w offset len r v small counted some_len =
      After-option (Reserved w offset len) Enomem
        (pkt_fifo_push_new (realloc w.dst) w.dst (some w.state.p.pl) offset len w.heap) _
        (λ (res, h) is. elim (Result-cases res) [
          | inl (c, fails) ↦ rw fails refl
          | inr (g, made) ↦ rw made (record {
            same_s = refl;
            same_state = refl;
            same_acc = refl;
            pushed =
                push_new-Pushed (realloc w.dst) w.dst g w.state.p.pl offset len w.heap h r v small
                  counted some_len (is ∙ ap (λ x. some (x, h)) made);
          })
        ])

  pub set_packet-After :
      (w : Push) (k : ℕ) (old : List AvtPktd) (x : AvtPktd) (pkt : AvtPacketData)
      (R : Result ℕ → Push → Type 0)
      → LastIs w.dst k old x
      → After (Filled w k old pkt x.pl) R (set_packet hdr_size encode realloc w pkt)
  unfolding set_packet
  set_packet-After w k old x pkt R h =
      let Q = Filled w k old pkt x.pl in
      After-option Q R (on_last (λ slot. record slot { pkt = pkt }) w.dst) _ (λ dst1 is1.
        After-option Q R (get_elem? dst1.slots (dst1.nb - 1)) _ (λ slot is2.
          After-option Q R (packet_encode_header encode slot) _ (λ slot' is3.
            After-option Q R (on_last (λ _. slot') dst1) _ (λ dst2 is4.
              let (last1, alloc1) =
                on_last-keeps (λ y. record y { pkt = pkt }) w.dst dst1 k old x h is1 in
              let at_end : dst1.nb - 1 ≡ k = omega (arith, last1.count) in
              let same =
                eq_of_some
                  (sym last1.here ∙ ap (λ (n : ℕ). get_elem? dst1.slots n) (sym at_end) ∙ is2) in
              let (header, payload, flag) = packet_encode_header-keeps encode slot slot' is3 in
              let (last2, alloc2) =
                on_last-keeps (λ _. slot') dst1 dst2 k old (record x { pkt = pkt }) last1 is4 in
              record {
                same_s = refl;
                same_state = refl;
                same_acc = refl;
                x = slot';
                last = last2;
                header = header ∙ ap (λ (y : AvtPktd). y.pkt) (sym same);
                payload = payload ∙ ap (λ (y : AvtPktd). y.pl) (sym same);
                same_alloc = alloc2 ∙ alloc1;
              }))))

  pub account-After :
      (w : Push) (acc : ℕ) (R : Result ℕ → Push → Type 0)
      → After (Accounted w acc) R (account hdr_size encode realloc w acc)
  unfolding account
  account-After w acc R =
      After-option (Accounted w acc) R (update_sw w.s acc) _
        (λ s' is. record { same_state = refl; same_dst = refl; more = refl })
