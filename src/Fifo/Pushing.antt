-- ===== src/Fifo/Pushing.antt =====
-- `avt_pkt_fifo_push_new` and the changes made to the packet that it returns.
use qproto.Common.{
  ℕ, zero, suc, ◌+◌, ◌-◌, ◌*◌, ◌^◌, ◌≤◌, ◌<◌, ◌≡◌, refl, ◌∙◌, sym, ap, Result-cases, arith, max,
  true, false, List, [], ◌∷◌, ◌++◌, Option, none, some, ok, get_elem?, set, take, u32, length-set,
  leb, Option-cases, Bool-cases, inl, inr, eq_of_some,
}
use mathlib.Core.Path.{subst}
use qproto.Buffer.{AvtBuffer, Heap, buffer_quick_ref}
use qproto.Fifo.{AvtPktd, AvtPacketFifo, make_room, pkt_fifo_push_new, on_last}
use qproto.Fifo.Queue.{contents, IsValid, HasRoom, make_room_lem, roomy-HasRoom}

-- The FIFO holds `old` and then `x`, which is in slot `k`.
pub record LastIs (f : AvtPacketFifo) (k : ℕ) (old : List AvtPktd) (x : AvtPktd) : Type 0 where
  pub valid : IsValid f
  pub count : f.nb ≡ suc k
  pub before : take k f.slots ≡ old
  pub here : get_elem? f.slots k ≡ some x

take-set_before : (xs : List AvtPktd) (k : ℕ) (y : AvtPktd) → take k (set xs k y) ≡ take k xs
take-set_before [] zero y = refl
take-set_before [] (suc k) y = refl
take-set_before (x ∷ xs) zero y = refl
take-set_before (x ∷ xs) (suc k) y = ap (λ ys. x ∷ ys) (take-set_before xs k y)

get_elem?-set :
    (xs : List AvtPktd) (k : ℕ) (x y : AvtPktd)
    → get_elem? xs k ≡ some x
    → get_elem? (set xs k y) k ≡ some y
get_elem?-set [] k x y h = ground arith
get_elem?-set (z ∷ zs) zero x y h = refl
get_elem?-set (z ∷ zs) (suc k) x y h = get_elem?-set zs k x y h

take-last :
    (xs : List AvtPktd) (k : ℕ) (x : AvtPktd)
    → get_elem? xs k ≡ some x
    → take (suc k) xs ≡ take k xs ++ (x ∷ [])
take-last [] k x h = ground arith
take-last (z ∷ zs) zero x h = ground arith
take-last (z ∷ zs) (suc k) x h = ap (λ ys. z ∷ ys) (take-last zs k x h)

pub LastIs-contents :
    (f : AvtPacketFifo) (k : ℕ) (old : List AvtPktd) (x : AvtPktd)
    → LastIs f k old x
    → contents f ≡ old ++ (x ∷ [])
LastIs-contents f k old x h =
    ap (λ (n : ℕ). take n f.slots) h.count
    ∙ take-last f.slots k x h.here
    ∙ ap (λ ys. ys ++ (x ∷ [])) h.before

-- A change of the last packet.
pub on_last-LastIs :
    (change : AvtPktd → AvtPktd) (f : AvtPacketFifo) (k : ℕ) (old : List AvtPktd) (x : AvtPktd)
    → LastIs f k old x
    → (g : AvtPacketFifo) × (on_last change f ≡ some g)
      × LastIs g k old (change x)
      × (g.alloc ≡ f.alloc)
unfolding on_last
on_last-LastIs change f k old x h =
    let at_end : f.nb - 1 ≡ k = omega (arith, h.count) in
    let found : get_elem? f.slots (f.nb - 1) ≡ some x =
      ap (λ (n : ℕ). get_elem? f.slots n) at_end ∙ h.here in
    (
      record f { slots = set f.slots k (change x) },
      ground (arith, found, at_end),
      record {
        valid = record {
          allocated = length-set f.slots k (change x) ∙ h.valid.allocated;
          within = h.valid.within;
        };
        count = h.count;
        before = take-set_before f.slots k (change x) ∙ h.before;
        here = get_elem?-set f.slots k x (change x) h.here;
      },
      refl,
    )

eq_of_ok : {A : Type 0} {a b : A} → ok a ≡ ok b → a ≡ b
eq_of_ok e = cc

no_room : (f g : AvtPacketFifo) → leb f.alloc (u32 (f.nb + 1)) ≡ true → make_room none f ≡ ok g → ⊥
unfolding make_room
no_room f g full e = ground arith

as_is :
    (f g : AvtPacketFifo) → leb f.alloc (u32 (f.nb + 1)) ≡ false → make_room none f ≡ ok g → f ≡ g
unfolding make_room
as_is f g fits e = eq_of_ok (sym (rw fits refl) ∙ e)

-- Room for one more packet, if the call did not fail.
make_room-HasRoom :
    (realloc : Option AvtPktd) (f g : AvtPacketFifo)
    → IsValid f
    → f.alloc < 2 ^ 31
    → make_room realloc f ≡ ok g
    → HasRoom f g
make_room-HasRoom none f g v small e = elim (Bool-cases (leb f.alloc (u32 (f.nb + 1)))) [
  | inl full ↦ absurd (no_room f g full e)
  | inr fits ↦
      subst (λ x. HasRoom f x) (as_is f g fits e)
        (record {
          valid = v;
          same_nb = refl;
          room = ground arith;
          same = refl;
          growth = omega arith;
        })
]
make_room-HasRoom (some junk) f g v small e =
    subst (λ x. HasRoom f x) (eq_of_ok (sym (make_room_lem junk f) ∙ e))
      (roomy-HasRoom junk f v small)

-- The new packet in the slot that there is room for.
pushed-LastIs :
    (f m : AvtPacketFifo) (slot y : AvtPktd)
    → f.nb ≤ f.alloc
    → f.alloc < 2 ^ 31
    → HasRoom f m
    → get_elem? m.slots m.nb ≡ some slot
    → LastIs (record m { slots = set m.slots m.nb y; nb = u32 (m.nb + 1) }) f.nb (contents f) y
pushed-LastIs f m slot y within small room here =
    let one_more : u32 (m.nb + 1) ≡ suc f.nb =
      omega (arith, room.room, room.growth, room.same_nb) in
    record {
      valid = record {
        allocated = length-set m.slots m.nb y ∙ room.valid.allocated;
        within = omega (arith, room.room, room.same_nb);
      };
      count = one_more;
      before =
          ap (λ (n : ℕ). take n (set m.slots m.nb y)) (sym room.same_nb)
          ∙ take-set_before m.slots m.nb y
          ∙ room.same;
      here =
          ap (λ (n : ℕ). get_elem? (set m.slots m.nb y) n) (sym room.same_nb)
          ∙ get_elem?-set m.slots m.nb slot y here;
    }

-- What a new reference shows of the referenced buffer.
ref-view :
    (stale buf b : AvtBuffer) (offset len : ℕ) (h h' : Heap) (r : ℕ)
    → buf.refcnt ≡ some r
    → 0 < len
    → buffer_quick_ref stale buf offset len h ≡ some (b, h')
    → (b.data_ ≡ buf.data_ + offset) × (b.len ≡ len)
unfolding buffer_quick_ref
ref-view stale buf b offset len h h' r counted some_len e = ground arith

-- A push of a view of a payload, if it neither fails nor faults.
pub record Pushed (f g : AvtPacketFifo) (offset len : ℕ) (buf : AvtBuffer) : Type 0 where
  pub x : AvtPktd
  pub last : LastIs g f.nb (contents f) x
  pub start : x.pl.data_ ≡ buf.data_ + offset
  pub size : x.pl.len ≡ len
  pub growth : g.alloc ≤ max f.alloc (2 * f.nb + 2)

pub push_new-Pushed :
    (realloc : Option AvtPktd) (f g : AvtPacketFifo) (buf : AvtBuffer) (offset len : ℕ)
    (h h' : Heap) (r : ℕ)
    → IsValid f
    → f.alloc < 2 ^ 31
    → buf.refcnt ≡ some r
    → 0 < len
    → pkt_fifo_push_new realloc f (some buf) offset len h ≡ some (ok g, h')
    → Pushed f g offset len buf
unfolding pkt_fifo_push_new
push_new-Pushed realloc f g buf offset len h h' r v small counted some_len e =
    elim (Result-cases (make_room realloc f)) [
      | inl (c, fails) ↦ absurd (ground arith)
      | inr (m, made) ↦
          let room = make_room-HasRoom realloc f m v small made in
          elim (Option-cases (get_elem? m.slots m.nb)) [
            | inl past ↦ absurd (ground arith)
            | inr (slot, here) ↦ elim (Option-cases (buffer_quick_ref slot.pl buf offset len h)) [
              | inl fault ↦ absurd (ground arith)
              | inr ((b, hb), refd) ↦
                  let y : AvtPktd = record slot { pl = b } in
                  let view = ref-view slot.pl buf b offset len h hb r counted some_len refd in
                  let made : record m { slots = set m.slots m.nb y; nb = u32 (m.nb + 1) } ≡ g =
                    ground arith in
                  subst (λ x. Pushed f x offset len buf) made
                    (record {
                      x = y;
                      last = pushed-LastIs f m slot y v.within small room here;
                      start = view.0;
                      size = view.1;
                      growth = room.growth;
                    })
            ]
          ]
    ]

pub on_last-keeps :
    (change : AvtPktd → AvtPktd) (f g : AvtPacketFifo) (k : ℕ) (old : List AvtPktd) (x : AvtPktd)
    → LastIs f k old x
    → on_last change f ≡ some g
    → LastIs g k old (change x) × (g.alloc ≡ f.alloc)
on_last-keeps change f g k old x h e =
    let (g', runs, last, same) = on_last-LastIs change f k old x h in
    subst (λ y. LastIs y k old (change x) × (y.alloc ≡ f.alloc)) (eq_of_some (sym runs ∙ e))
      (last, same)
