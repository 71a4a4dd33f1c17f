-- ===== src/Output/Streams/Listing.antt =====
-- The list of active streams: what it says, and that it grows without end.
use mathlib.Core.Path.{subst}
use qproto.Common.{
  ℕ, zero, suc, ◌+◌, ◌≤◌, ◌<◌, ◌≡◌, refl, ◌⊎◌, inl, inr, ◌∙◌, sym, arith, Bool, true, false, ◌&&◌,
  List, [], ◌∷◌, ◌++◌, none, some, Result, length, length-append, leb, ◌==◌, not, Bool-cases,
  Option-cases,
}
use qproto.Output.Streams.{
  SenderStreams, added, closed, send_stream_add, send_stream_close, Op, add, close, apply_op, run,
}

abbrev pub IsIn : ℕ → List ℕ → Type 0
IsIn id [] = ⊥
IsIn id (x ∷ xs) = (x ≡ id) ⊎ IsIn id xs

IsIn-left : (id : ℕ) (xs ys : List ℕ) → IsIn id xs → IsIn id (xs ++ ys)
IsIn-left id [] ys h = absurd h
IsIn-left id (x ∷ xs) ys (inl e) = inl e
IsIn-left id (x ∷ xs) ys (inr h) = inr (IsIn-left id xs ys h)

IsIn-last : (id : ℕ) (xs : List ℕ) → IsIn id (xs ++ (id ∷ []))
IsIn-last id [] = inl refl
IsIn-last id (x ∷ xs) = inr (IsIn-last id xs)

-- What the list of active streams says.
pub record IsListing (s : SenderStreams) : Type 0 where
  pub counted : s.nb_streams ≡ length s.active_stream_idx
  pub bounded : s.nb_streams ≤ 65535
  pub listed : (id : ℕ) → (s.streams id).active ≡ true → IsIn id s.active_stream_idx
  pub reserved : (s.streams 65535).active ≡ false

added-IsListing :
    (s : SenderStreams) (id : ℕ)
    → IsListing s
    → (id == 65535) ≡ false
    → leb 65535 s.nb_streams ≡ false
    → IsListing (added s id)
added-IsListing s id v h room = record {
  counted = omega (arith, v.counted, length-append {0} s.active_stream_idx (id ∷ []));
  bounded = let b = v.bounded in ground arith;
  listed = λ i a. elim (Bool-cases (i == id)) [
    | inl same ↦ let e : i ≡ id = ground arith in rw e (IsIn-last id s.active_stream_idx)
    | inr other ↦ IsIn-left i s.active_stream_idx (id ∷ []) (v.listed i (ground arith))
  ];
  reserved = let r = v.reserved in ground arith;
}

-- What adding does where it does not fault.
add-cases :
    (s : SenderStreams) (id : ℕ) (m : Bool) (done : Bool) (s' : SenderStreams)
    → send_stream_add m s id ≡ some (done, s')
    → (s ≡ s') ⊎ ((added s id ≡ s') × ((id == 65535) ≡ false) × (leb 65535 s.nb_streams ≡ false))
unfolding send_stream_add
add-cases s id m done s' e = elim (Bool-cases (id == 65535)) [
  | inl a ↦ inl (ground arith)
  | inr a ↦ elim (Bool-cases ((s.streams id).allocated && (s.streams id).active)) [
    | inl b ↦ inl (ground arith)
    | inr b ↦ elim (Bool-cases (not (s.streams id).allocated && not m)) [
      | inl c ↦ inl (ground arith)
      | inr c ↦ elim (Bool-cases (leb 65535 s.nb_streams)) [
        | inl full ↦ absurd (ground arith)
        | inr room ↦ inr (ground arith, a, room)
      ]
    ]
  ]
]

add-IsListing :
    (s : SenderStreams) (id : ℕ) (m : Bool) (done : Bool) (s' : SenderStreams)
    → IsListing s
    → send_stream_add m s id ≡ some (done, s')
    → IsListing s'
add-IsListing s id m done s' v e = elim (add-cases s id m done s' e) [
  | inl same ↦ subst IsListing same v
  | inr (new, h, room) ↦ subst IsListing new (added-IsListing s id v h room)
]

close-cases :
    (s : SenderStreams) (id : ℕ) (r : Result (Unit {0})) (s' : SenderStreams)
    → send_stream_close s id ≡ some (r, s')
    → (s ≡ s') ⊎ (closed s id ≡ s')
unfolding send_stream_close
close-cases s id r s' e = elim (Bool-cases ((s.streams id).allocated)) [
  | inr missing ↦ absurd (ground arith)
  | inl there ↦ elim (Bool-cases ((s.streams id).active)) [
    | inr idle ↦ inl (ground arith)
    | inl busy ↦ inr (ground arith)
  ]
]

closed-IsListing : (s : SenderStreams) (id : ℕ) → IsListing s → IsListing (closed s id)
closed-IsListing s id v = record {
  counted = v.counted;
  bounded = v.bounded;
  listed = λ i a. v.listed i (ground arith);
  reserved = let r = v.reserved in ground arith;
}

apply_op-IsListing :
    (s : SenderStreams) (op : Op) (s' : SenderStreams)
    → IsListing s
    → apply_op s op ≡ some s'
    → IsListing s'
unfolding apply_op
apply_op-IsListing s (add id) s' v e = elim (Option-cases (send_stream_add true s id)) [
  | inl faults ↦ absurd (ground arith)
  | inr (r, made) ↦ add-IsListing s id true r.0 s' v (made ∙ ground arith)
]
apply_op-IsListing s (close id) s' v e = elim (Option-cases (send_stream_close s id)) [
  | inl faults ↦ absurd (ground arith)
  | inr (r, made) ↦ elim (close-cases s id r.0 s' (made ∙ ground arith)) [
    | inl same ↦ subst IsListing same v
    | inr new ↦ subst IsListing new (closed-IsListing s id v)
  ]
]

-- Any calls that add and close streams, from a sender with a sound list: every active stream is in the
-- list of active streams, which is counted and within its 65535 entries, and the reserved ID is
-- never active.
pub run-IsListing :
    (s : SenderStreams) (ops : List Op) {s' : SenderStreams}
    → IsListing s
    → run s ops ≡ some s'
    → IsListing s'
unfolding run
run-IsListing s [] {s'} v e = let same : s ≡ s' = cc in subst IsListing same v
run-IsListing s (op ∷ ops) v e = elim (Option-cases (apply_op s op)) [
  | inl faults ↦ absurd (ground arith)
  | inr (mid, step) ↦
      run-IsListing mid ops (apply_op-IsListing s op mid v step) (sym (rw step refl) ∙ e)
]

-- A stream is opened and closed again, so many times.
abbrev pub cycles : ℕ → ℕ → List Op
cycles zero id = []
cycles (suc n) id = add id ∷ close id ∷ cycles n id

add-idle :
    (s : SenderStreams) (id : ℕ)
    → (id == 65535) ≡ false
    → (s.streams id).active ≡ false
    → s.nb_streams < 65535
    → apply_op s (add id) ≡ some (added s id)
unfolding apply_op send_stream_add
add-idle s id h idle room = elim (Bool-cases ((s.streams id).allocated)) [
  | inl a ↦ ground arith
  | inr a ↦ ground arith
]

close-active :
    (s : SenderStreams) (id : ℕ)
    → (s.streams id).allocated ≡ true
    → (s.streams id).active ≡ true
    → apply_op s (close id) ≡ some (closed s id)
unfolding apply_op send_stream_close
close-active s id a b = ground arith

self : (id : ℕ) → (id == id) ≡ true
self id = ground arith

-- One entry more after each.
cycle :
    (s : SenderStreams) (id : ℕ) (ops : List Op)
    → (id == 65535) ≡ false
    → (s.streams id).active ≡ false
    → s.nb_streams < 65535
    → run s (add id ∷ close id ∷ ops) ≡ run (closed (added s id) id) ops
unfolding run
cycle s id ops h idle room =
    let open_it = add-idle s id h idle room in
    let close_it = close-active (added s id) id (rw (self id) refl) (rw (self id) refl) in
    rw open_it (rw close_it refl)

-- Opening and closing leaves every stream as active as it was.
cycle-active :
    (s : SenderStreams) (id i : ℕ)
    → (s.streams id).active ≡ false
    → ((closed (added s id) id).streams i).active ≡ (s.streams i).active
cycle-active s id i idle = elim (Bool-cases (i == id)) [
  | inl same ↦ let e : i ≡ id = ground arith in rw e (rw (self id) (sym idle))
  | inr other ↦ rw other refl
]

add-full :
    (s : SenderStreams) (id : ℕ)
    → id < 65535
    → (s.streams id).active ≡ false
    → s.nb_streams ≡ 65535
    → apply_op s (add id) ≡ none
unfolding apply_op send_stream_add
add-full s id h idle full = elim (Bool-cases ((s.streams id).allocated)) [
  | inl a ↦ ground arith
  | inr a ↦ ground arith
]

-- A stream that is not active, in a sender whose list has room for `n` entries more, is opened and
-- closed `n` times: all of these calls go without a fault, and then every stream is as active as before,
-- but the list is full, and one opening more of the same stream writes behind its 65535 entries.
pub run-cycles :
    (n : ℕ) (s : SenderStreams) (id : ℕ)
    → id < 65535
    → (s.streams id).active ≡ false
    → s.nb_streams + n ≡ 65535
    → (s' : SenderStreams) × (run s (cycles n id) ≡ some s')
      × (s'.nb_streams ≡ 65535)
      × ((i : ℕ) → (s'.streams i).active ≡ (s.streams i).active)
      × (apply_op s' (add id) ≡ none)
unfolding run
run-cycles zero s id h idle full =
    (s, refl, omega arith, λ i. refl, add-full s id h idle (omega arith))
run-cycles (suc n) s id h idle room =
    let other : (id == 65535) ≡ false = ground arith in
    let next = closed (added s id) id in
    let quiet : (next.streams id).active ≡ false = rw (self id) refl in
    let (s', runs, count, same, fault) = run-cycles n next id h quiet (omega arith) in
    (
      s',
      cycle s id (cycles n id) other idle (omega arith) ∙ runs,
      count,
      λ i. same i ∙ cycle-active s id i idle,
      fault,
    )
