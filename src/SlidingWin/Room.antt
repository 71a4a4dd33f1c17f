-- ===== src/SlidingWin/Room.antt =====
-- The window keeps inside its array.
use qproto.Common.{
  ℕ, zero, suc, ◌+◌, ◌-◌, ◌≤◌, ◌<◌, ◌≡◌, refl, ◌∙◌, arith, false, ◌||◌, some, length, get_elem?,
  set, take, drop, length-overwrite, length-set, leb, ltb, leb→le, Option-cases, Bool-cases, inl,
  inr,
}
use qproto.Common.Int.{ℤ, pos, ltb_ℤ}
use qproto.Rational.{AvtRational, avt_compare_ts}
use qproto.Rational.Reduce.{avt_add_stable}
use qproto.SlidingWin.{
  AvtSlidingWinEntry, AvtSlidingWinCtx, remove_at, evict, sum_entries, avt_sliding_win,
}

-- The array stays, and the count does not grow.
record Shrinks (a b : AvtSlidingWinCtx) : Type 0 where
  same_array : length b.entries ≡ length a.entries
  not_more : b.num_entries ≤ a.num_entries

remove_at-Shrinks :
    (i : ℕ) (a b : AvtSlidingWinCtx)
    → remove_at i a ≡ some b
    → Shrinks a b × (b.num_entries ≡ a.num_entries - 1)
unfolding remove_at
remove_at-Shrinks i a b e =
    ground (arith, length-overwrite a.entries i (take (a.num_entries - 1) (drop (i + 1) a.entries)))

-- One round of the loop.
record Round (i : ℕ) (a b : AvtSlidingWinCtx) : Type 0 where
  shrinks : Shrinks a b
  room : length a.entries < a.num_entries + 1 → b.num_entries ≡ a.num_entries - 1

evict-Round :
    (rounds i : ℕ) (ts : ℤ) (tb : AvtRational) (period : ℤ) (a c : AvtSlidingWinCtx)
    → i < a.num_entries
    → evict (suc rounds) i ts tb period a ≡ some c
    → (b : AvtSlidingWinCtx) × Round i a b × (evict rounds (i + 1) ts tb period b ≡ some c)
unfolding evict
evict-Round rounds i ts tb period a c inside e = elim (Option-cases (get_elem? a.entries i)) [
  | inl past ↦ absurd (ground arith)
  | inr (last, here) ↦ elim (Option-cases (avt_add_stable last.tb last.ts tb period)) [
    | inl fault ↦ absurd (ground arith)
    | inr (test, tested) ↦
        elim (Bool-cases (
          ltb (length a.entries) (a.num_entries + 1)
          || ltb_ℤ (avt_compare_ts test last.tb ts tb) (pos 0))) [
            | inl old ↦ elim (Option-cases (remove_at i a)) [
              | inl fault ↦ absurd (ground arith)
              | inr (b, gone) ↦
                  let (shrinks, less) = remove_at-Shrinks i a b gone in
                  (b, record { shrinks = shrinks; room = λ full. less }, ground arith)
            ]
            | inr young ↦ (
              a,
              record {
                shrinks = record { same_array = refl; not_more = omega arith };
                room = λ full. ground arith;
              },
              ground arith,
            )
          ]
  ]
]

evict_stops :
    (rounds i : ℕ) (ts : ℤ) (tb : AvtRational) (period : ℤ) (a c : AvtSlidingWinCtx)
    → a.num_entries ≤ i
    → evict rounds i ts tb period a ≡ some c
    → Shrinks a c
unfolding evict
evict_stops zero i ts tb period a c past e = ground arith
evict_stops (suc rounds) i ts tb period a c past e = ground arith

evict_empty :
    (i : ℕ) (ts : ℤ) (tb : AvtRational) (period : ℤ) (a c : AvtSlidingWinCtx)
    → evict zero i ts tb period a ≡ some c
    → Shrinks a c
unfolding evict
evict_empty i ts tb period a c e = ground arith

Shrinks-trans : (a b c : AvtSlidingWinCtx) → Shrinks a b → Shrinks b c → Shrinks a c
Shrinks-trans a b c h k = record {
  same_array = k.same_array ∙ h.same_array;
  not_more = omega (arith, h.not_more, k.not_more);
}

evict-Shrinks :
    (rounds i : ℕ) (ts : ℤ) (tb : AvtRational) (period : ℤ) (a c : AvtSlidingWinCtx)
    → evict rounds i ts tb period a ≡ some c
    → Shrinks a c
evict-Shrinks zero i ts tb period a c e = evict_empty i ts tb period a c e
evict-Shrinks (suc rounds) i ts tb period a c e = elim (Bool-cases (leb a.num_entries i)) [
  | inl past ↦ evict_stops (suc rounds) i ts tb period a c (leb→le a.num_entries i past) e
  | inr inside ↦
      let (b, round, rest) = evict-Round rounds i ts tb period a c (ground arith) e in
      Shrinks-trans a b c round.shrinks (evict-Shrinks rounds (i + 1) ts tb period b c rest)
]

-- After the loop there is room for one more entry.
evict-room :
    (n : ℕ) (ts : ℤ) (tb : AvtRational) (period : ℤ) (a c : AvtSlidingWinCtx)
    → n ≡ a.num_entries
    → a.num_entries ≤ length a.entries
    → 0 < length a.entries
    → evict n 0 ts tb period a ≡ some c
    → (c.num_entries < length a.entries) × Shrinks a c
evict-room zero ts tb period a c is fits some_room e =
    let h = evict-Shrinks zero 0 ts tb period a c e in (omega (arith, h.not_more), h)
evict-room (suc n) ts tb period a c is fits some_room e =
    let (b, round, rest) = evict-Round n 0 ts tb period a c (omega arith) e in
    let h = evict-Shrinks n 1 ts tb period b c rest in
    (
      ground (arith, round.room, round.shrinks.not_more, h.not_more),
      Shrinks-trans a b c round.shrinks h,
    )

-- In a window whose count is within its array, the loop makes room if the window was full, so that
-- the new entry never lies past the array and the array keeps its length; without an average the
-- call succeeds as soon as the loop has not failed, and the count grows by one at most.
pub avt_sliding_win_room :
    (ctx kept : AvtSlidingWinCtx) (val ts : ℤ) (tb : AvtRational) (period : ℤ)
    → ctx.num_entries ≤ length ctx.entries
    → 0 < length ctx.entries
    → evict ctx.num_entries 0 ts tb period ctx ≡ some kept
    → (sum : ℤ) × (after : AvtSlidingWinCtx) × (avt_sliding_win ctx val ts tb period false
        ≡ some (sum, after))
      × (0 < after.num_entries)
      × (after.num_entries ≤ length after.entries)
      × (after.num_entries ≤ ctx.num_entries + 1)
      × (length after.entries ≡ length ctx.entries)
unfolding avt_sliding_win
avt_sliding_win_room ctx kept val ts tb period fits some_room e =
    let (room, h) = evict-room ctx.num_entries ts tb period ctx kept refl fits some_room e in
    let top : AvtSlidingWinEntry = record { val = val; ts = ts; tb = tb } in
    let n = kept.num_entries + 1 in
    let es = set kept.entries kept.num_entries top in
    let stored : length es ≡ length kept.entries = length-set kept.entries kept.num_entries top in
    (
      sum_entries n es,
      record { num_entries = n; entries = es },
      ground (arith, h.same_array),
      omega arith,
      omega (arith, stored, h.same_array),
      omega (arith, h.not_more),
      stored ∙ h.same_array,
    )
