-- ===== src/SlidingWin.antt =====
-- libavtransport/utils.c and utils_internal.h: `avt_sliding_win`. The array of the window has
-- AVT_SLIDING_WINDOW_MAX_ENTRIES entries; it is a list of any length here. `none` is an access past
-- its end or a division by zero. The sums are taken not to overflow.
pub mod Room
pub mod Skips
mod Tests
use qproto.Common.{
  ℕ, zero, suc, ◌+◌, ◌-◌, Bool, true, false, ◌||◌, ◌&&◌, List, [], ◌∷◌, Option, none, some, ◌>>=◌,
  length, get_elem?, set, take, drop, overwrite, ltb, leb, ◌==◌, not, if◌then◌else◌,
}
use qproto.Common.Int.{ℤ, pos, negsuc, ◌+ℤ◌, div_ℤ, ltb_ℤ}
use qproto.Rational.{AvtRational, avt_compare_ts}
use qproto.Rational.Reduce.{avt_add_stable}

pub record AvtSlidingWinEntry : Type 0 where
  pub val : ℤ
  pub ts : ℤ
  pub tb : AvtRational

pub record AvtSlidingWinCtx : Type 0 where
  pub num_entries : ℕ
  pub entries : List AvtSlidingWinEntry

-- `num_entries--` and the `memmove`, which moves as many entries as are left in the whole window.
pub remove_at : ℕ → AvtSlidingWinCtx → Option AvtSlidingWinCtx
remove_at i ctx =
    if leb (i + 1 + (ctx.num_entries - 1)) (length ctx.entries)
    then some (record {
      num_entries = ctx.num_entries - 1;
      entries = overwrite ctx.entries i (take (ctx.num_entries - 1) (drop (i + 1) ctx.entries));
    })
    else none

-- The loop, from entry `i` on; an entry that moves to the place of a removed one is not looked at.
pub evict : ℕ → ℕ → ℤ → AvtRational → ℤ → AvtSlidingWinCtx → Option AvtSlidingWinCtx
unfolding remove_at
evict zero i ts tb period ctx = some ctx
evict (suc rounds) i ts tb period ctx =
    if leb ctx.num_entries i
    then some ctx
    else get_elem? ctx.entries i >>= λ last. avt_add_stable last.tb last.ts tb period >>= λ test.
        (if ltb (length ctx.entries) (ctx.num_entries + 1)
            || ltb_ℤ (avt_compare_ts test last.tb ts tb) (pos 0)
          then remove_at i ctx
          else some ctx)
        >>= λ ctx'. evict rounds (i + 1) ts tb period ctx'

pub sum_entries : ℕ → List AvtSlidingWinEntry → ℤ
sum_entries zero es = pos 0
sum_entries (suc n) [] = pos 0
sum_entries (suc n) (e ∷ es) = e.val +ℤ sum_entries n es

-- The value returned, and the window.
unfoldable pub avt_sliding_win :
    AvtSlidingWinCtx → ℤ → ℤ → AvtRational → ℤ → Bool → Option (ℤ × AvtSlidingWinCtx)
unfolding evict sum_entries
avt_sliding_win ctx val ts tb period do_avg = evict ctx.num_entries 0 ts tb period ctx >>= λ kept.
    let top : AvtSlidingWinEntry = record { val = val; ts = ts; tb = tb } in
    let n = kept.num_entries + 1 in
    let es = set kept.entries kept.num_entries top in
    let after : AvtSlidingWinCtx = record { num_entries = n; entries = es } in
    if ltb (length kept.entries) n
    then none
    else if do_avg
    then (div_ℤ (sum_entries n es) (pos n) >>= λ average. some (average, after))
    else some (sum_entries n es, after)
