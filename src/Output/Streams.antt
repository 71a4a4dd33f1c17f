-- ===== src/Output/Streams.antt =====
-- libavtransport/output.c: the streams of a sender. A stream's state is whether its private data is
-- allocated and whether it is active; the fields that the user sets are not looked at.
pub mod Listing
use qproto.Common.{
  ℕ, zero, suc, ◌+◌, ◌-◌, ◌*◌, ◌≤◌, ◌<◌, ◌^◌, ◌≡◌, refl, ◌≢◌, ◌⊎◌, inl, inr, ap, ◌∙◌, sym, arith,
  Bool, true, false, ◌&&◌, List, [], ◌∷◌, ◌++◌, Option, none, some, Result, ok, err, Err, einval,
  length, length-append, leb, ◌==◌, not, if◌then◌else◌, Bool-cases, ◌>>=◌,
}

pub record StreamState : Type 0 where
  pub allocated : Bool
  pub active : Bool

-- `streams` holds a stream for each ID, and `active_stream_idx` the entries that were written.
pub record SenderStreams : Type 0 where
  pub streams : ℕ → StreamState
  pub active_stream_idx : List ℕ
  pub nb_streams : ℕ

abbrev pub set_stream : SenderStreams → ℕ → StreamState → SenderStreams
set_stream s id st = record s { streams = λ i. if i == id then st else s.streams i }

abbrev pub added : SenderStreams → ℕ → SenderStreams
added s id = record (set_stream s id (record { allocated = true; active = true })) {
  active_stream_idx = s.active_stream_idx ++ (id ∷ []);
  nb_streams = s.nb_streams + 1;
}

-- The answer, NULL or not, and the sender. A write behind the 65535 entries is a fault.
unfoldable pub send_stream_add : Bool → SenderStreams → ℕ → Option (Bool × SenderStreams)
send_stream_add has_memory s id =
    let st = s.streams id in
    if id == 65535
    then some (false, s)
    else if st.allocated && st.active
    then some (false, s)
    else if not st.allocated && not has_memory
    then some (false, s)
    else if leb 65535 s.nb_streams
    then none
    else some (true, added s id)

abbrev pub closed : SenderStreams → ℕ → SenderStreams
closed s id = set_stream s id (record (s.streams id) { active = false })

-- For a stream of the sender; the message about one without private data reads through NULL.
unfoldable pub send_stream_close : SenderStreams → ℕ → Option (Result (Unit {0}) × SenderStreams)
send_stream_close s id =
    let st = s.streams id in
    if not st.allocated
    then none
    else if not st.active
    then some (err einval, s)
    else some (ok tt, closed s id)

pub data Op : Type 0 where
  add close : ℕ → Op

unfoldable pub apply_op : SenderStreams → Op → Option SenderStreams
unfolding send_stream_add send_stream_close
apply_op s (add id) = elim (send_stream_add true s id) [ none ↦ none | some (done, s') ↦ some s' ]
apply_op s (close id) = elim (send_stream_close s id) [ none ↦ none | some (r, s') ↦ some s' ]

unfoldable pub run : SenderStreams → List Op → Option SenderStreams
unfolding apply_op
run s [] = some s
run s (op ∷ ops) = apply_op s op >>= λ s'. run s' ops
