-- ===== src/Address/Settings/Listed.antt =====
-- The lists of default streams that are printed, and what `parse_default_streams` reads of them.
use mathlib.Core.List.{append_assoc}
use qproto.Common.{
  ℕ, ◌+◌, ◌*◌, ◌≤◌, ◌<◌, ◌≡◌, refl, ◌≢◌, ap, sym, ◌∙◌, arith, true, List, [], ◌∷◌, ◌++◌, map,
  Option, none, some, length, length-append,
}
use qproto.Strings.{codes}
use qproto.Strings.Tokens.{AllWords, join, tokens-join}
use qproto.Strings.Numbers.{print, strtoul-print, print-IsWord}
use qproto.Address.Types.{AddressOptions, System, done}
use qproto.Address.Settings.{
  stream_id, sid_array, append_stream, add_stream, add_streams, first_streams,
  parse_default_streams,
}
use qproto.Address.Settings.Streams.{Missing, AreStreams, entries, holds-Missing, put-length}

-- Words that are printed IDs.
stream_id-print : (v : ℕ) → v < 65535 → stream_id (print v) ≡ done v
unfolding stream_id
stream_id-print v h = ground (arith, strtoul-print v (omega arith))

Missing-mid : (v : ℕ) (xs vs : List ℕ) → AreStreams (xs ++ (v ∷ vs)) → Missing v xs
Missing-mid v [] vs a = tt
Missing-mid v (x ∷ xs) vs (b, m, a) = (λ e. head_of xs m (sym e), Missing-mid v xs vs a)
  where
    head_of : (ys : List ℕ) → Missing x (ys ++ (v ∷ vs)) → v ≢ x
    head_of [] (ne, _) = ne
    head_of (y ∷ ys) (_, n) = head_of ys n

lt-mid : (v : ℕ) (xs vs : List ℕ) → AreStreams (xs ++ (v ∷ vs)) → v < 65535
lt-mid v [] vs (b, m, a) = b
lt-mid v (x ∷ xs) vs (b, m, a) = lt-mid v xs vs a

append_stream-new :
    (xs : List ℕ) (v : ℕ)
    → Missing v xs
    → length xs < 65535
    → append_stream xs (length xs) v ≡ done (some (xs ++ (v ∷ [])), length xs + 1)
unfolding append_stream
append_stream-new xs v m h =
    ground (arith, holds-Missing v xs m (length xs) (omega arith), put-length xs v)

-- The array that a round takes: the one there is, or a new one.
abbrev HasArray : System → Option (List ℕ) → Type 0
HasArray sys none = sys.has_memory (65535 * 2) ≡ true
HasArray sys (some xs) = Unit

sid_array-HasArray :
    (sys : System) (sids : Option (List ℕ))
    → HasArray sys sids
    → sid_array sys sids ≡ done (entries sids)
unfolding sid_array
sid_array-HasArray sys none h = ground arith
sid_array-HasArray sys (some xs) h = refl

add_stream-print :
    (sys : System) (sids : Option (List ℕ)) (v : ℕ) (vs : List ℕ)
    → HasArray sys sids
    → AreStreams (entries sids ++ (v ∷ vs))
    → length (entries sids ++ (v ∷ vs)) ≤ 65535
    → add_stream sys (sids, length (entries sids)) (print v)
      ≡ done (some (entries sids ++ (v ∷ [])), length (entries sids) + 1)
unfolding add_stream
add_stream-print sys sids v vs array a h =
    let xs = entries sids in
    let read = stream_id-print v (lt-mid v xs vs a) in
    let room : length xs < 65535 = omega (arith, length-append {0} xs (v ∷ vs)) in
    rw (read, sid_array-HasArray sys sids array)
      (append_stream-new xs v (Missing-mid v xs vs a) room)

add_streams-print :
    (sys : System) (sids : Option (List ℕ)) (v : ℕ) (vs : List ℕ)
    → HasArray sys sids
    → AreStreams (entries sids ++ (v ∷ vs))
    → length (entries sids ++ (v ∷ vs)) ≤ 65535
    → add_streams sys (sids, length (entries sids)) (map print (v ∷ vs))
      ≡ done (some (entries sids ++ (v ∷ vs)), length (entries sids ++ (v ∷ vs)))
unfolding add_streams
add_streams-print sys sids v [] array a h = rw (add_stream-print sys sids v [] array a h) (
    ap (λ n. done (some (entries sids ++ (v ∷ [])), n))
      (omega (arith, length-append {0} (entries sids) (v ∷ []))))
add_streams-print sys sids v (w ∷ vs) array a h =
    let xs = entries sids in
    let shift : (xs ++ (v ∷ [])) ++ (w ∷ vs) ≡ xs ++ (v ∷ w ∷ vs) =
      append_assoc xs (v ∷ []) (w ∷ vs) in
    let count : length xs + 1 ≡ length (xs ++ (v ∷ [])) =
      omega (arith, length-append {0} xs (v ∷ [])) in
    let more = add_streams-print sys (some (xs ++ (v ∷ []))) w vs tt (rw shift a) (rw shift h) in
    rw (add_stream-print sys sids v (w ∷ vs) array a h)
      (rw count (more ∙ ap (λ ys. done (some ys, length ys)) shift))

print-AllWords : (vs : List ℕ) → AreStreams vs → AllWords (codes ",") (map print vs)
print-AllWords [] a = tt
print-AllWords (v ∷ vs) (b, m, a) =
    (print-IsWord (codes ",") v (λ d h. ground arith) (omega arith), print-AllWords vs a)

-- Any list of different IDs below the reserved 65535, with at least one and at most 65535 of them, that is
-- printed with commas between any two: if there is memory for the array and the address has no
-- streams yet, the options get exactly this list, and nothing else in them changes.
pub parse_default_streams-print :
    (sys : System) (opts : AddressOptions) (v : ℕ) (vs : List ℕ)
    → sys.has_memory (65535 * 2) ≡ true
    → opts.nb_default_sid ≡ 0
    → AreStreams (v ∷ vs)
    → length (v ∷ vs) ≤ 65535
    → parse_default_streams sys opts (join b',' (map print (v ∷ vs)))
      ≡ done (record opts { default_sid = some (v ∷ vs); nb_default_sid = length (v ∷ vs) })
unfolding parse_default_streams first_streams
parse_default_streams-print sys opts v vs memory zeroed a h =
    let words =
      tokens-join (codes ",") b',' (map print (v ∷ vs)) (refl) (print-AllWords (v ∷ vs) a) in
    let looped = add_streams-print sys none v vs memory a h in rw words (rw zeroed (rw looped refl))
