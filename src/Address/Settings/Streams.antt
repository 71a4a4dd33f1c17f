-- ===== src/Address/Settings/Streams.antt =====
-- The default streams: what the array holds after `parse_default_streams`.
use mathlib.Core.Path.{subst}
use mathlib.Core.List.{append_assoc, append-nil}
use qproto.Common.{
  ℕ, zero, suc, ◌+◌, ◌≤◌, ◌<◌, ◌≡◌, refl, ◌≢◌, ap, sym, ◌∙◌, arith, false, List, [], ◌∷◌, ◌++◌,
  Option, none, some, get_or, length, length-append, ◌==◌, Bool-cases, inl, inr,
}
use qproto.Strings.{codes, tokens}
use qproto.Address.Types.{AddressOptions, System, done, ◌>>=◌, done->>=}
use qproto.Address.Settings.{
  put, holds, stream_id, sid_array, append_stream, add_stream, add_streams, first_streams,
  parse_default_streams,
}

-- The array as a list: a value stands in it at most once, and each is an ID that a stream may have.
abbrev pub Missing : ℕ → List ℕ → Type 0
Missing v [] = Unit
Missing v (x ∷ xs) = (x ≢ v) × Missing v xs

abbrev pub AreStreams : List ℕ → Type 0
AreStreams [] = Unit
AreStreams (x ∷ xs) = (x < 65535) × Missing x xs × AreStreams xs

pub put-length : (xs : List ℕ) (v : ℕ) → put xs (length xs) v ≡ xs ++ (v ∷ [])
put-length [] v = refl
put-length (x ∷ xs) v = ap (λ ys. x ∷ ys) (put-length xs v)

get_or-here : (v : ℕ) (xs : List ℕ) → Missing v xs → (i : ℕ) → i < length xs → get_or xs i 0 ≢ v
get_or-here v [] m i h = elim h [ ]
get_or-here v (x ∷ xs) (ne, m) zero h = ne
get_or-here v (x ∷ xs) (ne, m) (suc i) h = get_or-here v xs m i (omega arith)

pub holds-Missing :
    (v : ℕ) (xs : List ℕ) → Missing v xs → (n : ℕ) → n ≤ length xs → holds xs n v ≡ false
holds-Missing v xs m zero h = refl
holds-Missing v xs m (suc n) h =
    ground (arith, get_or-here v xs m n (omega arith), holds-Missing v xs m n (omega arith))

get_or-of_holds :
    (v : ℕ) (xs : List ℕ) (n : ℕ) → holds xs n v ≡ false → (i : ℕ) → i < n → get_or xs i 0 ≢ v
get_or-of_holds v xs zero h i lt = elim lt [ ]
get_or-of_holds v xs (suc n) h i lt = elim (Bool-cases (i == n)) [
  | inl last ↦ ground arith
  | inr before ↦ get_or-of_holds v xs n (ground arith) i (ground arith)
]

Missing-of_get_or :
    (v : ℕ) (xs : List ℕ) → ((i : ℕ) → i < length xs → get_or xs i 0 ≢ v) → Missing v xs
Missing-of_get_or v [] h = tt
Missing-of_get_or v (x ∷ xs) h =
    (h 0 (omega arith), Missing-of_get_or v xs (λ i lt. h (suc i) (omega arith)))

Missing-append : (v : ℕ) (xs : List ℕ) (x : ℕ) → Missing v xs → x ≢ v → Missing v (xs ++ (x ∷ []))
Missing-append v [] x m ne = (ne, tt)
Missing-append v (y ∷ xs) x (h, m) ne = (h, Missing-append v xs x m ne)

AreStreams-append :
    (xs : List ℕ) (v : ℕ) → AreStreams xs → v < 65535 → Missing v xs → AreStreams (xs ++ (v ∷ []))
AreStreams-append [] v a h m = (h, tt, tt)
AreStreams-append (x ∷ xs) v (b, ms, a) h (ne, m) =
    (b, Missing-append x xs v ms (λ e. ne (sym e)), AreStreams-append xs v a h m)

-- What the code reads of the array.
abbrev pub entries : Option (List ℕ) → List ℕ
entries none = []
entries (some xs) = xs

abbrev Holds : Option (List ℕ) × ℕ → Type 0
Holds (sids, nb) = (nb ≡ length (entries sids)) × AreStreams (entries sids)

-- The texts are those of the IDs, one for one and in the same order.
abbrev pub AreRead : List (List ℕ) → List ℕ → Type 0
AreRead [] [] = Unit
AreRead (val ∷ vals) (v ∷ vs) = (stream_id val ≡ done v) × AreRead vals vs
AreRead vals vs = ⊥

-- A text more, whose ID stands at the end of the array.
record Appends (val : List ℕ) (st st' : Option (List ℕ) × ℕ) : Type 0 where
  id : ℕ
  read : stream_id val ≡ done id
  last : entries st'.0 ≡ entries st.0 ++ (id ∷ [])

stream_id-lt : (val : List ℕ) {v : ℕ} → stream_id val ≡ done v → v < 65535
unfolding stream_id
stream_id-lt val h = ground arith

sid_array-entries :
    (sys : System) (sids : Option (List ℕ)) {xs : List ℕ}
    → sid_array sys sids ≡ done xs
    → xs ≡ entries sids
unfolding sid_array
sid_array-entries sys none h = ground arith
sid_array-entries sys (some xs) h = ground arith

append_stream-Holds :
    (xs : List ℕ) (v : ℕ) {st : Option (List ℕ) × ℕ}
    → AreStreams xs
    → v < 65535
    → append_stream xs (length xs) v ≡ done st
    → Holds st × (entries st.0 ≡ xs ++ (v ∷ []))
unfolding append_stream
append_stream-Holds xs v {st} a h e = elim (Bool-cases (holds xs (length xs) v)) [
  | inl twice ↦ cc
  | inr once ↦
      let new = Missing-of_get_or v xs (get_or-of_holds v xs (length xs) once) in
      let longer : st ≡ (some (xs ++ (v ∷ [])), length xs + 1) = ground (arith, put-length xs v) in
      rw longer
        ((omega (arith, length-append {0} xs (v ∷ [])), AreStreams-append xs v a h new), refl)
]

add_stream-Holds :
    (sys : System) (st : Option (List ℕ) × ℕ) (val : List ℕ) {st' : Option (List ℕ) × ℕ}
    → Holds st
    → add_stream sys st val ≡ done st'
    → Holds st' × Appends val st st'
unfolding add_stream
add_stream-Holds sys (sids, nb) val {st'} (count, a) e =
    let (v, read, e') =
      done->>= (stream_id val) (λ res. sid_array sys sids >>= λ xs. append_stream xs nb res) e in
    let (xs, array, e'') = done->>= (sid_array sys sids) (λ xs. append_stream xs nb v) e' in
    let same = sid_array-entries sys sids array in
    let (held, last) = append_stream-Holds (entries sids) v a (stream_id-lt val read) (
      subst (λ ys. append_stream ys (length (entries sids)) v ≡ done st') same
        (subst (λ n. append_stream xs n v ≡ done st') count e'')) in
    (held, record { id = v; read = read; last = last })

-- The IDs that are read one after the other.
record AppendsAll (vals : List (List ℕ)) (st st' : Option (List ℕ) × ℕ) : Type 0 where
  ids : List ℕ
  read : AreRead vals ids
  last : entries st'.0 ≡ entries st.0 ++ ids

add_streams-Holds :
    (sys : System) (st : Option (List ℕ) × ℕ) (vals : List (List ℕ)) {st' : Option (List ℕ) × ℕ}
    → Holds st
    → add_streams sys st vals ≡ done st'
    → Holds st' × AppendsAll vals st st'
unfolding add_streams
add_streams-Holds sys st [] {st'} h e =
    let same : st ≡ st' = cc in
    (
      subst Holds same h,
      record {
        ids = [];
        read = tt;
        last =
            ap (λ (s : Option (List ℕ) × ℕ). entries s.0) (sym same)
            ∙ sym (append-nil (entries st.0));
      },
    )
add_streams-Holds sys st (val ∷ vals) h e =
    let (mid, one, rest) = done->>= (add_stream sys st val) (λ s. add_streams sys s vals) e in
    let (h', first) = add_stream-Holds sys st val h one in
    let (h'', others) = add_streams-Holds sys mid vals h' rest in
    (
      h'',
      record {
        ids = first.id ∷ others.ids;
        read = (first.read, others.read);
        last =
            others.last
            ∙ ap (λ xs. xs ++ others.ids) first.last
            ∙ append_assoc (entries st.0) (first.id ∷ []) others.ids;
      },
    )

first_streams-Holds :
    (sys : System) (nb : ℕ) (vals : List (List ℕ)) {st : Option (List ℕ) × ℕ}
    → nb ≡ 0
    → first_streams sys nb vals ≡ done st
    → Holds st × AreRead vals (entries st.0)
unfolding first_streams
first_streams-Holds sys nb [] z e = cc
first_streams-Holds sys nb (val ∷ vals) z e =
    let (held, all) = add_streams-Holds sys (none, nb) (val ∷ vals) (z, tt) e in
    (held, subst (AreRead (val ∷ vals)) (sym all.last) all.read)

-- A list of streams for an address that has no streams yet. If it is accepted, the array holds the
-- numbers that the texts between the commas are read as, all of them and in their order; no two are
-- the same, every one is an ID below the reserved 65535, and the count is that of the numbers.
pub parse_default_streams-AreStreams :
    (sys : System) (opts : AddressOptions) (next : List ℕ) {opts' : AddressOptions}
    → opts.nb_default_sid ≡ 0
    → parse_default_streams sys opts next ≡ done opts'
    → AreRead (tokens (codes ",") next) (entries opts'.default_sid)
      × AreStreams (entries opts'.default_sid)
      × (opts'.nb_default_sid ≡ length (entries opts'.default_sid))
unfolding parse_default_streams first_streams
parse_default_streams-AreStreams sys opts next {opts'} zeroed e =
    let words = tokens (codes ",") next in
    let finish = λ (st : Option (List ℕ) × ℕ).
      done (record opts { default_sid = st.0; nb_default_sid = st.1 }) in
    let (st, looped, made) = done->>= (first_streams sys opts.nb_default_sid words) finish e in
    let ((count, distinct), read) =
      first_streams-Holds sys opts.nb_default_sid words zeroed looped in
    let same : record opts { default_sid = st.0; nb_default_sid = st.1 } ≡ opts' = cc in
    subst
      (λ (o : AddressOptions).
        AreRead words (entries o.default_sid)
        × AreStreams (entries o.default_sid)
        × (o.nb_default_sid ≡ length (entries o.default_sid)))
      same (read, distinct, count)
