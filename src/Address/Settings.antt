-- ===== src/Address/Settings.antt =====
-- libavtransport/address.c: the part of a URL behind the host, `parse_default_streams` and
-- `parse_settings`. The text that is logged is left out. The tests of errno are left out too: they ask
-- for ULONG_MAX, which the bound beside them refuses.
pub mod Streams
pub mod Listed
pub mod Printed
pub mod Allowed
pub mod Plain
use qproto.Common.{
  ℕ, zero, suc, ◌+◌, ◌*◌, ◌-◌, ◌^◌, Bool, true, false, ◌||◌, List, [], ◌∷◌, Option, none, some,
  Result, ok, err, einval, erange, enomem, ltb, leb, ◌==◌, get_or, if◌then◌else◌, take, drop,
}
use qproto.Common.Int.{ℤ}
use qproto.Strings.{codes, strcmp, strtok, tokens, strtoul}
use qproto.Address.{avt_parse_uuid}
use qproto.Address.Types.{
  AvtAddress, AddressOptions, System, strdup, Outcome, fault, fail, done, ◌>>=◌, allocated,
}

-- The array with a further entry; the entries between are 0.
abbrev pub put : List ℕ → ℕ → ℕ → List ℕ
put [] zero v = v ∷ []
put [] (suc i) v = 0 ∷ put [] i v
put (x ∷ xs) zero v = v ∷ xs
put (x ∷ xs) (suc i) v = x ∷ put xs i v

-- Whether one of the first `n` entries is `v`.
abbrev pub holds : List ℕ → ℕ → ℕ → Bool
holds xs zero v = false
holds xs (suc n) v = get_or xs n 0 == v || holds xs n v

-- The value that a word may have.
unfoldable pub stream_id : List ℕ → Outcome ℕ
stream_id val = elim (strtoul val) [
  | none ↦ fail einval
  | some res ↦ if ltb 65535 res then fail erange else if res == 65535 then fail einval else done res
]

-- The array, allocated if it was not.
unfoldable pub sid_array : System → Option (List ℕ) → Outcome (List ℕ)
sid_array sys (some xs) = done xs
sid_array sys none = if sys.has_memory (65535 * 2) then done [] else fail enomem

-- A value may stand in the array once. A write behind its end is a fault.
unfoldable pub append_stream : List ℕ → ℕ → ℕ → Outcome (Option (List ℕ) × ℕ)
append_stream xs nb res =
    if holds xs nb res
    then fail einval
    else if leb 65535 nb
    then fault
    else done (some (put xs nb res), nb + 1)

-- One round of the loop. The array and its count are taken and returned.
unfoldable pub add_stream : System → Option (List ℕ) × ℕ → List ℕ → Outcome (Option (List ℕ) × ℕ)
unfolding stream_id sid_array append_stream
add_stream sys (sids, nb) val = do
  res ← stream_id val
  xs ← sid_array sys sids
  append_stream xs nb res

unfoldable pub add_streams :
    System → Option (List ℕ) × ℕ → List (List ℕ) → Outcome (Option (List ℕ) × ℕ)
unfolding add_stream
add_streams sys state [] = done state
add_streams sys state (val ∷ vals) =
    add_stream sys state val >>= λ state'. add_streams sys state' vals

-- The array is freed; its count stays. Without a word the loop begins with NULL all the same.
unfoldable pub first_streams : System → ℕ → List (List ℕ) → Outcome (Option (List ℕ) × ℕ)
unfolding add_streams
first_streams sys nb [] = fault
first_streams sys nb (val ∷ vals) = add_streams sys (none, nb) (val ∷ vals)

unfoldable pub parse_default_streams : System → AddressOptions → List ℕ → Outcome AddressOptions
unfolding first_streams
parse_default_streams sys opts next = do
  (sids, nb) ← first_streams sys opts.nb_default_sid (tokens (codes ",") next)
  done (record opts { default_sid = sids; nb_default_sid = nb })

unfoldable pub buffer_size : List ℕ → Outcome ℕ
buffer_size val = elim (strtoul val) [
  | none ↦ fail einval
  | some res ↦ if ltb (2 ^ 31 - 1) res then fail erange else done res
]

-- The option that the key names.
unfoldable pub set_option : System → AddressOptions → List ℕ → List ℕ → Outcome AddressOptions
unfolding buffer_size parse_default_streams
set_option sys opts key val =
    if strcmp key (codes "t")
    then (elim (sys.start_of val) [
      | none ↦ fail einval
      | some start ↦ done (record opts { start_time = start })
    ])
    else if strcmp key (codes "default")
    then parse_default_streams sys opts val
    else if strcmp key (codes "tx_buf")
    then (buffer_size val >>= λ res. done (record opts { tx_buf = res }))
    else if strcmp key (codes "rx_buf")
    then (buffer_size val >>= λ res. done (record opts { rx_buf = res }))
    else if strcmp key (codes "certfile")
    then (allocated (strdup sys val) >>= λ copy. done (record opts { certfile = some copy }))
    else if strcmp key (codes "keyfile")
    then (allocated (strdup sys val) >>= λ copy. done (record opts { keyfile = some copy }))
    else fail einval

-- The key and the value, which is the second token. Without one the value is NULL.
unfoldable pub parse_option : System → AddressOptions → List ℕ → Outcome AddressOptions
unfolding set_option strtok
parse_option sys opts option =
    let (key, saved) = strtok (codes "=") option in
    elim key [
      | none ↦ fail einval
      | some k ↦ elim ((strtok (codes "=") saved).0) [
        | none ↦ fail einval
        | some val ↦ set_option sys opts k val
      ]
    ]

unfoldable pub parse_options : System → AddressOptions → List (List ℕ) → Outcome AddressOptions
unfolding parse_option
parse_options sys opts [] = done opts
parse_options sys opts (option ∷ more) =
    parse_option sys opts option >>= λ opts'. parse_options sys opts' more

-- Without an option the loop begins with NULL and a saved pointer that was not set.
unfoldable pub first_options : System → AddressOptions → List (List ℕ) → Outcome AddressOptions
unfolding parse_options
first_options sys opts [] = fault
first_options sys opts (option ∷ more) = parse_options sys opts (option ∷ more)

-- What stands behind the UUID: nothing, or a `#` and options.
unfoldable pub parse_fragment : System → AvtAddress → List ℕ → Outcome AvtAddress
unfolding first_options tokens
parse_fragment sys addr [] = done addr
parse_fragment sys addr (c ∷ next) =
    if c == 35
    then (first_options sys addr.opts (tokens (codes "&") next) >>= λ opts'.
        done (record addr { opts = opts' }))
    else fail einval

-- The first 36 characters are the UUID.
unfoldable pub parse_uuid_part : System → AvtAddress → List ℕ → Outcome AvtAddress
unfolding parse_fragment
parse_uuid_part sys addr next = elim (avt_parse_uuid (take 36 next)) [
  | err e ↦ fail e
  | ok bytes ↦ parse_fragment sys (record addr { uuid = bytes }) (drop 36 next)
]

-- A string that does not begin with `#` begins with a UUID.
unfoldable pub parse_settings_text : System → AvtAddress → List ℕ → Outcome AvtAddress
unfolding parse_fragment parse_uuid_part
parse_settings_text sys addr [] = done addr
parse_settings_text sys addr (c ∷ next) =
    if c == 35 then parse_fragment sys addr (c ∷ next) else parse_uuid_part sys addr (c ∷ next)

unfoldable pub parse_settings : System → AvtAddress → Option (List ℕ) → Outcome AvtAddress
unfolding parse_settings_text
parse_settings sys addr none = done addr
parse_settings sys addr (some next) = parse_settings_text sys addr next
