-- ===== src/Address/Settings/Printed.antt =====
-- What `parse_settings` reads of a UUID and options that are printed.
use qproto.Common.{
  ℕ, zero, suc, ◌/◌, ◌≡◌, refl, ap, sym, ◌∙◌, arith, false, List, [], ◌∷◌, ◌++◌, map, some, ok,
  length, ◌==◌, take, drop,
}
use qproto.Strings.{codes}
use qproto.Strings.Tokens.{
  IsWord, AllWords, join, tokens-join, strtok-append, strtok-word, IsPlain-of_word, IsWord-append,
}
use qproto.Strings.Numbers.{strtoul-print, print-IsWord}
use qproto.Address.{avt_parse_uuid}
use qproto.Address.Uuid.{hex, print_from, AllBytes, length-print_from, avt_parse_uuid-print_from}
use qproto.Address.Types.{AvtAddress, AddressOptions, System, done}
use qproto.Address.Settings.{
  buffer_size, set_option, parse_option, parse_options, first_options, parse_fragment,
  parse_uuid_part, parse_settings_text, parse_settings,
}
use qproto.Address.Settings.Listed.{parse_default_streams-print}
use qproto.Address.Settings.Allowed.{
  Setting, name, value, print_setting, apply, IsAllowed, AllAllowed, apply_all, join-IsWord, rx, tx,
  streams, cert, key,
}

module _ (sys : System) (opts : AddressOptions) where
  -- The value is a word for the delimiters of options and of values.
  value-IsWord :
      (s : Setting)
      → IsAllowed sys opts s
      → IsWord (codes "=") (value s) × IsWord (codes "&") (value s)
  value-IsWord (rx n) h = (
    print-IsWord (codes "=") n (λ d lt. ground arith) (omega arith),
    print-IsWord (codes "&") n (λ d lt. ground arith) (omega arith),
  )
  value-IsWord (tx n) h = (
    print-IsWord (codes "=") n (λ d lt. ground arith) (omega arith),
    print-IsWord (codes "&") n (λ d lt. ground arith) (omega arith),
  )
  value-IsWord (streams v vs) (m, z, a, l) = (
    join-IsWord (codes "=") v vs (λ d lt. ground arith) refl a,
    join-IsWord (codes "&") v vs (λ d lt. ground arith) refl a,
  )
  value-IsWord (cert p) (m, w, w') = (w, w')
  value-IsWord (key p) (m, w, w') = (w, w')

  set_option-print :
      (s : Setting)
      → IsAllowed sys opts s
      → set_option sys opts (name s) (value s) ≡ done (apply opts s)
  unfolding set_option buffer_size
  set_option-print (rx n) h = ground (arith, strtoul-print n (omega arith))
  set_option-print (tx n) h = ground (arith, strtoul-print n (omega arith))
  set_option-print (streams v vs) (m, z, a, l) = parse_default_streams-print sys opts v vs m z a l
  set_option-print (cert p) (m, w, w') = rw m refl
  set_option-print (key p) (m, w, w') = rw m refl

  name-IsWord : (s : Setting) → IsWord (codes "=") (name s) × IsWord (codes "&") (name s)
  name-IsWord (rx n) = search (tt)
  name-IsWord (tx n) = search (tt)
  name-IsWord (streams v vs) = search (tt)
  name-IsWord (cert p) = search (tt)
  name-IsWord (key p) = search (tt)

  parse_option-print :
      (s : Setting)
      → IsAllowed sys opts s
      → parse_option sys opts (print_setting s) ≡ done (apply opts s)
  unfolding parse_option
  parse_option-print s h =
      let first = strtok-append (codes "=") (name s) b'=' (value s) refl (name-IsWord s).0 in
      let second = strtok-word (codes "=") (value s) (value-IsWord s h).0 in
      let third = set_option-print s h in ground (arith, first, second, third)

  print_setting-IsWord : (s : Setting) → IsAllowed sys opts s → IsWord (codes "&") (print_setting s)
  print_setting-IsWord s h =
      IsWord-append (codes "&") (name s) (b'=' ∷ value s) (name-IsWord s).1
        (refl, IsPlain-of_word (codes "&") (value s) (value-IsWord s h).1)

-- Any allowed settings, in any order.
parse_options-print :
    (sys : System) (opts : AddressOptions) (ss : List Setting)
    → AllAllowed sys opts ss
    → parse_options sys opts (map print_setting ss) ≡ done (apply_all opts ss)
unfolding parse_options
parse_options-print sys opts [] h = refl
parse_options-print sys opts (s ∷ ss) (h, hs) =
    rw (parse_option-print sys opts s h) (parse_options-print sys (apply opts s) ss hs)

print-AllWords :
    (sys : System) (opts : AddressOptions) (ss : List Setting)
    → AllAllowed sys opts ss
    → AllWords (codes "&") (map print_setting ss)
print-AllWords sys opts [] h = tt
print-AllWords sys opts (s ∷ ss) (h, hs) =
    (print_setting-IsWord sys opts s h, print-AllWords sys (apply opts s) ss hs)

abbrev pub print_settings : List Setting → List ℕ
print_settings ss = b'#' ∷ join b'&' (map print_setting ss)

parse_fragment-print :
    (sys : System) (addr : AvtAddress) (s : Setting) (ss : List Setting)
    → AllAllowed sys addr.opts (s ∷ ss)
    → parse_fragment sys addr (print_settings (s ∷ ss))
      ≡ done (record addr { opts = apply_all addr.opts (s ∷ ss) })
unfolding parse_fragment first_options
parse_fragment-print sys addr s ss h =
    let words =
      tokens-join (codes "&") b'&' (map print_setting (s ∷ ss)) refl
        (print-AllWords sys addr.opts (s ∷ ss) h) in
    rw words (rw (parse_options-print sys addr.opts (s ∷ ss) h) refl)

pub take-append : (n : ℕ) (xs ys : List ℕ) → length xs ≡ n → take n (xs ++ ys) ≡ xs
take-append zero [] ys h = refl
take-append zero (x ∷ xs) ys h = absurd (omega arith)
take-append (suc n) [] ys h = absurd (omega arith)
take-append (suc n) (x ∷ xs) ys h = ap (λ zs. x ∷ zs) (take-append n xs ys (omega arith))

pub drop-append : (n : ℕ) (xs ys : List ℕ) → length xs ≡ n → drop n (xs ++ ys) ≡ ys
drop-append zero [] ys h = refl
drop-append zero (x ∷ xs) ys h = absurd (omega arith)
drop-append (suc n) [] ys h = absurd (omega arith)
drop-append (suc n) (x ∷ xs) ys h = drop-append n xs ys (omega arith)

parse_uuid_part-eq :
    (sys : System) (addr : AvtAddress) (next uuid rest bytes : List ℕ)
    → take 36 next ≡ uuid
    → drop 36 next ≡ rest
    → avt_parse_uuid uuid ≡ ok bytes
    → parse_uuid_part sys addr next ≡ parse_fragment sys (record addr { uuid = bytes }) rest
unfolding parse_uuid_part
parse_uuid_part-eq sys addr next uuid rest bytes prefix behind p = ground arith

parse_uuid_part-print :
    (sys : System) (addr : AvtAddress) (bytes rest : List ℕ)
    → length bytes ≡ 16
    → AllBytes bytes
    → parse_uuid_part sys addr (print_from 0 bytes ++ rest)
      ≡ parse_fragment sys (record addr { uuid = bytes }) rest
parse_uuid_part-print sys addr bytes rest l a =
    let whole : length (print_from 0 bytes) ≡ 36 = length-print_from bytes 16 0 (sym l) in
    parse_uuid_part-eq sys addr (print_from 0 bytes ++ rest) (print_from 0 bytes) rest bytes
      (take-append 36 (print_from 0 bytes) rest whole)
      (drop-append 36 (print_from 0 bytes) rest whole) (avt_parse_uuid-print_from bytes l a)

-- A printed UUID does not begin with a `#`.
parse_settings_text-print_from :
    (sys : System) (addr : AvtAddress) (bytes rest : List ℕ)
    → length bytes ≡ 16
    → AllBytes bytes
    → parse_settings_text sys addr (print_from 0 bytes ++ rest)
      ≡ parse_uuid_part sys addr (print_from 0 bytes ++ rest)
unfolding parse_settings_text
parse_settings_text-print_from sys addr [] rest l a = absurd (omega arith)
parse_settings_text-print_from sys addr (b ∷ bs) rest l (h, a) =
    let other : (hex (b / 16) == b'#') ≡ false = ground arith in rw other refl

-- A UUID of any 16 bytes, or none, and behind a `#` any settings that are allowed, one at least, in any
-- order: each option and the UUID of the address become what was printed, the last of several for
-- an option counts, and nothing else of the address changes.
pub parse_settings-print :
    (sys : System) (addr : AvtAddress) (bytes : List ℕ) (s : Setting) (ss : List Setting)
    → length bytes ≡ 16
    → AllBytes bytes
    → AllAllowed sys addr.opts (s ∷ ss)
    → (parse_settings sys addr (some (print_from 0 bytes ++ print_settings (s ∷ ss)))
        ≡ done (record addr { uuid = bytes; opts = apply_all addr.opts (s ∷ ss) }))
      × (parse_settings sys addr (some (print_settings (s ∷ ss)))
          ≡ done (record addr { opts = apply_all addr.opts (s ∷ ss) }))
unfolding parse_settings parse_settings_text
parse_settings-print sys addr bytes s ss l a h = (
  parse_settings_text-print_from sys addr bytes (print_settings (s ∷ ss)) l a
      ∙ parse_uuid_part-print sys addr bytes (print_settings (s ∷ ss)) l a
      ∙ parse_fragment-print sys (record addr { uuid = bytes }) s ss h,
  parse_fragment-print sys addr s ss h,
)
