-- ===== src/Address/Settings/Plain.antt =====
-- Settings and UUIDs hold no character that ends a part of a URL.
use qproto.Common.{
  ℕ, ◌+◌, ◌<◌, ◌^◌, ◌/◌, ◌%◌, ◌≡◌, refl, arith, false, List, [], ◌∷◌, ◌++◌, map, Bool-cases, inl,
  inr,
}
use qproto.Strings.{codes, is_in}
use qproto.Strings.Tokens.{IsPlain, IsPlain-append, IsPlain-of_word, join}
use qproto.Strings.Numbers.{print, print-IsWord}
use qproto.Address.{dash_before}
use qproto.Address.Uuid.{hex, print_from, AllBytes}
use qproto.Address.Types.{AddressOptions, System}
use qproto.Address.Settings.Printed.{print_settings}
use qproto.Address.Settings.Allowed.{
  Setting, rx, tx, streams, cert, key, name, value, print_setting, apply, IsAllowed, AllAllowed,
  join-IsPlain,
}

-- Paths that hold none of some delimiters.
abbrev pub HasPlainPath : List ℕ → Setting → Type 0
HasPlainPath delims (cert p) = IsPlain delims p
HasPlainPath delims (key p) = IsPlain delims p
HasPlainPath delims _ = Unit

abbrev pub AllPlainPaths : List ℕ → List Setting → Type 0
AllPlainPaths delims [] = Unit
AllPlainPaths delims (s ∷ ss) = HasPlainPath delims s × AllPlainPaths delims ss

-- Delimiters of the parts of a URL that no other character of settings and UUIDs is.
abbrev pub slash_at : List ℕ
slash_at = codes "/@"

print-IsPlain : (n : ℕ) → n < 2 ^ 64 → IsPlain slash_at (print n)
print-IsPlain n h =
    IsPlain-of_word slash_at (print n) (print-IsWord slash_at n (λ d lt. ground arith) h)

print_setting-IsPlain :
    (sys : System) (opts : AddressOptions) (s : Setting)
    → IsAllowed sys opts s
    → HasPlainPath slash_at s
    → IsPlain slash_at (print_setting s)
print_setting-IsPlain sys opts s h p =
    IsPlain-append slash_at (name s) (b'=' ∷ value s) (names s) (refl, values s h p)
  where
    names : (t : Setting) → IsPlain slash_at (name t)
    names (rx n) = search (tt)
    names (tx n) = search (tt)
    names (streams v vs) = search (tt)
    names (cert q) = search (tt)
    names (key q) = search (tt)

    values :
        (t : Setting) → IsAllowed sys opts t → HasPlainPath slash_at t → IsPlain slash_at (value t)
    values (rx n) lt q = print-IsPlain n (omega arith)
    values (tx n) lt q = print-IsPlain n (omega arith)
    values (streams v vs) (m, z, a, l) q =
        join-IsPlain slash_at (v ∷ vs) (λ d lt. ground arith) refl a
    values (cert r) w q = q
    values (key r) w q = q

join-settings-IsPlain :
    (sys : System) (opts : AddressOptions) (ss : List Setting)
    → AllAllowed sys opts ss
    → AllPlainPaths slash_at ss
    → IsPlain slash_at (join b'&' (map print_setting ss))
join-settings-IsPlain sys opts [] h p = tt
join-settings-IsPlain sys opts (s ∷ []) (h, hs) (p, ps) = print_setting-IsPlain sys opts s h p
join-settings-IsPlain sys opts (s ∷ t ∷ ss) (h, hs) (p, ps) =
    IsPlain-append slash_at (print_setting s) (b'&' ∷ join b'&' (map print_setting (t ∷ ss)))
      (print_setting-IsPlain sys opts s h p)
      (refl, join-settings-IsPlain sys (apply opts s) (t ∷ ss) hs ps)

print_from-IsPlain :
    (i : ℕ) (bytes : List ℕ) → AllBytes bytes → IsPlain slash_at (print_from i bytes)
print_from-IsPlain i [] a = tt
print_from-IsPlain i (b ∷ bs) (h, a) =
    let high : is_in slash_at (hex (b / 16)) ≡ false = ground arith in
    let low : is_in slash_at (hex (b % 16)) ≡ false = ground arith in
    elim (Bool-cases (dash_before i)) [
      | inl dash ↦ rw dash (refl, (high, (low, print_from-IsPlain (i + 1) bs a)))
      | inr plain ↦ rw plain (high, (low, print_from-IsPlain (i + 1) bs a))
    ]

-- What stands behind the slash of a URL is one word.
pub settings-IsPlain :
    (sys : System) (opts : AddressOptions) (bytes : List ℕ) (ss : List Setting)
    → AllBytes bytes
    → AllAllowed sys opts ss
    → AllPlainPaths slash_at ss
    → IsPlain slash_at (print_from 0 bytes ++ print_settings ss)
settings-IsPlain sys opts bytes ss a h p =
    IsPlain-append slash_at (print_from 0 bytes) (print_settings ss) (print_from-IsPlain 0 bytes a)
      (refl, join-settings-IsPlain sys opts ss h p)
