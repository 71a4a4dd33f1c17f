-- ===== src/Address/Settings/Allowed.antt =====
-- The settings that a URL can name, how they are printed and which are allowed.
use qproto.Common.{
  ℕ, ◌+◌, ◌*◌, ◌≤◌, ◌<◌, ◌^◌, ◌≡◌, arith, true, false, List, [], ◌∷◌, ◌++◌, map, some, length,
}
use qproto.Strings.{codes, is_in}
use qproto.Strings.Tokens.{IsWord, IsPlain, join, IsPlain-append, IsPlain-of_word, IsWord-append}
use qproto.Strings.Numbers.{print, print-IsWord}
use qproto.Address.Types.{AddressOptions, System}
use qproto.Address.Settings.Streams.{AreStreams}

-- The settings that a URL can name, but for the start time, which is a floating point number.
pub data Setting : Type 0 where
  rx tx : ℕ → Setting
  streams : ℕ → List ℕ → Setting
  cert key : List ℕ → Setting

abbrev pub name : Setting → List ℕ
name (rx n) = codes "rx_buf"
name (tx n) = codes "tx_buf"
name (streams v vs) = codes "default"
name (cert p) = codes "certfile"
name (key p) = codes "keyfile"

abbrev pub value : Setting → List ℕ
value (rx n) = print n
value (tx n) = print n
value (streams v vs) = join b',' (map print (v ∷ vs))
value (cert p) = p
value (key p) = p

abbrev pub print_setting : Setting → List ℕ
print_setting s = name s ++ (b'=' ∷ value s)

abbrev pub apply : AddressOptions → Setting → AddressOptions
apply opts (rx n) = record opts { rx_buf = n }
apply opts (tx n) = record opts { tx_buf = n }
apply opts (streams v vs) = record opts {
  default_sid = some (v ∷ vs);
  nb_default_sid = length (v ∷ vs);
}
apply opts (cert p) = record opts { certfile = some p }
apply opts (key p) = record opts { keyfile = some p }

-- A buffer size is an `int`; the streams are given once, are different and have IDs; a path is not
-- empty and has neither of the characters that end a value; there is memory for what is kept.
abbrev pub IsAllowed : System → AddressOptions → Setting → Type 0
IsAllowed sys opts (rx n) = n < 2 ^ 31
IsAllowed sys opts (tx n) = n < 2 ^ 31
IsAllowed sys opts (streams v vs) =
    (sys.has_memory (65535 * 2) ≡ true)
    × (opts.nb_default_sid ≡ 0)
    × AreStreams (v ∷ vs)
    × (length (v ∷ vs) ≤ 65535)
IsAllowed sys opts (cert p) =
    (sys.has_memory (length p + 1) ≡ true) × IsWord (codes "=") p × IsWord (codes "&") p
IsAllowed sys opts (key p) =
    (sys.has_memory (length p + 1) ≡ true) × IsWord (codes "=") p × IsWord (codes "&") p

abbrev pub AllAllowed : System → AddressOptions → List Setting → Type 0
AllAllowed sys opts [] = Unit
AllAllowed sys opts (s ∷ ss) = IsAllowed sys opts s × AllAllowed sys (apply opts s) ss

abbrev pub apply_all : AddressOptions → List Setting → AddressOptions
apply_all opts [] = opts
apply_all opts (s ∷ ss) = apply_all (apply opts s) ss

-- The lists of the words that a comma joins are words for any other delimiter.
pub join-IsPlain :
    (delims : List ℕ) (vs : List ℕ)
    → ((d : ℕ) → d < 10 → is_in delims (d + 48) ≡ false)
    → is_in delims b',' ≡ false
    → AreStreams vs
    → IsPlain delims (join b',' (map print vs))
join-IsPlain delims [] plain comma a = tt
join-IsPlain delims (v ∷ []) plain comma (b, m, a) =
    IsPlain-of_word delims (print v) (print-IsWord delims v plain (omega arith))
join-IsPlain delims (v ∷ w ∷ vs) plain comma (b, m, a) =
    IsPlain-append delims (print v) (b',' ∷ join b',' (map print (w ∷ vs)))
      (IsPlain-of_word delims (print v) (print-IsWord delims v plain (omega arith)))
      (comma, join-IsPlain delims (w ∷ vs) plain comma a)

pub join-IsWord :
    (delims : List ℕ) (v : ℕ) (vs : List ℕ)
    → ((d : ℕ) → d < 10 → is_in delims (d + 48) ≡ false)
    → is_in delims b',' ≡ false
    → AreStreams (v ∷ vs)
    → IsWord delims (join b',' (map print (v ∷ vs)))
join-IsWord delims v [] plain comma (b, m, a) = print-IsWord delims v plain (omega arith)
join-IsWord delims v (w ∷ vs) plain comma (b, m, a) =
    IsWord-append delims (print v) (b',' ∷ join b',' (map print (w ∷ vs)))
      (print-IsWord delims v plain (omega arith))
      (comma, join-IsPlain delims (w ∷ vs) plain comma a)
