-- ===== src/Strings.antt =====
-- The functions of the C library that read strings, as the address parser uses them: strcmp, strncmp,
-- strtok_r, strtoul and strtol. A string is the list of its character codes without the terminator.
pub mod Tokens
pub mod Numbers
use Prim.Native.Char.{code}
use Prim.Native.String.{String}
use qproto.Common.{
  ℕ, zero, suc, ◌+◌, ◌-◌, ◌*◌, ◌%◌, ◌^◌, min, Bool, true, false, ◌&&◌, ◌||◌, List, [], ◌∷◌, Option,
  none, some, length, ltb, leb, ◌==◌, if◌then◌else◌,
}
use qproto.Common.Int.{ℤ, pos, negate}

-- The characters of a literal.
abbrev pub codes : String → List ℕ
codes String.[] = []
codes (String.◌∷◌ c s) = code c ∷ codes s

-- `!strcmp(s, t)`.
abbrev pub strcmp : List ℕ → List ℕ → Bool
strcmp [] [] = true
strcmp [] (d ∷ t) = false
strcmp (c ∷ s) [] = false
strcmp (c ∷ s) (d ∷ t) = c == d && strcmp s t

-- `!strncmp(s, prefix, strlen(prefix))`, with what follows the prefix.
abbrev pub strip : List ℕ → List ℕ → Option (List ℕ)
strip [] s = some s
strip (d ∷ prefix) [] = none
strip (d ∷ prefix) (c ∷ s) = if c == d then strip prefix s else none

-- Whether a character stands in a set of delimiters.
abbrev pub is_in : List ℕ → ℕ → Bool
is_in [] c = false
is_in (d ∷ delims) c = c == d || is_in delims c

-- The string from its first character on that is no delimiter.
abbrev pub skip : List ℕ → List ℕ → List ℕ
skip delims [] = []
skip delims (c ∷ s) = if is_in delims c then skip delims s else c ∷ s

-- The string up to the first delimiter, and what follows that.
abbrev pub scan : List ℕ → List ℕ → List ℕ × List ℕ
scan delims [] = ([], [])
scan delims (c ∷ s) =
    let (word, rest) = scan delims s in if is_in delims c then ([], s) else (c ∷ word, rest)

abbrev pub token_of : List ℕ → List ℕ → Option (List ℕ) × List ℕ
token_of delims [] = (none, [])
token_of delims (c ∷ s) = let (word, rest) = scan delims (c ∷ s) in (some word, rest)

-- `strtok_r`: the next token, `none` for NULL, and the string that it saves for the next call.
unfoldable pub strtok : List ℕ → List ℕ → Option (List ℕ) × List ℕ
strtok delims s = token_of delims (skip delims s)

-- All tokens, of as many calls as there may be: each but the last takes a character.
unfoldable pub tokens_up_to : ℕ → List ℕ → List ℕ → List (List ℕ)
unfolding strtok
tokens_up_to zero delims s = []
tokens_up_to (suc n) delims s =
    let (token, saved) = strtok delims s in
    elim token [ none ↦ [] | some word ↦ word ∷ tokens_up_to n delims saved ]

unfoldable pub tokens : List ℕ → List ℕ → List (List ℕ)
unfolding tokens_up_to
tokens delims s = tokens_up_to (suc (length s)) delims s

abbrev pub is_space : ℕ → Bool
is_space c = c == 32 || leb 9 c && leb c 13

abbrev pub is_digit : ℕ → Bool
is_digit c = leb 48 c && leb c 57

abbrev pub skip_spaces : List ℕ → List ℕ
skip_spaces [] = []
skip_spaces (c ∷ s) = if is_space c then skip_spaces s else c ∷ s

-- The number that the digits continue.
unfoldable pub read_digits : ℕ → List ℕ → ℕ
read_digits acc [] = acc
read_digits acc (c ∷ s) =
    let more = read_digits (acc * 10 + (c - 48)) s in if is_digit c then more else acc

-- `none` where there is no digit, so that nothing is converted.
unfoldable pub magnitude : List ℕ → Option ℕ
unfolding read_digits
magnitude [] = none
magnitude (c ∷ s) = if is_digit c then some (read_digits 0 (c ∷ s)) else none

-- Whether there is a minus sign, and the magnitude.
unfoldable pub signed_magnitude : List ℕ → Bool × Option ℕ
unfolding magnitude
signed_magnitude [] = (false, none)
signed_magnitude (c ∷ s) =
    if c == 45
    then (true, magnitude s)
    else if c == 43
    then (false, magnitude s)
    else (false, magnitude (c ∷ s))

-- ULONG_MAX where the magnitude is out of range, and otherwise the number modulo 2^64.
abbrev pub to_ulong : Bool → ℕ → ℕ
to_ulong minus n =
    if ltb (2 ^ 64 - 1) n then 2 ^ 64 - 1 else if minus then (2 ^ 64 - n) % 2 ^ 64 else n

-- LONG_MIN or LONG_MAX where the number is out of range.
abbrev pub to_long : Bool → ℕ → ℤ
to_long minus n = if minus then negate (min n (2 ^ 63)) else pos (min n (2 ^ 63 - 1))

-- `strtoul(s, &end, 10)`; `none` stands for `end == s`, where the result is 0.
unfoldable pub strtoul : List ℕ → Option ℕ
unfolding signed_magnitude
strtoul s =
    let (minus, n) = signed_magnitude (skip_spaces s) in
    elim n [ none ↦ none | some k ↦ some (to_ulong minus k) ]

unfoldable pub strtol : List ℕ → Option ℤ
unfolding signed_magnitude
strtol s =
    let (minus, n) = signed_magnitude (skip_spaces s) in
    elim n [ none ↦ none | some k ↦ some (to_long minus k) ]
