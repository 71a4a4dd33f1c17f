-- ===== src/Address/Url/Files.antt =====
-- URLs of files, file descriptors and sockets.
use native.Mathlib.Nat.{zero-add, suc-add}
use mathlib.Core.List.{append_assoc}
use qproto.Common.{
  ℕ, zero, suc, ◌+◌, ◌-◌, ◌<◌, ◌^◌, ◌≡◌, refl, ◌≢◌, ◌∙◌, sym, ap, arith, Bool, true, false, List,
  [], ◌∷◌, ◌++◌, none, some, einval, erange, length, length-append, ltb, ◌==◌, get_or,
  if◌then◌else◌, take, drop,
}
use qproto.Common.Int.{pos}
use qproto.Strings.{codes}
use qproto.Strings.Tokens.{IsPlain}
use qproto.Strings.Numbers.{print, strtol-print}
use qproto.Address.Types.{AvtAddress, AvtAddressConnection, AvtProtocolType, System, done, fail}
use qproto.Address.Settings.{parse_settings}
use qproto.Address.Settings.Printed.{take-append, drop-append}
use qproto.Address.Url.{
  initial, with_type, other_scheme, parse_scheme, parse_path, parse_unix, check_fd, parse_fd,
  last_mark, parse_location, avt_addr_from_url,
}

abbrev pub fd_file : Bool → AvtAddress
fd_file listen =
    with_type (initial listen) AvtAddressConnection.fd_address AvtProtocolType.file_protocol

abbrev pub unix_socket : Bool → AvtAddress
unix_socket listen =
    with_type (initial listen) AvtAddressConnection.unix AvtProtocolType.stream_protocol

parse_fd-print :
    (addr : AvtAddress) (n : ℕ)
    → n < 2 ^ 63
    → parse_fd addr (print n) ≡ (
        if n == 0
        then fail einval
        else if ltb (2 ^ 31 - 1) n
        then fail erange
        else done (record addr { fd = pos n }))
unfolding parse_fd check_fd
parse_fd-print addr zero h = rw (strtol-print 0 h, parse_fd) refl
parse_fd-print addr (suc n) h = ground (arith, strtol-print (suc n) h)

-- A file descriptor, printed in any size that a `long` has: 0 is refused as invalid, one above
-- 2^31 - 1 as out of range, and any other becomes that of the address.
pub avt_addr_from_url-fd :
    (sys : System) (listen : Bool) (n : ℕ)
    → n < 2 ^ 63
    → sys.has_memory (length (codes "fd://" ++ print n) + 1) ≡ true
    → avt_addr_from_url sys listen (codes "fd://" ++ print n) ≡ (
        if n == 0
        then fail einval
        else if ltb (2 ^ 31 - 1) n
        then fail erange
        else done (record (fd_file listen) { fd = pos n }))
unfolding avt_addr_from_url parse_scheme other_scheme parse_location
avt_addr_from_url-fd sys listen n h memory = rw memory (parse_fd-print (fd_file listen) n h)

-- Where the mark of the options is: behind any text, and before one without a mark.
get_or-beyond :
    (xs : List ℕ) (c : ℕ) (tail : List ℕ) (j : ℕ)
    → get_or (xs ++ (c ∷ tail)) (length xs + suc j) 0 ≡ get_or tail j 0
get_or-beyond [] c tail j = rw (zero-add (suc j)) refl
get_or-beyond (x ∷ xs) c tail j = rw (suc-add (length xs) (suc j)) (get_or-beyond xs c tail j)

get_or-mid : (xs : List ℕ) (c : ℕ) (tail : List ℕ) → get_or (xs ++ (c ∷ tail)) (length xs) 0 ≡ c
get_or-mid [] c tail = refl
get_or-mid (x ∷ xs) c tail = get_or-mid xs c tail

get_or-IsPlain : (xs : List ℕ) → IsPlain (codes "#") xs → (j : ℕ) → (get_or xs j 0 == b'#') ≡ false
get_or-IsPlain [] p j = refl
get_or-IsPlain (x ∷ xs) (h, p) zero = ground arith
get_or-IsPlain (x ∷ xs) (h, p) (suc j) = get_or-IsPlain xs p j

-- One character back from the end of the text that is looked at.
last_mark-here :
    (next : List ℕ) (i : ℕ)
    → get_or next (suc i) 0 ≡ b'#'
    → get_or next i 0 ≢ b'\\'
    → last_mark next (suc (suc i)) ≡ some (suc i)
unfolding last_mark
last_mark-here next i mark h = ground arith

last_mark-skip :
    (next : List ℕ) (i : ℕ)
    → (get_or next i 0 == b'#') ≡ false
    → last_mark next (suc i) ≡ last_mark next i
unfolding last_mark
last_mark-skip next i h = rw h refl

last_mark-nothing : (next : List ℕ) → IsPlain (codes "#") next → (i : ℕ) → last_mark next i ≡ none
unfolding last_mark
last_mark-nothing next p zero = refl
last_mark-nothing next p (suc i) = rw (get_or-IsPlain next p i) (last_mark-nothing next p i)

module _ (dir : List ℕ) (c : ℕ) (tail : List ℕ) (h : c ≢ b'\\') (p : IsPlain (codes "#") tail) where
  marked : List ℕ
  marked = dir ++ (c ∷ b'#' ∷ tail)

  last_mark-beyond :
      (k : ℕ) → last_mark marked (suc (suc (length dir + k))) ≡ some (suc (length dir))
  unfolding marked
  last_mark-beyond zero =
      let zeros : length dir + 0 ≡ length dir = omega arith in
      let before = get_or-mid dir c (b'#' ∷ tail) in
      let one : suc (length dir) ≡ length dir + 1 = omega arith in
      let here : get_or (dir ++ (c ∷ b'#' ∷ tail)) (suc (length dir)) 0 ≡ b'#' =
        ap (λ n. get_or (dir ++ (c ∷ b'#' ∷ tail)) n 0) one ∙ get_or-beyond dir c (b'#' ∷ tail) 0 in
      rw zeros
        (last_mark-here (dir ++ (c ∷ b'#' ∷ tail)) (length dir) here (λ e. h (sym before ∙ e)))
  last_mark-beyond (suc k) =
      let next = dir ++ (c ∷ b'#' ∷ tail) in
      let shift : suc (length dir + suc k) ≡ length dir + suc (suc k) = omega arith in
      let other : (get_or next (suc (length dir + suc k)) 0 == b'#') ≡ false =
        ap (λ n. get_or next n 0 == b'#') shift
        ∙ ap (λ v. v == b'#') (get_or-beyond dir c (b'#' ∷ tail) (suc k))
        ∙ get_or-IsPlain tail p k in
      let back : suc (length dir + suc k) ≡ suc (suc (length dir + k)) = omega arith in
      last_mark-skip next (suc (length dir + suc k)) other
      ∙ ap (last_mark next) back
      ∙ last_mark-beyond k

  last_mark-marked : last_mark marked (length marked) ≡ some (suc (length dir))
  unfolding marked
  last_mark-marked =
      let size : length marked ≡ suc (suc (length dir + length tail)) =
        omega (arith, length-append {0} dir (c ∷ b'#' ∷ tail)) in
      rw size (last_mark-beyond (length tail))

  take-marked : take (suc (length dir)) marked ≡ dir ++ (c ∷ [])
  unfolding marked
  take-marked =
      let size : length (dir ++ (c ∷ [])) ≡ suc (length dir) =
        omega (arith, length-append {0} dir (c ∷ [])) in
      ap (take (suc (length dir))) (sym (append_assoc dir (c ∷ []) (b'#' ∷ tail)))
      ∙ take-append (suc (length dir)) (dir ++ (c ∷ [])) (b'#' ∷ tail) size

  drop-marked : drop (suc (length dir)) marked ≡ b'#' ∷ tail
  unfolding marked
  drop-marked =
      let size : length (dir ++ (c ∷ [])) ≡ suc (length dir) =
        omega (arith, length-append {0} dir (c ∷ [])) in
      ap (drop (suc (length dir))) (sym (append_assoc dir (c ∷ []) (b'#' ∷ tail)))
      ∙ drop-append (suc (length dir)) (dir ++ (c ∷ [])) (b'#' ∷ tail) size

parse_path-append :
    (sys : System) (addr : AvtAddress) (dir : List ℕ) (c : ℕ)
    → ((n : ℕ) → sys.has_memory n ≡ true)
    → parse_path sys addr (dir ++ (c ∷ [])) ≡ done (record addr { path = some (dir ++ (c ∷ [])) })
unfolding parse_path
parse_path-append sys addr [] c memory = rw (memory 2) refl
parse_path-append sys addr (d ∷ dir) c memory = rw (memory (length (d ∷ dir ++ (c ∷ [])) + 1)) refl

-- The path ends with `c`, and the settings come behind a mark.
parse_unix-marked :
    (sys : System) (addr : AvtAddress) (dir : List ℕ) (c : ℕ) (tail : List ℕ)
    → ((n : ℕ) → sys.has_memory n ≡ true)
    → c ≢ b'\\'
    → IsPlain (codes "#") tail
    → parse_unix sys addr (dir ++ (c ∷ b'#' ∷ tail))
      ≡ parse_settings sys (record addr { path = some (dir ++ (c ∷ [])) }) (some (b'#' ∷ tail))
unfolding parse_unix marked
parse_unix-marked sys addr dir c tail memory h p =
    let found = last_mark-marked dir c tail h p in
    let location = take-marked dir c tail h p in
    let behind = drop-marked dir c tail h p in
    ground (arith, found, location, behind, parse_path-append sys addr dir c memory)

parse_unix-plain :
    (sys : System) (addr : AvtAddress) (dir : List ℕ) (c : ℕ)
    → ((n : ℕ) → sys.has_memory n ≡ true)
    → IsPlain (codes "#") (dir ++ (c ∷ []))
    → parse_unix sys addr (dir ++ (c ∷ [])) ≡ done (record addr { path = some (dir ++ (c ∷ [])) })
unfolding parse_unix
parse_unix-plain sys addr dir c memory p = ground (
  arith,
  last_mark-nothing (dir ++ (c ∷ [])) p (length (dir ++ (c ∷ []))),
  parse_path-append sys addr dir c memory,
)

-- A socket's path whose last character is no backslash, a `#`, and a text without one, with memory for
-- every string: the settings are that text, and the path, which may hold a `#` too, is all before.
pub avt_addr_from_url-socket :
    (sys : System) (listen : Bool) (dir : List ℕ) (c : ℕ) (tail : List ℕ)
    → ((n : ℕ) → sys.has_memory n ≡ true)
    → c ≢ b'\\'
    → IsPlain (codes "#") tail
    → avt_addr_from_url sys listen (codes "socket://" ++ (dir ++ (c ∷ b'#' ∷ tail)))
      ≡ parse_settings sys
          (record (unix_socket listen) { path = some (dir ++ (c ∷ [])) })
          (some (b'#' ∷ tail))
unfolding avt_addr_from_url parse_scheme other_scheme parse_location
avt_addr_from_url-socket sys listen dir c tail memory h p =
    rw (memory (length (codes "socket://" ++ (dir ++ (c ∷ b'#' ∷ tail))) + 1))
      (parse_unix-marked sys (unix_socket listen) dir c tail memory h p)

-- A path without a `#` is taken as it is.
pub avt_addr_from_url-socket_plain :
    (sys : System) (listen : Bool) (dir : List ℕ) (c : ℕ)
    → ((n : ℕ) → sys.has_memory n ≡ true)
    → IsPlain (codes "#") (dir ++ (c ∷ []))
    → avt_addr_from_url sys listen (codes "socket://" ++ (dir ++ (c ∷ [])))
      ≡ done (record (unix_socket listen) { path = some (dir ++ (c ∷ [])) })
unfolding avt_addr_from_url parse_scheme other_scheme parse_location
avt_addr_from_url-socket_plain sys listen dir c memory p =
    rw (memory (length (codes "socket://" ++ (dir ++ (c ∷ []))) + 1))
      (parse_unix-plain sys (unix_socket listen) dir c memory p)
