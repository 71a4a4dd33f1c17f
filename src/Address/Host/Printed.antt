-- ===== src/Address/Host/Printed.antt =====
-- `parse_host_addr` on an IPv4 address with a port.
use qproto.Common.{
  ℕ, ◌<◌, ◌^◌, ◌≡◌, refl, ◌∙◌, arith, Bool, false, List, [], ◌∷◌, ◌++◌, none, some, ◌==◌,
}
use qproto.Strings.{codes, strtok, is_in}
use qproto.Strings.Tokens.{IsPlain, IsWord, strtok-append, strtok-word, strtok-nil}
use qproto.Strings.Numbers.{print, strtoul-print, print-IsWord}
use qproto.Address.{avt_addr_4to6}
use qproto.Address.Types.{AvtAddress, System, done, parsed}
use qproto.Address.Host.{split_host, parse_port, set_interface, resolve, set_scope, parse_host_addr}

-- A name that no part of the parser splits.
abbrev pub IsHost : List ℕ → Type 0
IsHost = IsWord (codes ":%[]/@")

pub IsPlain-subset :
    (delims delims' w : List ℕ)
    → ((c : ℕ) → is_in delims c ≡ false → is_in delims' c ≡ false)
    → IsPlain delims w
    → IsPlain delims' w
IsPlain-subset delims delims' [] sub p = tt
IsPlain-subset delims delims' (c ∷ w) sub (h, p) = (sub c h, IsPlain-subset delims delims' w sub p)

pub IsWord-subset :
    (delims delims' w : List ℕ)
    → ((c : ℕ) → is_in delims c ≡ false → is_in delims' c ≡ false)
    → IsWord delims w
    → IsWord delims' w
IsWord-subset delims delims' [] sub p = absurd p
IsWord-subset delims delims' (c ∷ w) sub p = IsPlain-subset delims delims' (c ∷ w) sub p

-- A host that is in no brackets.
split_host-plain :
    (host rest : List ℕ)
    → IsHost host
    → split_host (host ++ rest) ≡ (
      (strtok (codes ":") (host ++ rest)).0,
      (strtok (codes ":") (strtok (codes ":") (host ++ rest)).1).0,
    )
unfolding split_host
split_host-plain [] rest h = absurd h
split_host-plain (c ∷ host) rest (h, p) =
    let other : (c == b'[') ≡ false = ground arith in rw other refl

split_host-print :
    (host : List ℕ) (port : ℕ)
    → IsHost host
    → port < 2 ^ 64
    → split_host (host ++ (b':' ∷ print port)) ≡ (some host, some (print port))
split_host-print host port h lt =
    let word = IsWord-subset (codes ":%[]/@") (codes ":") host (λ c e. ground arith) h in
    let first = strtok-append (codes ":") host b':' (print port) refl word in
    let second =
      strtok-word (codes ":") (print port)
        (print-IsWord (codes ":") port (λ d l. ground arith) lt) in
    split_host-plain host (b':' ∷ print port) h ∙ ground (arith, first, second)

parse_port-print :
    (addr : AvtAddress) (port : ℕ)
    → 0 < port
    → port < 2 ^ 16
    → parse_port addr (some (print port)) ≡ done (record addr { port = port })
unfolding parse_port
parse_port-print addr port pos lt = ground (arith, strtoul-print port (omega arith))

-- An IPv4 address and a port, for an address without an interface.
pub parse_host_addr-print :
    (sys : System) (addr : AvtAddress) (host : List ℕ) (port ip4 : ℕ) (listen : Bool)
    → IsHost host
    → 0 < port
    → port < 2 ^ 16
    → sys.pton4 host ≡ parsed ip4
    → addr.interface ≡ none
    → parse_host_addr sys addr (host ++ (b':' ∷ print port)) listen
      ≡ done (record addr { port = port; ip = avt_addr_4to6 ip4; scope = 0 })
unfolding parse_host_addr set_interface resolve set_scope
parse_host_addr-print sys addr host port ip4 listen h positive lt known none_yet =
    let split = split_host-print host port h (omega arith) in
    let read = parse_port-print addr port positive lt in
    let whole =
      strtok-word (codes "%") host
        (IsWord-subset (codes ":%[]/@") (codes "%") host (λ c e. ground arith) h) in
    ground (arith, split, read, whole, strtok-nil (codes "%"))
