-- ===== src/Address/Url/Network.antt =====
-- URLs of hosts in the network, printed and parsed.
use qproto.Common.{
  ℕ, ◌+◌, ◌<◌, ◌^◌, ◌≡◌, refl, arith, Bool, true, false, List, [], ◌∷◌, ◌++◌, none, some, length,
}
use qproto.Strings.{codes, is_in}
use qproto.Strings.Tokens.{
  IsPlain, IsWord, IsPlain-of_word, IsWord-append, strtok-append, strtok-word,
}
use qproto.Strings.Numbers.{print, print-IsWord}
use qproto.Address.{avt_addr_4to6}
use qproto.Address.Uuid.{print_from, AllBytes}
use qproto.Address.Types.{AvtAddress, System, done, ◌>>=◌, parsed}
use qproto.Address.Settings.{parse_settings}
use qproto.Address.Settings.Printed.{print_settings, parse_settings-print}
use qproto.Address.Settings.Allowed.{Setting, AllAllowed, apply_all}
use qproto.Address.Settings.Plain.{AllPlainPaths, slash_at, settings-IsPlain}
use qproto.Address.Host.Printed.{IsHost, IsPlain-subset, IsWord-subset, parse_host_addr-print}
use qproto.Address.Url.{initial, parse_network, parse_location, avt_addr_from_url}
use qproto.Address.Url.Prefix.{Prefix, print_prefix, proto_of, mode_of, chosen, parse_scheme-print}

-- The host and the port, and the settings behind the slash.
abbrev pub print_location : List ℕ → ℕ → List ℕ → List ℕ
print_location host port next = (host ++ (b':' ∷ print port)) ++ (b'/' ∷ next)

host_port-IsWord :
    (host : List ℕ) (port : ℕ)
    → IsHost host
    → port < 2 ^ 64
    → IsWord slash_at (host ++ (b':' ∷ print port))
host_port-IsWord host port h lt =
    IsWord-append slash_at host (b':' ∷ print port)
      (IsWord-subset (codes ":%[]/@") slash_at host (λ c e. ground arith) h)
      (
        refl,
        IsPlain-of_word slash_at (print port) (print-IsWord slash_at port (λ d l. ground arith) lt),
      )

slash : (c : ℕ) → is_in slash_at c ≡ false → is_in (codes "/") c ≡ false
slash c e = ground arith

at : (c : ℕ) → is_in slash_at c ≡ false → is_in (codes "@") c ≡ false
at c e = ground arith

location-IsWord :
    (host : List ℕ) (port : ℕ) (next : List ℕ)
    → IsHost host
    → port < 2 ^ 64
    → IsPlain slash_at next
    → IsWord (codes "@") (print_location host port next)
location-IsWord host port next h lt p =
    let hp = host ++ (b':' ∷ print port) in
    IsWord-append (codes "@") hp (b'/' ∷ next)
      (IsWord-subset slash_at (codes "@") hp at (host_port-IsWord host port h lt))
      (refl, IsPlain-subset slash_at (codes "@") next at p)

-- A network address whose settings are read as `parsed_settings` says.
parse_network-print :
    (sys : System) (addr result : AvtAddress) (host : List ℕ) (port ip4 : ℕ) (next : List ℕ)
    (listen : Bool)
    → IsHost host
    → 0 < port
    → port < 2 ^ 16
    → sys.pton4 host ≡ parsed ip4
    → addr.interface ≡ none
    → IsWord slash_at next
    → parse_settings sys
        (record addr { port = port; ip = avt_addr_4to6 ip4; scope = 0 })
        (some next)
      ≡ done result
    → parse_network sys addr (print_location host port next) listen ≡ done result
unfolding parse_network
parse_network-print sys addr result host port ip4 next listen h positive lt known none_yet p
      settings =
    let hp = host ++ (b':' ∷ print port) in
    let word =
      IsWord-subset slash_at (codes "/") hp slash (host_port-IsWord host port h (omega arith)) in
    let first = strtok-append (codes "/") hp b'/' next refl word in
    let second = strtok-word (codes "/") next (IsWord-subset slash_at (codes "/") next slash p) in
    let read = parse_host_addr-print sys addr host port ip4 listen h positive lt known none_yet in
    ground (arith, first, second, read, settings)

settings-IsWord :
    (bytes : List ℕ) (s : Setting) (ss : List Setting)
    → IsPlain slash_at (print_from 0 bytes ++ print_settings (s ∷ ss))
    → IsWord slash_at (print_from 0 bytes ++ print_settings (s ∷ ss))
settings-IsWord [] s ss p = p
settings-IsWord (b ∷ bs) s ss p = p

-- A URL with any of the beginnings that choose a transport of the network, an IPv4 address that the
-- system can read, a port from 1 to 65535, a UUID of any 16 bytes and any allowed settings, one at
-- least, in whose paths there is no slash and no `@`. With memory for every string it is parsed to
-- the address that has just these parts: the protocol and the mode, the mapped IPv4 address, the port,
-- the UUID and the options; all else is as in a new address.
pub avt_addr_from_url-print :
    (sys : System) (listen : Bool) (px : Prefix) (host : List ℕ) (port ip4 : ℕ) (bytes : List ℕ)
    (s : Setting) (ss : List Setting)
    → ((n : ℕ) → sys.has_memory n ≡ true)
    → IsHost host
    → 0 < port
    → port < 2 ^ 16
    → sys.pton4 host ≡ parsed ip4
    → length bytes ≡ 16
    → AllBytes bytes
    → AllAllowed sys (initial listen).opts (s ∷ ss)
    → AllPlainPaths slash_at (s ∷ ss)
    → avt_addr_from_url sys listen
        (print_prefix px (print_location host port (print_from 0 bytes ++ print_settings (s ∷ ss))))
      ≡ done (record (initial listen) {
        proto = proto_of px;
        mode = mode_of px;
        port = port;
        ip = avt_addr_4to6 ip4;
        uuid = bytes;
        opts = apply_all (initial listen).opts (s ∷ ss);
      })
unfolding avt_addr_from_url parse_location
avt_addr_from_url-print sys listen px host port ip4 bytes s ss memory h positive lt known l a
      allowed paths =
    let next = print_from 0 bytes ++ print_settings (s ∷ ss) in
    let plain_next = settings-IsPlain sys (initial listen).opts bytes (s ∷ ss) a allowed paths in
    let scheme =
      parse_scheme-print listen px (print_location host port next)
        (location-IsWord host port next h (omega arith) plain_next) in
    let base = record (chosen listen px) { port = port; ip = avt_addr_4to6 ip4; scope = 0 } in
    let settings = (parse_settings-print sys base bytes s ss l a allowed).0 in
    rw (memory (length (print_prefix px (print_location host port next)) + 1)) (
      rw (scheme, ◌>>=◌)
        (parse_network-print sys (chosen listen px)
          (record base { uuid = bytes; opts = apply_all (initial listen).opts (s ∷ ss) }) host port
          ip4 next listen h positive lt known refl (settings-IsWord bytes s ss plain_next)
          settings))
