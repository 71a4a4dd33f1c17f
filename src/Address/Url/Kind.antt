-- ===== src/Address/Url/Kind.antt =====
-- What kind of address a URL gives.
use qproto.Common.{
  ℕ, zero, suc, ◌≡◌, ◌-◌, ◌^◌, ltb, take, drop, length, einval, refl, Bool, List, [], ◌∷◌, Option,
  none, some,
}
use qproto.Common.Int.{ℤ, pos, negsuc}
use qproto.Strings.{codes, strcmp, strip, strtok, strtol}
use qproto.Address.Types.{
  AvtAddress, AvtAddressConnection, System, strdup, Outcome, fault, fail, done, Ensures,
  Ensures->>=, Ensures-done, Ensures-if, Ensures-option, deref, allocated,
}
use qproto.Address.Host.{parse_host_addr}
use qproto.Address.Url.{
  initial, other_scheme, set_transport, set_mode, set_transport_mode, native_uri, parse_scheme,
  parse_file, parse_path, last_mark, parse_unix, check_fd, parse_fd, parse_network, parse_location,
  avt_addr_from_url,
}
use qproto.Address.Url.Kept.{
  HasKind, SameKind, HasKind-of_same, parse_settings-SameKind, bind_kind, bind_any,
  parse_host_addr-SameKind,
}

parse_path-SameKind :
    (sys : System) (addr : AvtAddress) (next : List ℕ)
    → Ensures (SameKind addr) (parse_path sys addr next)
unfolding parse_path
parse_path-SameKind sys addr [] = tt
parse_path-SameKind sys addr (c ∷ next) =
    bind_any addr (allocated (strdup sys (c ∷ next))) _ (λ path. (refl, refl))

parse_unix-SameKind :
    (sys : System) (addr : AvtAddress) (next : List ℕ)
    → Ensures (SameKind addr) (parse_unix sys addr next)
unfolding parse_unix
parse_unix-SameKind sys addr next =
    Ensures-option (SameKind addr) (last_mark next (length next)) _ _
      (parse_path-SameKind sys addr next)
      (λ i.
        bind_kind addr (parse_path sys addr (take i next)) _
          (parse_path-SameKind sys addr (take i next))
          (λ b. parse_settings-SameKind sys b (some (drop i next))))

check_fd-SameKind : (addr : AvtAddress) (res : ℤ) → Ensures (SameKind addr) (check_fd addr res)
unfolding check_fd
check_fd-SameKind addr (pos zero) = tt
check_fd-SameKind addr (negsuc n) = tt
check_fd-SameKind addr (pos (suc n)) =
    Ensures-if (SameKind addr) (ltb (2 ^ 31 - 1) (suc n)) _ _ tt (refl, refl)

parse_fd-SameKind :
    (addr : AvtAddress) (next : List ℕ) → Ensures (SameKind addr) (parse_fd addr next)
unfolding parse_fd
parse_fd-SameKind addr next =
    Ensures-option (SameKind addr) (strtol next) (fail einval) (check_fd addr) tt
      (check_fd-SameKind addr)

parse_network-SameKind :
    (sys : System) (addr : AvtAddress) (next : List ℕ) (listen : Bool)
    → Ensures (SameKind addr) (parse_network sys addr next listen)
unfolding parse_network
parse_network-SameKind sys addr next listen =
    bind_any addr (deref (strtok (codes "/") next).0) _ (λ host.
      bind_kind addr (parse_host_addr sys addr host listen) _
        (parse_host_addr-SameKind sys addr host listen)
        (λ b. parse_settings-SameKind sys b (strtok (codes "/") (strtok (codes "/") next).1).0))

parse_file-SameKind :
    (sys : System) (addr : AvtAddress) (next : List ℕ)
    → Ensures (SameKind addr) (parse_file sys addr next)
unfolding parse_file
parse_file-SameKind sys addr next =
    bind_any addr (allocated (strdup sys next)) _ (λ path. (refl, refl))

parse_location-SameKind :
    (sys : System) (type : AvtAddressConnection) (addr : AvtAddress) (next : List ℕ) (listen : Bool)
    → Ensures (SameKind addr) (parse_location sys type addr next listen)
unfolding parse_location
parse_location-SameKind sys AvtAddressConnection.file addr next listen =
    parse_file-SameKind sys addr next
parse_location-SameKind sys AvtAddressConnection.unix addr next listen =
    parse_unix-SameKind sys addr next
parse_location-SameKind sys AvtAddressConnection.fd_address addr next listen =
    parse_fd-SameKind addr next
parse_location-SameKind sys AvtAddressConnection.null_address addr next listen =
    parse_network-SameKind sys addr next listen
parse_location-SameKind sys AvtAddressConnection.url_address addr next listen =
    parse_network-SameKind sys addr next listen
parse_location-SameKind sys AvtAddressConnection.socket addr next listen =
    parse_network-SameKind sys addr next listen
parse_location-SameKind sys AvtAddressConnection.callback addr next listen =
    parse_network-SameKind sys addr next listen

-- The schemes and the transports, for a new address.
other_scheme-HasKind :
    (listen : Bool) (url : List ℕ)
    → Ensures (λ (r : AvtAddress × List ℕ). HasKind (r.0)) (other_scheme (initial listen) url)
unfolding other_scheme
other_scheme-HasKind listen url =
    Ensures-option P (strip (codes "udp://") url) _ _
      (Ensures-option P (strip (codes "udplite://") url) _ _
        (Ensures-option P (strip (codes "quic://") url) _ _
          (Ensures-option P (strip (codes "file://") url) _ _
            (Ensures-option P (strip (codes "socket://") url) _ _
              (Ensures-option P (strip (codes "fd://") url) _ _ tt (λ r. refl)) (λ r. refl))
            (λ r. refl))
          (λ r. refl))
        (λ r. refl))
      (λ r. refl)
  where
    P : AvtAddress × List ℕ → Type 0
    P r = HasKind (r.0)

-- A transport gives a kind, and a mode keeps it.
set_transport-HasKind :
    (listen : Bool) (transport : List ℕ)
    → Ensures HasKind (set_transport (initial listen) transport)
unfolding set_transport
set_transport-HasKind listen t = Ensures-if HasKind (strcmp t (codes "udp")) _ _ refl (
    Ensures-if HasKind (strcmp t (codes "udplite")) _ _ refl (
      Ensures-if HasKind (strcmp t (codes "quic")) _ _ refl (
        Ensures-if HasKind (strcmp t (codes "file")) _ _ refl (
          Ensures-if HasKind (strcmp t (codes "fd")) _ _ refl
            (Ensures-if HasKind (strcmp t (codes "socket")) _ _ refl tt)))))

set_mode-HasKind :
    (addr : AvtAddress) (mode : Option (List ℕ))
    → HasKind addr
    → Ensures HasKind (set_mode addr mode)
unfolding set_mode
set_mode-HasKind addr none h = h
set_mode-HasKind addr (some mode) h = Ensures-if HasKind (strcmp mode (codes "passive")) _ _ h (
    Ensures-if HasKind (strcmp mode (codes "active")) _ _ h
      (Ensures-if HasKind (strcmp mode (codes "default")) _ _ h tt))

set_transport_mode-HasKind :
    (listen : Bool) (tm : Option (List ℕ))
    → Ensures HasKind (set_transport_mode (initial listen) tm)
unfolding set_transport_mode
set_transport_mode-HasKind listen tm = Ensures->>= HasKind (deref tm) _ (λ text e.
    Ensures->>= HasKind (deref (strtok (codes ":") text).0) _ (λ name e'.
      Ensures->>= HasKind (set_transport (initial listen) name) _ (λ addr e''.
        set_mode-HasKind addr (strtok (codes ":") (strtok (codes ":") text).1).0 (
          Ensures-done HasKind (set_transport (initial listen) name) addr
            (set_transport-HasKind listen name) e''))))

abbrev Named : AvtAddress × Option (List ℕ) → Type 0
Named r = HasKind (r.0)

native_uri-HasKind :
    (listen : Bool) (next : List ℕ) → Ensures Named (native_uri (initial listen) next)
unfolding native_uri
native_uri-HasKind listen next =
    let tm = (strtok (codes "@") next).0 in
    Ensures-option Named (strtok (codes "@") (strtok (codes "@") next).1).0 _ _ refl (λ behind.
      Ensures->>= Named (set_transport_mode (initial listen) tm) _ (λ addr e.
        Ensures-done HasKind (set_transport_mode (initial listen) tm) addr
          (set_transport_mode-HasKind listen tm) e))

parse_scheme-HasKind :
    (listen : Bool) (url : List ℕ) → Ensures Named (parse_scheme (initial listen) url)
unfolding parse_scheme
parse_scheme-HasKind listen url =
    Ensures-option Named (strip (codes "avt://") url) _ (native_uri (initial listen))
      (Ensures->>= Named (other_scheme (initial listen) url) _ (λ r e.
        Ensures-done (λ (q : AvtAddress × List ℕ). HasKind (q.0))
          (other_scheme (initial listen) url) r (other_scheme-HasKind listen url) e))
      (native_uri-HasKind listen)

-- Whatever the URL is, an address that is made of it is a file with the file protocol, a file descriptor
-- with it, a socket of the file system with the stream protocol, or a host in the network with
-- UDP, UDP-Lite or QUIC.
pub avt_addr_from_url-HasKind :
    (sys : System) (listen : Bool) (path : List ℕ) {addr : AvtAddress}
    → avt_addr_from_url sys listen path ≡ done addr
    → HasKind addr
unfolding avt_addr_from_url
avt_addr_from_url-HasKind sys listen path {addr} e =
    Ensures-done HasKind (avt_addr_from_url sys listen path) addr whole e
  where
    kept :
        (a : AvtAddress) (m : Outcome AvtAddress)
        → HasKind a
        → Ensures (SameKind a) m
        → Ensures HasKind m
    kept a fault h p = tt
    kept a (fail x) h p = tt
    kept a (done b) h p = HasKind-of_same a b h p

    whole : Ensures HasKind (avt_addr_from_url sys listen path)
    whole = Ensures->>= HasKind (allocated (strdup sys path)) _ (λ url e1.
        Ensures->>= HasKind (parse_scheme (initial listen) url) _ (λ r e2.
          Ensures->>= HasKind (deref (r.1)) _ (λ text e3.
            kept (r.0) (parse_location sys (r.0).type (r.0) text listen)
              (Ensures-done Named (parse_scheme (initial listen) url) r
                (parse_scheme-HasKind listen url) e2)
              (parse_location-SameKind sys (r.0).type (r.0) text listen))))
