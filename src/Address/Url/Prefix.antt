-- ===== src/Address/Url/Prefix.antt =====
-- The beginnings of a URL that choose a transport of the network, printed and parsed.
use qproto.Common.{ℕ, ◌≡◌, refl, ◌∙◌, ap, arith, Bool, List, ◌∷◌, ◌++◌, some}
use qproto.Strings.{codes}
use qproto.Strings.Tokens.{IsPlain, IsWord, IsWord-append, strtok-append, strtok-word, strtok-nil}
use qproto.Address.Types.{AvtAddress, AvtProtocolType, AvtProtocolMode, done, ◌>>=◌}
use qproto.Address.Url.{
  initial, with_proto, other_scheme, set_transport, set_mode, set_transport_mode, native_uri,
  parse_scheme,
}

-- The transports of the network, and the beginnings of a URL that choose one.
pub data Transport : Type 0 where
  udp udplite quic : Transport

pub data Prefix : Type 0 where
  bare : Prefix
  plain : Transport → Prefix
  through : Transport → Prefix
  in_mode : Transport → AvtProtocolMode → Prefix

abbrev pub transport_name : Transport → List ℕ
transport_name udp = codes "udp"
transport_name udplite = codes "udplite"
transport_name quic = codes "quic"

abbrev pub mode_name : AvtProtocolMode → List ℕ
mode_name AvtProtocolMode.default = codes "default"
mode_name AvtProtocolMode.passive = codes "passive"
mode_name AvtProtocolMode.active = codes "active"

abbrev pub print_prefix : Prefix → List ℕ → List ℕ
print_prefix bare rest = codes "avt://" ++ rest
print_prefix (plain t) rest = transport_name t ++ (codes "://" ++ rest)
print_prefix (through t) rest = codes "avt://" ++ (transport_name t ++ (b'@' ∷ rest))
print_prefix (in_mode t m) rest =
    codes "avt://" ++ ((transport_name t ++ (b':' ∷ mode_name m)) ++ (b'@' ∷ rest))

abbrev pub protocol : Transport → AvtProtocolType
protocol udp = AvtProtocolType.udp
protocol udplite = AvtProtocolType.udp_lite
protocol quic = AvtProtocolType.quic

abbrev pub proto_of : Prefix → AvtProtocolType
proto_of bare = AvtProtocolType.udp
proto_of (plain t) = protocol t
proto_of (through t) = protocol t
proto_of (in_mode t m) = protocol t

abbrev pub mode_of : Prefix → AvtProtocolMode
mode_of (in_mode t m) = m
mode_of _ = AvtProtocolMode.default

-- Both as the address has them.
abbrev pub chosen : Bool → Prefix → AvtAddress
chosen listen px = record (initial listen) { proto = proto_of px; mode = mode_of px }

transport_name-IsWord :
    (t : Transport) → IsWord (codes "@") (transport_name t) × IsWord (codes ":") (transport_name t)
transport_name-IsWord udp = search (tt)
transport_name-IsWord udplite = search (tt)
transport_name-IsWord quic = search (tt)

mode_name-IsWord :
    (m : AvtProtocolMode) → IsPlain (codes "@") (mode_name m) × IsWord (codes ":") (mode_name m)
mode_name-IsWord AvtProtocolMode.default = search (tt)
mode_name-IsWord AvtProtocolMode.passive = search (tt)
mode_name-IsWord AvtProtocolMode.active = search (tt)

set_transport-name :
    (addr : AvtAddress) (t : Transport)
    → set_transport addr (transport_name t) ≡ done (with_proto addr (protocol t))
unfolding set_transport
set_transport-name addr udp = refl
set_transport-name addr udplite = refl
set_transport-name addr quic = refl

set_mode-name :
    (addr : AvtAddress) (m : AvtProtocolMode)
    → set_mode addr (some (mode_name m)) ≡ done (record addr { mode = m })
unfolding set_mode
set_mode-name addr AvtProtocolMode.default = refl
set_mode-name addr AvtProtocolMode.passive = refl
set_mode-name addr AvtProtocolMode.active = refl

set_transport_mode-alone :
    (addr : AvtAddress) (t : Transport)
    → set_transport_mode addr (some (transport_name t)) ≡ done (with_proto addr (protocol t))
unfolding set_transport_mode set_mode
set_transport_mode-alone addr t =
    let word = strtok-word (codes ":") (transport_name t) (transport_name-IsWord t).1 in
    ground (arith, word, strtok-nil (codes ":"), set_transport-name addr t)

set_transport_mode-both :
    (addr : AvtAddress) (t : Transport) (m : AvtProtocolMode)
    → set_transport_mode addr (some (transport_name t ++ (b':' ∷ mode_name m)))
      ≡ done (record addr { proto = protocol t; mode = m })
unfolding set_transport_mode
set_transport_mode-both addr t m =
    let first =
      strtok-append (codes ":") (transport_name t) b':' (mode_name m) refl
        (transport_name-IsWord t).1 in
    let second = strtok-word (codes ":") (mode_name m) (mode_name-IsWord m).1 in
    ground (
      arith,
      first,
      second,
      set_transport-name addr t,
      set_mode-name (with_proto addr (protocol t)) m,
    )

-- The parts of a URL before and behind the `@`.
native_uri-at :
    (addr : AvtAddress) (tm rest : List ℕ)
    → IsWord (codes "@") tm
    → IsWord (codes "@") rest
    → native_uri addr (tm ++ (b'@' ∷ rest))
      ≡ (set_transport_mode addr (some tm) >>= λ addr'. done (addr', some rest))
unfolding native_uri
native_uri-at addr tm rest p q =
    let first = strtok-append (codes "@") tm b'@' rest refl p in
    let second = strtok-word (codes "@") rest q in ground (arith, first, second)

native_uri-bare :
    (addr : AvtAddress) (rest : List ℕ)
    → IsWord (codes "@") rest
    → native_uri addr rest ≡ done (with_proto addr AvtProtocolType.udp, some rest)
unfolding native_uri
native_uri-bare addr rest q = ground (arith, strtok-word (codes "@") rest q, strtok-nil (codes "@"))

pub parse_scheme-print :
    (listen : Bool) (px : Prefix) (rest : List ℕ)
    → IsWord (codes "@") rest
    → parse_scheme (initial listen) (print_prefix px rest) ≡ done (chosen listen px, some rest)
unfolding parse_scheme other_scheme
parse_scheme-print listen bare rest q = native_uri-bare (initial listen) rest q
parse_scheme-print listen (plain udp) rest q = refl
parse_scheme-print listen (plain udplite) rest q = refl
parse_scheme-print listen (plain quic) rest q = refl
parse_scheme-print listen (through t) rest q =
    native_uri-at (initial listen) (transport_name t) rest (transport_name-IsWord t).0 q
    ∙ ap (λ o. o >>= λ addr'. done (addr', some rest)) (set_transport_mode-alone (initial listen) t)
parse_scheme-print listen (in_mode t m) rest q =
    let tm = transport_name t ++ (b':' ∷ mode_name m) in
    let word =
      IsWord-append (codes "@") (transport_name t) (b':' ∷ mode_name m) (transport_name-IsWord t).0
        (refl, (mode_name-IsWord m).0) in
    native_uri-at (initial listen) tm rest word q
    ∙ ap (λ o. o >>= λ addr'. done (addr', some rest))
        (set_transport_mode-both (initial listen) t m)
