-- ===== src/Address/Url/Kept.antt =====
-- What the parts of a URL keep of the kind of an address: its type and its protocol.
use qproto.Common.{
  ℕ, ◌≡◌, ap₂, Bool-cases, ok, err, ltb, ◌==◌, take, drop, einval, refl, ◌∙◌, Bool, true, false,
  List, [], ◌∷◌, Option, none, some, inl, inr,
}
use qproto.Strings.{codes, strtok, strtoul, tokens}
use qproto.Address.{avt_parse_uuid, avt_addr_4to6}
use qproto.Address.Types.{
  AvtAddress, AvtAddressConnection, AvtProtocolType, System, Outcome, fault, fail, done, ◌>>=◌,
  Ensures, Ensures->>=, Ensures-if, Ensures-option, Pton, parsed, unparsed, bad_family, deref,
}
use qproto.Address.Settings.{
  first_options, parse_fragment, parse_uuid_part, parse_settings_text, parse_settings,
}
use qproto.Address.Host.{
  or_default, hints, split_host, parse_port, set_interface, resolve_name, resolve_ipv6, resolve,
  set_scope, parse_host_addr,
}

-- The pairs of a type and a protocol that a URL may give.
abbrev pub has_kind : AvtAddressConnection → AvtProtocolType → Bool
has_kind AvtAddressConnection.url_address AvtProtocolType.udp = true
has_kind AvtAddressConnection.url_address AvtProtocolType.udp_lite = true
has_kind AvtAddressConnection.url_address AvtProtocolType.quic = true
has_kind AvtAddressConnection.file AvtProtocolType.file_protocol = true
has_kind AvtAddressConnection.fd_address AvtProtocolType.file_protocol = true
has_kind AvtAddressConnection.unix AvtProtocolType.stream_protocol = true
has_kind _ _ = false

abbrev pub HasKind : AvtAddress → Type 0
HasKind addr = has_kind addr.type addr.proto ≡ true

-- Nothing behind the scheme changes the kind.
abbrev pub SameKind : AvtAddress → AvtAddress → Type 0
SameKind addr addr' = (addr'.type ≡ addr.type) × (addr'.proto ≡ addr.proto)

pub HasKind-of_same : (a b : AvtAddress) → HasKind a → SameKind a b → HasKind b
HasKind-of_same a b h p = ap₂ has_kind (p.0) (p.1) ∙ h

SameKind-trans : (a b c : AvtAddress) → SameKind a b → SameKind b c → SameKind a c
SameKind-trans a b c p q = (q.0 ∙ p.0, q.1 ∙ p.1)

parse_fragment-SameKind :
    (sys : System) (addr : AvtAddress) (next : List ℕ)
    → Ensures (SameKind addr) (parse_fragment sys addr next)
unfolding parse_fragment
parse_fragment-SameKind sys addr [] = (refl, refl)
parse_fragment-SameKind sys addr (c ∷ next) = elim (Bool-cases (c == 35)) [
  | inl mark ↦ rw mark (
      Ensures->>= (SameKind addr) (first_options sys addr.opts (tokens (codes "&") next))
        (λ opts'. done (record addr { opts = opts' })) (λ o h. (refl, refl)))
  | inr other ↦ rw other tt
]

parse_uuid_part-SameKind :
    (sys : System) (addr : AvtAddress) (next : List ℕ)
    → Ensures (SameKind addr) (parse_uuid_part sys addr next)
unfolding parse_uuid_part
parse_uuid_part-SameKind sys addr next =
    elim (avt_parse_uuid (take 36 next))
      as (λ r. Ensures (SameKind addr) (elim r [
        | err e ↦ fail e
        | ok bytes ↦ parse_fragment sys (record addr { uuid = bytes }) (drop 36 next)
      ])) [
        | err e ↦ tt
        | ok bytes ↦ parse_fragment-SameKind sys (record addr { uuid = bytes }) (drop 36 next)
      ]

pub parse_settings-SameKind :
    (sys : System) (addr : AvtAddress) (next : Option (List ℕ))
    → Ensures (SameKind addr) (parse_settings sys addr next)
unfolding parse_settings parse_settings_text
parse_settings-SameKind sys addr none = (refl, refl)
parse_settings-SameKind sys addr (some []) = (refl, refl)
parse_settings-SameKind sys addr (some (c ∷ next)) =
    Ensures-if (SameKind addr) (c == 35) (parse_fragment sys addr (c ∷ next))
      (parse_uuid_part sys addr (c ∷ next)) (parse_fragment-SameKind sys addr (c ∷ next))
      (parse_uuid_part-SameKind sys addr (c ∷ next))

parse_port-SameKind :
    (addr : AvtAddress) (port_str : Option (List ℕ))
    → Ensures (SameKind addr) (parse_port addr port_str)
unfolding parse_port
parse_port-SameKind addr none = (refl, refl)
parse_port-SameKind addr (some port_str) =
    Ensures-option (SameKind addr) (strtoul port_str) _ _ tt (λ res.
      Ensures-if (SameKind addr) (res == 0) _ _ tt
        (Ensures-if (SameKind addr) (ltb 65535 res) _ _ tt (refl, refl)))

set_interface-SameKind :
    (sys : System) (addr : AvtAddress) (iface : Option (List ℕ))
    → SameKind addr (set_interface sys addr iface)
unfolding set_interface
set_interface-SameKind sys addr none = (refl, refl)
set_interface-SameKind sys addr (some iface) = (refl, refl)

pton_kind :
    {A : Type 0} (addr : AvtAddress) (r : Pton A) (x : Outcome AvtAddress)
    (f : A → Outcome AvtAddress)
    → Ensures (SameKind addr) x
    → ((a : A) → Ensures (SameKind addr) (f a))
    → Ensures (SameKind addr) (elim r [ bad_family ↦ fail einval | unparsed ↦ x | parsed a ↦ f a ])
pton_kind addr (parsed a) x f p q = q a
pton_kind addr unparsed x f p q = p
pton_kind addr bad_family x f p q = tt

module _ (sys : System) (addr : AvtAddress) (host : List ℕ) (listen : Bool)
    (port_str : Option (List ℕ)) where
  resolve_name-SameKind : Ensures (SameKind addr) (resolve_name sys addr host listen port_str)
  unfolding resolve_name
  resolve_name-SameKind =
      Ensures-option (SameKind addr)
        (sys.lookup_host host (or_default port_str) (hints addr listen)) (fail einval)
        (λ sockaddr. done (record addr { host = take 255 host; ip = take 16 sockaddr })) tt
        (λ sockaddr. (refl, refl))

  resolve_ipv6-SameKind : Ensures (SameKind addr) (resolve_ipv6 sys addr host listen port_str)
  unfolding resolve_ipv6
  resolve_ipv6-SameKind =
      pton_kind addr (sys.pton6 host) (resolve_name sys addr host listen port_str)
        (λ ip. done (record addr { ip = ip })) resolve_name-SameKind (λ ip. (refl, refl))

  resolve-SameKind : Ensures (SameKind addr) (resolve sys addr host listen port_str)
  unfolding resolve
  resolve-SameKind =
      pton_kind addr (sys.pton4 host) (resolve_ipv6 sys addr host listen port_str)
        (λ ip4. done (record addr { ip = avt_addr_4to6 ip4 })) resolve_ipv6-SameKind
        (λ ip4. (refl, refl))

weaken :
    (a b : AvtAddress) (m : Outcome AvtAddress)
    → SameKind a b
    → Ensures (SameKind b) m
    → Ensures (SameKind a) m
weaken a b fault p q = tt
weaken a b (fail e) p q = tt
weaken a b (done c) p q = SameKind-trans a b c p q

-- A step, and what is done with its address.
pub bind_kind :
    (a : AvtAddress) (m : Outcome AvtAddress) (f : AvtAddress → Outcome AvtAddress)
    → Ensures (SameKind a) m
    → ((b : AvtAddress) → Ensures (SameKind b) (f b))
    → Ensures (SameKind a) (m >>= f)
bind_kind a fault f p q = tt
bind_kind a (fail e) f p q = tt
bind_kind a (done b) f p q = weaken a b (f b) p (q b)

-- Values that are no address.
pub bind_any :
    {A : Type 0} (a : AvtAddress) (m : Outcome A) (f : A → Outcome AvtAddress)
    → ((b : A) → Ensures (SameKind a) (f b))
    → Ensures (SameKind a) (m >>= f)
bind_any a m f q = Ensures->>= (SameKind a) m f (λ b e. q b)

pub parse_host_addr-SameKind :
    (sys : System) (addr : AvtAddress) (host : List ℕ) (listen : Bool)
    → Ensures (SameKind addr) (parse_host_addr sys addr host listen)
unfolding parse_host_addr set_scope
parse_host_addr-SameKind sys addr host listen =
    bind_kind addr (parse_port addr (split_host host).1) _
      (parse_port-SameKind addr (split_host host).1)
      (λ b. bind_any b (deref (split_host host).0) _ (λ text.
        bind_any b (deref (strtok (codes "%") text).0) _ (λ node.
          let iface = (strtok (codes "%") (strtok (codes "%") text).1).0 in
          let c = set_interface sys b iface in
          weaken b c _ (set_interface-SameKind sys b iface) (
            bind_kind c (resolve sys c node listen (split_host host).1) _
              (resolve-SameKind sys c node listen (split_host host).1) (λ d. (refl, refl))))))
