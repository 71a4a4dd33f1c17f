-- ===== src/Address/Host.antt =====
-- libavtransport/address.c, `parse_host_addr`: the host, the port and the interface of a URL. The tests
-- of errno are left out: they ask for ULONG_MAX, which the bound beside them refuses.
pub mod Printed
use Prim.Native.Nat.{bit_and}
use qproto.Common.{
  ℕ, zero, suc, ◌+◌, Bool, true, false, ◌&&◌, ◌||◌, List, [], ◌∷◌, Option, none, some, einval,
  erange, ltb, ◌==◌, get_or, if◌then◌else◌, take,
}
use qproto.Strings.{codes, strtok, strtoul}
use qproto.Address.{avt_addr_4to6}
use qproto.Address.Types.{
  AvtAddress, AvtProtocolType, System, strdup, Outcome, fault, fail, done, ◌>>=◌, deref, Pton,
  parsed, unparsed, bad_family, Hints,
}

-- The host and the port, which is `none` for NULL. An address in brackets may hold colons.
unfoldable pub split_host : List ℕ → Option (List ℕ) × Option (List ℕ)
unfolding strtok
split_host [] = (none, none)
split_host (c ∷ host) =
    if c == b'['
    then (let (name, saved) = strtok (codes "[]") (c ∷ host) in
        (name, (strtok (codes "[:]") saved).0))
    else (let (name, saved) = strtok (codes ":") (c ∷ host) in (name, (strtok (codes ":") saved).0))

unfoldable pub parse_port : AvtAddress → Option (List ℕ) → Outcome AvtAddress
parse_port addr none = done addr
parse_port addr (some port_str) = elim (strtoul port_str) [
  | none ↦ fail einval
  | some res ↦
      if res == 0
      then fail einval
      else if ltb 65535 res
      then fail erange
      else done (record addr { port = res })
]

-- A failed copy of the name is not noticed, and no index is only logged.
unfoldable pub set_interface : System → AvtAddress → Option (List ℕ) → AvtAddress
set_interface sys addr none = addr
set_interface sys addr (some iface) = record addr {
  interface = strdup sys iface;
  interface_idx = sys.interface_index iface;
}

abbrev pub is_udp_lite : AvtProtocolType → Bool
is_udp_lite AvtProtocolType.udp_lite = true
is_udp_lite AvtProtocolType.udp = false
is_udp_lite _ = false

-- The protocol of the hints is the other one than that of the address.
abbrev pub hints : AvtAddress → Bool → Hints
hints addr listen = record {
  udp_lite = if is_udp_lite addr.proto then false else true;
  passive = listen;
}

abbrev pub default_port_str : List ℕ
default_port_str = codes "8212"

abbrev pub or_default : Option (List ℕ) → List ℕ
or_default none = default_port_str
or_default (some port_str) = port_str

-- The name is kept without its end if it is long. The 16 bytes are the first of the socket address.
unfoldable pub resolve_name :
    System → AvtAddress → List ℕ → Bool → Option (List ℕ) → Outcome AvtAddress
resolve_name sys addr host listen port_str =
    elim (sys.lookup_host host (or_default port_str) (hints addr listen)) [
      | none ↦ fail einval
      | some sockaddr ↦ done (record addr { host = take 255 host; ip = take 16 sockaddr })
    ]

unfoldable pub resolve_ipv6 :
    System → AvtAddress → List ℕ → Bool → Option (List ℕ) → Outcome AvtAddress
unfolding resolve_name
resolve_ipv6 sys addr host listen port_str = elim (sys.pton6 host) [
  | bad_family ↦ fail einval
  | unparsed ↦ resolve_name sys addr host listen port_str
  | parsed ip ↦ done (record addr { ip = ip })
]

-- An IPv4 address, else an IPv6 address, else a name.
unfoldable pub resolve : System → AvtAddress → List ℕ → Bool → Option (List ℕ) → Outcome AvtAddress
unfolding resolve_ipv6
resolve sys addr host listen port_str = elim (sys.pton4 host) [
  | bad_family ↦ fail einval
  | unparsed ↦ resolve_ipv6 sys addr host listen port_str
  | parsed ip4 ↦ done (record addr { ip = avt_addr_4to6 ip4 })
]

-- IN6_IS_ADDR_LINKLOCAL, IN6_IS_ADDR_MC_LINKLOCAL and IN6_IS_ADDR_MULTICAST.
unfoldable pub has_scope : List ℕ → Bool
has_scope ip =
    let first = get_or ip 0 0 in
    let second = get_or ip 1 0 in
    (first == 0xfe && bit_and second 0xc0 == 0x80)
    || (first == 0xff && bit_and second 0xf == 2)
    || first == 0xff

abbrev is_some : Option (List ℕ) → Bool
is_some none = false
is_some (some s) = true

unfoldable pub set_scope : AvtAddress → AvtAddress
unfolding has_scope
set_scope addr = record addr {
  scope = if has_scope addr.ip && is_some addr.interface then addr.interface_idx else 0;
}

-- Without a name the first call of strtok_r is given NULL and has nothing left, and NULL is looked up.
unfoldable pub parse_host_addr : System → AvtAddress → List ℕ → Bool → Outcome AvtAddress
unfolding split_host parse_port set_interface resolve set_scope strtok
parse_host_addr sys addr host listen = do
  let (name, port_str) = split_host host
  addr' ← parse_port addr port_str
  text ← deref name
  let (node, saved) = strtok (codes "%") text
  node' ← deref node
  let addr'' = set_interface sys addr' (strtok (codes "%") saved).0
  addr''' ← resolve sys addr'' node' listen port_str
  done (set_scope addr''')
