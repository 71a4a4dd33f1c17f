-- ===== src/Address/Url.antt =====
-- libavtransport/address.c, `avt_addr_from_url`. The defaults of CONFIG_DEFAULT_PORT and
-- CONFIG_DEFAULT_TYPE are those of meson.build. Logging is left out, and so is the test of errno for
-- file descriptors, since the bound beside it refuses LONG_MAX and LONG_MIN.
pub mod Network
pub mod Prefix
pub mod Files
pub mod Kind
pub mod Kept
use qproto.Common.{
  ℕ, zero, suc, ◌+◌, ◌-◌, ◌^◌, Bool, true, false, ◌&&◌, ◌||◌, List, [], ◌∷◌, Option, none, some,
  einval, erange, length, ltb, ◌==◌, not, get_or, if◌then◌else◌, take, drop,
}
use qproto.Common.Int.{ℤ, pos, negsuc, ltb_ℤ}
use qproto.Strings.{codes, strcmp, strip, strtok, strtol}
use qproto.Address.Types.{
  AvtAddress, AvtAddressConnection, AvtProtocolType, AvtProtocolMode, zeroed, System, strdup,
  Outcome, fault, fail, done, ◌>>=◌, deref, allocated,
}
use qproto.Address.Settings.{parse_settings}
use qproto.Address.Host.{parse_host_addr}

abbrev pub initial : Bool → AvtAddress
initial listen = record zeroed {
  fd = negsuc 0;
  type = AvtAddressConnection.url_address;
  port = 8212;
  proto = AvtProtocolType.udp;
  mode = AvtProtocolMode.default;
  listen = listen;
}

-- What a scheme or a transport makes of the address.
abbrev pub with_proto : AvtAddress → AvtProtocolType → AvtAddress
with_proto addr proto = record addr { proto = proto }

abbrev pub with_type : AvtAddress → AvtAddressConnection → AvtProtocolType → AvtAddress
with_type addr type proto = record addr { type = type; proto = proto }

-- The schemes of the URL but `avt://`, in the order in which they are tried.
unfoldable pub other_scheme : AvtAddress → List ℕ → Outcome (AvtAddress × List ℕ)
other_scheme addr next = elim (strip (codes "udp://") next) [
  | some rest ↦ done (with_proto addr AvtProtocolType.udp, rest)
  | none ↦ elim (strip (codes "udplite://") next) [
    | some rest ↦ done (with_proto addr AvtProtocolType.udp_lite, rest)
    | none ↦ elim (strip (codes "quic://") next) [
      | some rest ↦ done (with_proto addr AvtProtocolType.quic, rest)
      | none ↦ elim (strip (codes "file://") next) [
        | some rest ↦
            done (with_type addr AvtAddressConnection.file AvtProtocolType.file_protocol, rest)
        | none ↦ elim (strip (codes "socket://") next) [
          | some rest ↦
              done (with_type addr AvtAddressConnection.unix AvtProtocolType.stream_protocol, rest)
          | none ↦ elim (strip (codes "fd://") next) [
            | some rest ↦
                done (
                  with_type addr AvtAddressConnection.fd_address AvtProtocolType.file_protocol,
                  rest,
                )
            | none ↦ fail einval
          ]
        ]
      ]
    ]
  ]
]

unfoldable pub set_transport : AvtAddress → List ℕ → Outcome AvtAddress
set_transport addr transport =
    if strcmp transport (codes "udp")
    then done (with_proto addr AvtProtocolType.udp)
    else if strcmp transport (codes "udplite")
    then done (with_proto addr AvtProtocolType.udp_lite)
    else if strcmp transport (codes "quic")
    then done (with_proto addr AvtProtocolType.quic)
    else if strcmp transport (codes "file")
    then done (with_type addr AvtAddressConnection.file AvtProtocolType.file_protocol)
    else if strcmp transport (codes "fd")
    then done (with_type addr AvtAddressConnection.fd_address AvtProtocolType.file_protocol)
    else if strcmp transport (codes "socket")
    then done (with_type addr AvtAddressConnection.unix AvtProtocolType.stream_protocol)
    else fail einval

unfoldable pub set_mode : AvtAddress → Option (List ℕ) → Outcome AvtAddress
set_mode addr none = done addr
set_mode addr (some mode) =
    if strcmp mode (codes "passive")
    then done (record addr { mode = AvtProtocolMode.passive })
    else if strcmp mode (codes "active")
    then done (record addr { mode = AvtProtocolMode.active })
    else if strcmp mode (codes "default")
    then done (record addr { mode = AvtProtocolMode.default })
    else fail einval

-- The transport and the mode before the `@`. Without a transport there NULL is compared.
unfoldable pub set_transport_mode : AvtAddress → Option (List ℕ) → Outcome AvtAddress
unfolding strtok set_transport set_mode
set_transport_mode addr tm = do
  text ← deref tm
  let (transport, saved) = strtok (codes ":") text
  name ← deref transport
  addr' ← set_transport addr name
  set_mode addr' (strtok (codes ":") saved).0

-- What follows `avt://`: the address, and the string behind the `@` or, without one, all of it.
unfoldable pub native_uri : AvtAddress → List ℕ → Outcome (AvtAddress × Option (List ℕ))
unfolding set_transport_mode strtok
native_uri addr next =
    let (tm, saved) = strtok (codes "@") next in
    elim ((strtok (codes "@") saved).0) [
      | none ↦ done (with_proto addr AvtProtocolType.udp, tm)
      | some behind ↦ set_transport_mode addr tm >>= λ addr'. done (addr', some behind)
    ]

unfoldable pub parse_scheme : AvtAddress → List ℕ → Outcome (AvtAddress × Option (List ℕ))
unfolding other_scheme native_uri
parse_scheme addr url = elim (strip (codes "avt://") url) [
  | some next ↦ native_uri addr next
  | none ↦ other_scheme addr url >>= λ (addr', next). done (addr', some next)
]

unfoldable pub parse_file : System → AvtAddress → List ℕ → Outcome AvtAddress
parse_file sys addr next =
    allocated (strdup sys next) >>= λ path. done (record addr { path = some path })

-- The last `#` below the index that is not the first character and has no backslash before it.
unfoldable pub last_mark : List ℕ → ℕ → Option ℕ
last_mark next zero = none
last_mark next (suc i) =
    let before = last_mark next i in
    if get_or next i 0 == b'#' && ltb 0 i && not (get_or next (i - 1) 0 == b'\\')
    then some i
    else before

unfoldable pub parse_path : System → AvtAddress → List ℕ → Outcome AvtAddress
parse_path sys addr [] = fail einval
parse_path sys addr (c ∷ location) =
    allocated (strdup sys (c ∷ location)) >>= λ path. done (record addr { path = some path })

unfoldable pub parse_unix : System → AvtAddress → List ℕ → Outcome AvtAddress
unfolding last_mark parse_path parse_settings
parse_unix sys addr next = elim (last_mark next (length next)) [
  | none ↦ parse_path sys addr next
  | some i ↦
      parse_path sys addr (take i next) >>= λ addr'. parse_settings sys addr' (some (drop i next))
]

unfoldable pub check_fd : AvtAddress → ℤ → Outcome AvtAddress
check_fd addr (pos zero) = fail einval
check_fd addr (negsuc n) = fail erange
check_fd addr (pos (suc n)) =
    if ltb (2 ^ 31 - 1) (suc n) then fail erange else done (record addr { fd = pos (suc n) })

unfoldable pub parse_fd : AvtAddress → List ℕ → Outcome AvtAddress
unfolding strtol check_fd
parse_fd addr next = elim (strtol next) [ none ↦ fail einval | some res ↦ check_fd addr res ]

-- The host, and the settings behind the slash.
unfoldable pub parse_network : System → AvtAddress → List ℕ → Bool → Outcome AvtAddress
unfolding strtok parse_host_addr parse_settings
parse_network sys addr next listen = do
  let (host, saved) = strtok (codes "/") next
  name ← deref host
  addr' ← parse_host_addr sys addr name listen
  parse_settings sys addr' (strtok (codes "/") saved).0

unfoldable pub parse_location :
    System → AvtAddressConnection → AvtAddress → List ℕ → Bool → Outcome AvtAddress
unfolding parse_file parse_unix parse_fd parse_network
parse_location sys AvtAddressConnection.file addr next listen = parse_file sys addr next
parse_location sys AvtAddressConnection.unix addr next listen = parse_unix sys addr next
parse_location sys AvtAddressConnection.fd_address addr next listen = parse_fd addr next
parse_location sys _ addr next listen = parse_network sys addr next listen

-- Where nothing follows `avt://`, strtok_r is given NULL and has nothing left, and NULL is the host.
unfoldable pub avt_addr_from_url : System → Bool → List ℕ → Outcome AvtAddress
unfolding parse_scheme parse_location
avt_addr_from_url sys listen path = do
  url ← allocated (strdup sys path)
  (addr, next) ← parse_scheme (initial listen) url
  text ← deref next
  parse_location sys addr.type addr text listen
