-- ===== src/Protocol/Kinds.antt =====
-- Every address that a URL gives has an input and output and a protocol.
use qproto.Common.{ℕ, ◌≡◌, refl, ◌≢◌, Bool, true, false, List, none}
use qproto.Address.Types.{AvtAddress, AvtAddressConnection, AvtProtocolType, System, done}
use qproto.Address.Url.{avt_addr_from_url}
use qproto.Address.Url.Kind.{avt_addr_from_url-HasKind}
use qproto.Address.Url.Kept.{has_kind}
use qproto.Io.{is_invalid, map_addr_to_io}
use qproto.Protocol.{avt_protocol_list}

abbrev IsServed : AvtAddressConnection → AvtProtocolType → Type 0
IsServed type proto =
    (is_invalid (map_addr_to_io type proto) ≡ false) × (avt_protocol_list true proto ≢ none)

kind-IsServed :
    (type : AvtAddressConnection) (proto : AvtProtocolType)
    → has_kind type proto ≡ true
    → IsServed type proto
unfolding map_addr_to_io avt_protocol_list
kind-IsServed AvtAddressConnection.url_address AvtProtocolType.udp h = (refl, λ e. cc)
kind-IsServed AvtAddressConnection.url_address AvtProtocolType.udp_lite h = (refl, λ e. cc)
kind-IsServed AvtAddressConnection.url_address AvtProtocolType.quic h = (refl, λ e. cc)
kind-IsServed AvtAddressConnection.file AvtProtocolType.file_protocol h = (refl, λ e. cc)
kind-IsServed AvtAddressConnection.fd_address AvtProtocolType.file_protocol h = (refl, λ e. cc)
kind-IsServed AvtAddressConnection.unix AvtProtocolType.stream_protocol h = (refl, λ e. cc)
kind-IsServed _ _ h = cc

-- With OpenSSL, whatever the URL is: for an address that is made of it there is a type of input and
-- output and there is a protocol, so that avt_io_init and avt_protocol_init do not refuse it.
pub avt_addr_from_url-IsServed :
    (sys : System) (listen : Bool) (path : List ℕ) {addr : AvtAddress}
    → avt_addr_from_url sys listen path ≡ done addr
    → (is_invalid (map_addr_to_io addr.type addr.proto) ≡ false)
      × (avt_protocol_list true addr.proto ≢ none)
avt_addr_from_url-IsServed sys listen path {addr} e =
    kind-IsServed addr.type addr.proto (avt_addr_from_url-HasKind sys listen path e)
