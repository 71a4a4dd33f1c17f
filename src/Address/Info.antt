-- ===== src/Address/Info.antt =====
-- libavtransport/address.c: `avt_addr_from_info`, which makes an address of the description of a
-- connection, and `avt_addr_free`. AVTConnectionInfo is in include/avtransport/connection.h; its type and
-- its union are one data type here, and `bad_type` is a type out of range.
use qproto.Common.{ℕ, Bool, List, [], ◌∷◌, Option, some, einval}
use qproto.Common.Int.{ℤ, negsuc}
use qproto.Address.Types.{
  AvtAddress, AvtAddressConnection, AvtProtocolType, AvtProtocolMode, Callbacks, zeroed, System,
  strdup, Outcome, fail, done, ◌>>=◌, allocated,
}
use qproto.Address.Url.{avt_addr_from_url}

pub record SocketInfo : Type 0 where
  pub socket : ℤ
  pub dst : List ℕ
  pub port : ℕ
  pub protocol : AvtProtocolType
  pub mode : AvtProtocolMode

pub data AvtConnectionInfo : Type 0 where
  null_info bad_type : AvtConnectionInfo
  url_info : List ℕ → Bool → AvtConnectionInfo
  file_info : List ℕ → AvtConnectionInfo
  socket_info : SocketInfo → AvtConnectionInfo
  fd_info unix_info : ℤ → AvtConnectionInfo
  data_info packet_info : Callbacks → AvtConnectionInfo

abbrev pub no_fd : AvtAddress
no_fd = record zeroed { fd = negsuc 0 }

-- An address of a kind.
abbrev pub of_kind : AvtAddressConnection → AvtProtocolType → AvtAddress
of_kind type proto = record no_fd { type = type; proto = proto }

unfoldable pub avt_addr_from_info : System → AvtConnectionInfo → Outcome AvtAddress
unfolding avt_addr_from_url
avt_addr_from_info sys bad_type = fail einval
avt_addr_from_info sys null_info =
    done (of_kind AvtAddressConnection.null_address AvtProtocolType.datagram)
avt_addr_from_info sys (url_info url listen) = avt_addr_from_url sys listen url
avt_addr_from_info sys (file_info path) = allocated (strdup sys path) >>= λ copy.
    done (record (of_kind AvtAddressConnection.file AvtProtocolType.file_protocol) {
      path = some copy;
    })
avt_addr_from_info sys (socket_info s) = done (record no_fd {
  type = AvtAddressConnection.socket;
  fd = s.socket;
  ip = s.dst;
  port = s.port;
  proto = s.protocol;
  mode = s.mode;
})
avt_addr_from_info sys (fd_info fd) =
    done (record (of_kind AvtAddressConnection.file AvtProtocolType.file_protocol) { fd = fd })
avt_addr_from_info sys (unix_info fd) =
    done (record (of_kind AvtAddressConnection.unix AvtProtocolType.stream_protocol) { fd = fd })
avt_addr_from_info sys (data_info cb) =
    done (record (of_kind AvtAddressConnection.callback AvtProtocolType.datagram) { dcb = cb })
avt_addr_from_info sys (packet_info cb) =
    done (record (of_kind AvtAddressConnection.callback AvtProtocolType.callback_pkt) { pcb = cb })

-- The strings that are freed, each once and `none` for NULL, and what is left of the address.
unfoldable pub avt_addr_free : AvtAddress → List (Option (List ℕ)) × AvtAddress
avt_addr_free addr = (
  addr.opts.certfile ∷ addr.opts.keyfile ∷ addr.opts.default_sid ∷ addr.path ∷ addr.interface ∷ [],
  zeroed,
)
