-- ===== src/Io.antt =====
-- libavtransport/io_common.c and io_common.h: which input and output an address has, and the search for
-- one that opens. The interface AVTIO is a record over the context that an implementation keeps.
pub mod Search
pub mod Null
use qproto.Common.{
  Bool, true, false, if◌then◌else◌, ℕ, zero, suc, List, [], ◌∷◌, Option, none, some, Result, ok,
  err, Err, enomem, einval, eagain, ebusy, enoent, erange, enotsup,
}
use qproto.Common.Int.{ℤ, pos, negate}
use qproto.Fifo.{AvtPktd}
use qproto.Address.Types.{AvtAddress, AvtAddressConnection, AvtProtocolType}

pub data AvtIoType : Type 0 where
  null_io file_io fd_io unix_io udp_io udp_lite_io callback_io invalid : AvtIoType

abbrev pub is_invalid : AvtIoType → Bool
is_invalid invalid = true
is_invalid _ = false

unfoldable pub map_addr_to_io : AvtAddressConnection → AvtProtocolType → AvtIoType
map_addr_to_io AvtAddressConnection.null_address proto = null_io
map_addr_to_io AvtAddressConnection.file proto = file_io
map_addr_to_io AvtAddressConnection.fd_address proto = fd_io
map_addr_to_io AvtAddressConnection.callback proto = callback_io
map_addr_to_io AvtAddressConnection.unix proto = unix_io
map_addr_to_io _ AvtProtocolType.udp = udp_io
map_addr_to_io _ AvtProtocolType.quic = udp_io
map_addr_to_io _ AvtProtocolType.udp_lite = udp_lite_io
map_addr_to_io _ _ = invalid

-- The implementations, and those of a type in order of preference (not on Windows).
pub data Backend : Type 0 where
  avt_io_null avt_io_dcb avt_io_mmap_path avt_io_fd_path avt_io_file avt_io_mmap avt_io_fd : Backend
  avt_io_udp avt_io_unix avt_io_udp_lite : Backend

unfoldable pub avt_io_list : AvtIoType → List Backend
avt_io_list null_io = avt_io_null ∷ []
avt_io_list callback_io = avt_io_dcb ∷ []
avt_io_list file_io = avt_io_mmap_path ∷ avt_io_fd_path ∷ avt_io_file ∷ []
avt_io_list fd_io = avt_io_mmap ∷ avt_io_fd ∷ []
avt_io_list udp_io = avt_io_udp ∷ []
avt_io_list unix_io = avt_io_unix ∷ []
avt_io_list udp_lite_io = avt_io_udp_lite ∷ []
avt_io_list invalid = []

-- The loop over the list. Its pointer stays where it is when an implementation does not open, so that
-- the next round has the same list. `init` is what the initialization answers the first time, the
-- second, and so on; `none` is a loop that is not over after so many rounds.
unfoldable pub init_rounds :
    (ℕ → Backend → Result ℕ) → ℕ → ℕ → List Backend → Option (Result (Backend × ℕ))
init_rounds init zero i list = none
init_rounds init (suc n) i [] = some (err einval)
init_rounds init (suc n) i (io ∷ list) =
    let again = init_rounds init n (suc i) (io ∷ list) in
    elim (init i io) [
      | ok ctx ↦ some (ok (io, ctx))
      | err enomem ↦ some (err enomem)
      | err e ↦ again
    ]

unfoldable pub avt_io_init :
    (ℕ → Backend → Result ℕ) → ℕ → AvtAddress → Option (Result (Backend × ℕ))
unfolding init_rounds avt_io_list
avt_io_init init n addr =
    let type = map_addr_to_io addr.type addr.proto in
    if is_invalid type then some (err einval) else init_rounds init n 0 (avt_io_list type)

-- AVT_ERROR, with the numbers of Linux.
abbrev pub errno : Err → ℕ
errno enomem = 12
errno einval = 22
errno eagain = 11
errno ebusy = 16
errno enoent = 2
errno erange = 34
errno enotsup = 95

abbrev pub avt_error : Err → ℤ
avt_error e = negate (errno e)

-- The members that the protocols call. A result below 0 is an error. A member that may be NULL is an
-- option, and the time to wait is left out, since no code here looks at it.
pub record AvtIo (Ctx : Type 0) : Type 0 where
  pub get_max_pkt_len : Ctx → ℤ × ℕ
  pub add_dst : Option (Ctx → AvtAddress → ℤ × Ctx)
  pub del_dst : Option (Ctx → AvtAddress → ℤ × Ctx)
  pub write_vec : Ctx → List AvtPktd → ℤ × Ctx
  pub write_pkt : Ctx → AvtPktd → ℤ × Ctx
  pub rewrite : Ctx → AvtPktd → ℤ → ℤ × Ctx
  pub seek : Option (Ctx → ℤ → ℤ × Ctx)
  pub flush : Option (Ctx → ℤ × Ctx)
