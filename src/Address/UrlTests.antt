-- ===== src/Address/UrlTests.antt =====
-- URLs at concrete inputs.
use qproto.Common.{
  ℕ, ◌-◌, ◌^◌, ◌≡◌, refl, arith, true, false, List, [], ◌∷◌, ◌++◌, none, some, einval, erange,
  length, ltb, ◌==◌, if◌then◌else◌,
}
use qproto.Common.Int.{pos}
use qproto.Strings.{codes, strcmp, strtok, tokens, strtoul}
use qproto.Strings.Numbers.{print}
use qproto.Address.{avt_addr_4to6}
use qproto.Address.Uuid.{print_from, AllBytes}
use qproto.Address.Types.{
  AddressOptions, AvtProtocolMode, System, fault, fail, done, parsed, unparsed,
}
use qproto.Address.Settings.{parse_default_streams, parse_settings}
use qproto.Address.Settings.Streams.{entries, AreStreams, AreRead, parse_default_streams-AreStreams}
use qproto.Address.Settings.Printed.{print_settings, parse_settings-print}
use qproto.Address.Settings.Allowed.{Setting, rx, streams, cert, AllAllowed, apply_all}
use qproto.Address.Settings.Plain.{AllPlainPaths, slash_at}
use qproto.Address.Url.{initial, avt_addr_from_url}
use qproto.Address.Url.Network.{print_location, avt_addr_from_url-print}
use qproto.Address.Url.Prefix.{in_mode, udp, print_prefix, proto_of, mode_of}
use qproto.Address.Url.Files.{fd_file, unix_socket, avt_addr_from_url-fd, avt_addr_from_url-socket}

-- A system that knows one address.
abbrev one_host : System
one_host = record {
  has_memory = λ n. true;
  pton4 = λ h. if strcmp h (codes "10.0.0.1") then parsed 16777226 else unparsed;
  pton6 = λ h. unparsed;
  lookup_host = λ h p i. none;
  interface_index = λ s. 0;
  start_of = λ s. none;
}

abbrev id_bytes : List ℕ
id_bytes = 18 ∷ 52 ∷ 86 ∷ 120 ∷ 154 ∷ 188 ∷ 222 ∷ 240 ∷ 0 ∷ 255 ∷ 1 ∷ 2 ∷ 3 ∷ 4 ∷ 5 ∷ 6 ∷ []

id_bytes-AllBytes : AllBytes id_bytes
id_bytes-AllBytes = search (arith) depth 40

abbrev two : List Setting
two = streams 7 (300 ∷ []) ∷ cert (codes "key.pem") ∷ []

two-AllAllowed : AllAllowed one_host (initial true).opts (rx 65536 ∷ two)
two-AllAllowed = (
  omega arith,
  (
    (
      refl,
      refl,
      (omega arith, (λ e. absurd (omega (arith, e)), tt), (omega arith, tt, tt)),
      omega arith,
    ),
    ((refl, search (tt), search (tt)), tt),
  ),
)

two-AllPlainPaths : AllPlainPaths slash_at (rx 65536 ∷ two)
two-AllPlainPaths = search (tt)

avt_addr_from_url-print_example :
    avt_addr_from_url one_host true (
      print_prefix (in_mode udp AvtProtocolMode.active) (
        print_location
          (codes "10.0.0.1")
          9999
          (print_from 0 id_bytes ++ print_settings (rx 65536 ∷ two))))
    ≡ done (record (initial true) {
      proto = proto_of (in_mode udp AvtProtocolMode.active);
      mode = mode_of (in_mode udp AvtProtocolMode.active);
      port = 9999;
      ip = avt_addr_4to6 16777226;
      uuid = id_bytes;
      opts = apply_all (initial true).opts (rx 65536 ∷ two);
    })
avt_addr_from_url-print_example =
    avt_addr_from_url-print one_host true (in_mode udp AvtProtocolMode.active) (codes "10.0.0.1")
      9999 16777226 id_bytes (rx 65536) two (λ n. refl) (search (tt)) (omega arith) (omega arith)
      refl refl id_bytes-AllBytes two-AllAllowed two-AllPlainPaths

parse_settings-print_example :
    (parse_settings one_host
        (initial true)
        (some (print_from 0 id_bytes ++ print_settings (rx 65536 ∷ two)))
      ≡ done (record (initial true) {
        uuid = id_bytes;
        opts = apply_all (initial true).opts (rx 65536 ∷ two);
      }))
    × (parse_settings one_host (initial true) (some (print_settings (rx 65536 ∷ two)))
        ≡ done (record (initial true) { opts = apply_all (initial true).opts (rx 65536 ∷ two) }))
parse_settings-print_example =
    parse_settings-print one_host (initial true) id_bytes (rx 65536) two refl id_bytes-AllBytes
      two-AllAllowed

-- The options after two streams.
abbrev listed : AddressOptions
listed = record (initial true).opts { default_sid = some (7 ∷ 300 ∷ []); nb_default_sid = 2 }

reads : parse_default_streams one_host (initial true).opts (codes "7,300") ≡ done listed
unfolding parse_default_streams tokens strtoul
reads = refl

parse_default_streams-AreStreams_example :
    AreRead (tokens (codes ",") (codes "7,300")) (entries listed.default_sid)
    × AreStreams (entries listed.default_sid)
    × (listed.nb_default_sid ≡ length (entries listed.default_sid))
parse_default_streams-AreStreams_example =
    parse_default_streams-AreStreams one_host (initial true).opts (codes "7,300") refl reads

-- A second list is compared with what the count of the first still covers, and an array of zeros.
stale : parse_default_streams one_host listed (codes "0") ≡ fail einval
unfolding parse_default_streams tokens strtoul
stale = refl

-- Nothing behind the scheme, and an address that is no address.
refused :
    (avt_addr_from_url one_host true (codes "avt://") ≡ fault)
    × (avt_addr_from_url one_host true (codes "http://10.0.0.1") ≡ fail einval)
    × (avt_addr_from_url one_host true (codes "udp://10.0.0.1:65536") ≡ fail erange)
    × (avt_addr_from_url one_host true (codes "udp://10.0.0.1/#") ≡ fault)
unfolding avt_addr_from_url strtok tokens strtoul
refused = (refl, refl, refl, refl)

avt_addr_from_url-fd_example : avt_addr_from_url one_host true (codes "fd://" ++ print 5) ≡ (
    if ◌==◌ 5 0
    then fail einval
    else if ltb (2 ^ 31 - 1) 5
    then fail erange
    else done (record (fd_file true) { fd = pos 5 }))
avt_addr_from_url-fd_example = avt_addr_from_url-fd one_host true 5 (omega arith) refl

avt_addr_from_url-socket_example :
    avt_addr_from_url one_host false
      (codes "socket://" ++ (codes "/run/a" ++ (b'b' ∷ b'#' ∷ codes "rx_buf=5")))
    ≡ parse_settings one_host
        (record (unix_socket false) { path = some (codes "/run/a" ++ (b'b' ∷ [])) })
        (some (b'#' ∷ codes "rx_buf=5"))
avt_addr_from_url-socket_example =
    avt_addr_from_url-socket one_host false (codes "/run/a") b'b' (codes "rx_buf=5") (λ n. refl)
      (λ e. absurd (omega arith)) (search (tt))
