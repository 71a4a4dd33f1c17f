-- ===== src/Address/Tests.antt =====
-- UUIDs at concrete inputs.
use qproto.Common.{ℕ, ◌≡◌, refl, arith, List, [], ◌∷◌, ok, err, einval, replicate}
use qproto.Address.{parse_pair, skip_dash, avt_parse_uuid, avt_addr_4to6}
use qproto.Address.Uuid.{print_from, AllBytes, avt_parse_uuid-print_from}

abbrev bytes : List ℕ
bytes = 18 ∷ 52 ∷ 86 ∷ 120 ∷ 154 ∷ 188 ∷ 222 ∷ 240 ∷ 0 ∷ 255 ∷ 1 ∷ 2 ∷ 3 ∷ 4 ∷ 5 ∷ 6 ∷ []

bytes-AllBytes : AllBytes bytes
bytes-AllBytes = search (arith) depth 40

avt_parse_uuid-print_from_example : avt_parse_uuid (print_from 0 bytes) ≡ ok bytes
avt_parse_uuid-print_from_example = avt_parse_uuid-print_from bytes refl bytes-AllBytes

-- A string of another length, and one that has no digit where it should.
refused : (avt_parse_uuid (48 ∷ []) ≡ err einval) × (avt_parse_uuid (replicate 36 45) ≡ err einval)
unfolding avt_parse_uuid parse_pair skip_dash
refused = (refl, refl)

localhost :
    avt_addr_4to6 16777343
    ≡ 0 ∷ 0 ∷ 0 ∷ 0 ∷ 0 ∷ 0 ∷ 0 ∷ 0 ∷ 0 ∷ 0 ∷ 255 ∷ 255 ∷ 127 ∷ 0 ∷ 0 ∷ 1 ∷ []
unfolding avt_addr_4to6
localhost = refl
