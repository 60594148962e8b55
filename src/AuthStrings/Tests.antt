-- ===== src/AuthStrings/Tests.antt =====
-- The theorems on names and salts at concrete inputs, and runs of the code.
use cx_framework.Base.{◌≡◌, refl, ◌↔◌, some, [], ◌∷◌, Bytes, All, codes, length, arith}
use cx_framework.AuthStrings.{
  write, to_hex, to_url_encoded, from_url_encoded, calc_expanded_string_size, str_to_hex,
}
use cx_framework.AuthStrings.PathSafety.{IsPathSafe, to_url_encoded-IsPathSafe}
use cx_framework.AuthStrings.RoundTrip.{IsAscii, to_url_encoded_round_trip}

abbrev name : Bytes
name = codes "../a b"

abbrev salt : Bytes
salt = 0xde ∷ 0xad ∷ 0x00 ∷ 0x7f ∷ []

name_escaped : to_url_encoded name ≡ some (codes "%2E%2E%2Fa%20b")
unfolding to_url_encoded write to_hex
name_escaped = refl

-- 0xE9 and 0x09 are written alike.
high_byte : to_url_encoded (0xe9 ∷ []) ≡ to_url_encoded (0x09 ∷ [])
unfolding to_url_encoded write to_hex
high_byte = refl

salt_text : str_to_hex salt ≡ codes "DEAD007F"
unfolding str_to_hex
salt_text = refl

to_url_encoded_round_trip_example :
    (out : Bytes) × (to_url_encoded name ≡ some out)
    × ((from_url_encoded out ≡ name) ↔ All IsAscii name)
to_url_encoded_round_trip_example = to_url_encoded_round_trip name (omega arith)

to_url_encoded-IsPathSafe_example :
    (out : Bytes) × (to_url_encoded name ≡ some out)
    × (length out ≡ calc_expanded_string_size name)
    × All IsPathSafe out
to_url_encoded-IsPathSafe_example = to_url_encoded-IsPathSafe name (omega arith)
