-- ===== src/AuthStrings.antt =====
-- cxAuth/libcx_auth/src/helpers/hlp_auth_strings.cpp: the escaping of account, group and domain names
-- in file names, and the hexadecimal form of salts. A `char` is its byte, 0 to 255; where the code
-- reads its sign (`toHex`) it is the signed `char` of the platforms that the library builds for.
pub mod Encoder
pub mod RoundTrip
pub mod PathSafety
pub mod Hex
mod Tests
use cx_framework.Base.{
  ℕ, suc, ◌+◌, ◌-◌, ◌*◌, ◌/◌, ◌%◌, Bool, true, false, not, ◌&&◌, ◌||◌, List, [], ◌∷◌, Option, none,
  some, ◌>>=◌, ltb, leb, ◌==◌, if◌then◌else◌, Bytes,
}

-- An integer: `negsuc n` is -(n + 1).
pub data ℤ : Type 0 where
  pos : ℕ → ℤ
  negsuc : ℕ → ℤ

-- The value of a signed 8-bit `char`.
abbrev pub signed8 : ℕ → ℤ
signed8 b = if ltb b 128 then pos b else negsuc (255 - b)

-- C's `/`, which rounds towards zero.
abbrev pub div_ℤ : ℤ → ℕ → ℤ
div_ℤ (pos n) d = pos (n / d)
div_ℤ (negsuc n) d = if suc n / d == 0 then pos 0 else negsuc (suc n / d - 1)

pub must_be_encoded : ℕ → Bool
must_be_encoded c =
    if leb b'A' c && leb c b'Z'
    then false
    else if leb b'a' c && leb c b'z'
    then false
    else if leb b'0' c && leb c b'9'
    then false
    else true

pub calc_expanded_string_size : Bytes → ℕ
unfolding must_be_encoded
calc_expanded_string_size [] = 0
calc_expanded_string_size (c ∷ str) =
    (if must_be_encoded c then 3 else 1) + calc_expanded_string_size str

hex_digit : ℤ → ℕ
hex_digit (pos v) =
    if leb v 9 then b'0' + v else if leb 10 v && leb v 15 then b'A' + v - 10 else b'0'
hex_digit (negsuc v) = b'0'

unfoldable pub to_hex : ℕ → ℕ → ℕ
unfolding hex_digit
to_hex value part = hex_digit (
    if part == 1
    then div_ℤ (signed8 value) 16
    else if part == 2
    then pos (value % 16)
    else signed8 value)

pub is_hex_char : ℕ → Bool
is_hex_char v = leb b'0' v && leb v b'9' || leb b'A' v && leb v b'F'

pub hex_to_value : ℕ → ℕ
hex_to_value v =
    if leb b'0' v && leb v b'9'
    then v - b'0'
    else if leb b'A' v && leb v b'F'
    then v - b'A' + 10
    else if leb b'a' v && leb v b'f'
    then v - b'a' + 10
    else 0

-- `out[x] = c` on a string of fixed size; `none` is a write out of bounds.
unfoldable pub write : Bytes → ℕ → ℕ → Option Bytes
write [] x c = none
write (o ∷ out) ℕ.zero c = some (c ∷ out)
write (o ∷ out) (suc x) c = do out' ← write out x c; some (o ∷ out')

-- One round of the loop of `toURLEncoded`, on `out` and `x`.
pub encode_step : Bytes → ℕ → ℕ → Option (Bytes × ℕ)
encode_step out x c =
    if must_be_encoded c
    then (do
      out₁ ← write out x b'%'
      out₂ ← write out₁ (x + 1) (to_hex c 1)
      out₃ ← write out₂ (x + 2) (to_hex c 2)
      some (out₃, x + 3))
    else (do out₁ ← write out x c; some (out₁, x + 1))

pub encode_loop : Bytes → ℕ → Bytes → Option Bytes
unfolding encode_step
encode_loop out x [] = some out
encode_loop out x (c ∷ str) = do (out', x') ← encode_step out x c; encode_loop out' x' str

-- `out.resize(size, ' ')`.
pub blanks : ℕ → Bytes
blanks ℕ.zero = []
blanks (suc n) = b' ' ∷ blanks n

unfoldable pub to_url_encoded : Bytes → Option Bytes
unfolding calc_expanded_string_size encode_loop blanks
to_url_encoded [] = some []
to_url_encoded (c ∷ str) = encode_loop (blanks (calc_expanded_string_size (c ∷ str))) 0 (c ∷ str)

-- One character of the result of `fromURLEncoded` for an escape, as a `char`.
abbrev pub escaped_value : ℕ → ℕ → ℕ
escaped_value a b = (hex_to_value a * 16 + hex_to_value b) % 256

-- The loop of `fromURLEncoded`: an escape is read only where two characters are left behind `%`.
pub from_url_encoded : Bytes → Bytes
unfolding is_hex_char hex_to_value
from_url_encoded [] = []
from_url_encoded (c ∷ []) = c ∷ []
from_url_encoded (c ∷ a ∷ []) = c ∷ a ∷ []
from_url_encoded (c ∷ a ∷ b ∷ str) = elim (c == b'%' && is_hex_char a && is_hex_char b) [
  | true ↦ escaped_value a b ∷ from_url_encoded str
  | false ↦ c ∷ from_url_encoded (a ∷ b ∷ str)
]

-- `sprintf(buf, "%02X", data[x])`.
pub hex_byte : ℕ → ℕ × ℕ
hex_byte b = (digit (b / 16), digit (b % 16))
  where
    digit : ℕ → ℕ
    digit v = if ltb v 10 then b'0' + v else b'A' + (v - 10)

unfoldable pub str_to_hex : Bytes → Bytes
unfolding hex_byte
str_to_hex [] = []
str_to_hex (b ∷ bytes) = let (hi, lo) = hex_byte b in hi ∷ lo ∷ str_to_hex bytes

-- The buffer behind the call: bytes that the text does not reach are left as they were.
pub str_from_hex : Bytes → Bytes → Bytes
unfolding hex_to_value
str_from_hex (h ∷ l ∷ hex) (d ∷ bytes) = escaped_value h l ∷ str_from_hex hex bytes
str_from_hex _ bytes = bytes
