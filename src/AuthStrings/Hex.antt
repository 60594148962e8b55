-- ===== src/AuthStrings/Hex.antt =====
-- The hexadecimal form of the salt of a password, written to and read from its record.
use cx_framework.Base.{
  ℕ, Bool, ◌≡◌, refl, ap₂, true, [], ◌∷◌, Bytes, All, IsByte, length, ◌==◌, ==_iff, holds_below,
  holds_below_at, arith,
}
use cx_framework.AuthStrings.{hex_byte, hex_to_value, escaped_value, str_to_hex, str_from_hex}

abbrev hex_is_read : ℕ → Bool
hex_is_read b = escaped_value (hex_byte b).0 (hex_byte b).1 == b

hex_table : holds_below 256 hex_is_read ≡ true
unfolding holds_below hex_byte hex_to_value
hex_table = refl

-- Reading the text of `strToHex` fills a buffer of as many bytes with the bytes that were written,
-- whatever the buffer held.
pub str_from_hex-str_to_hex :
    (bytes buffer : Bytes)
    → All IsByte bytes
    → length buffer ≡ length bytes
    → str_from_hex (str_to_hex bytes) buffer ≡ bytes
unfolding str_from_hex str_to_hex
str_from_hex-str_to_hex [] [] h e = refl
str_from_hex-str_to_hex [] (d ∷ buffer) h e = absurd (omega arith)
str_from_hex-str_to_hex (b ∷ bytes) [] h e = absurd (omega arith)
str_from_hex-str_to_hex (b ∷ bytes) (d ∷ buffer) h e =
    ap₂ ◌∷◌ ((==_iff _ b).0 (holds_below_at 256 hex_is_read b hex_table h.0))
      (str_from_hex-str_to_hex bytes buffer h.1 (omega arith))
