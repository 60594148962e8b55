-- ===== src/AuthStrings/RoundTrip.antt =====
-- What `fromURLEncoded` reads back of what `toURLEncoded` has written.
use cx_framework.Base.{
  ℕ, ◌%◌, ◌<◌, Bool, true, false, ◌&&◌, ◌≡◌, sym, refl, ap, ap₂, ◌∙◌, ◌↔◌, [], ◌∷◌, some, inl, inr,
  map, Bytes, All, ltb, ◌==◌, if◌then◌else◌, Bool-cases, holds_below, holds_below_at, arith, IsByte,
}
use cx_framework.AuthStrings.{
  must_be_encoded, to_hex, is_hex_char, hex_to_value, escaped_value, to_url_encoded,
  from_url_encoded,
}
use cx_framework.AuthStrings.Encoder.{escapes, to_url_encoded-escapes}

-- What an escaped character is read back as: above 127 the high half of the byte is lost.
abbrev pub read_back : ℕ → ℕ
read_back c = if ltb c 128 then c else c % 16

abbrev pub escape_is_read : ℕ → Bool
escape_is_read c =
    is_hex_char (to_hex c 1)
    && is_hex_char (to_hex c 2)
    && escaped_value (to_hex c 1) (to_hex c 2) == read_back c

escape_table : holds_below 256 escape_is_read ≡ true
unfolding holds_below is_hex_char hex_to_value to_hex
escape_table = refl

pub escape-read : (c : ℕ) → IsByte c → escape_is_read c ≡ true
escape-read c h = holds_below_at 256 escape_is_read c escape_table h

from_plain :
    (c : ℕ) (rest : Bytes)
    → must_be_encoded c ≡ false
    → (from_url_encoded (c ∷ rest) ≡ c ∷ from_url_encoded rest) × (read_back c ≡ c)
unfolding from_url_encoded must_be_encoded
from_plain c [] e = (refl, ground arith)
from_plain c (a ∷ []) e = (refl, ground arith)
from_plain c (a ∷ b ∷ rest) e = ground arith

from_escape :
    (c : ℕ) (rest : Bytes)
    → IsByte c
    → from_url_encoded (b'%' ∷ to_hex c 1 ∷ to_hex c 2 ∷ rest) ≡ read_back c ∷ from_url_encoded rest
unfolding from_url_encoded
from_escape c rest h = ground (arith, escape-read c h)

from-escapes : (str : Bytes) → All IsByte str → from_url_encoded (escapes str) ≡ map read_back str
from-escapes [] h = unfold from_url_encoded in refl
from-escapes (c ∷ str) h = elim (Bool-cases (must_be_encoded c)) [
  | inl e ↦ rw e (from_escape c (escapes str) h.0 ∙ ap (◌∷◌ (read_back c)) (from-escapes str h.1))
  | inr e ↦
      let (plain, same) = from_plain c (escapes str) e in
      rw e (plain ∙ ap₂ ◌∷◌ (sym same) (from-escapes str h.1))
]

-- Exactly the strings of 7-bit characters are the same after both.
abbrev pub IsAscii : ℕ → Type 0
IsAscii c = c < 128

read_back-IsAscii : (str : Bytes) → (map read_back str ≡ str) ↔ All IsAscii str
read_back-IsAscii [] = (λ e. tt, λ h. refl)
read_back-IsAscii (c ∷ str) =
    let (go, back) = read_back-IsAscii str in
    (λ e. (ground arith, go (ground arith)), λ h. ap₂ ◌∷◌ (ground arith) (back h.1))

-- `toURLEncoded` never writes outside of the string that it has sized, and `fromURLEncoded` gives
-- the name back exactly when all of its characters are 7-bit ones.
pub to_url_encoded_round_trip :
    (str : Bytes)
    → All IsByte str
    → (out : Bytes) × (to_url_encoded str ≡ some out)
      × ((from_url_encoded out ≡ str) ↔ All IsAscii str)
to_url_encoded_round_trip str h =
    (escapes str, to_url_encoded-escapes str, rw (from-escapes str h) (read_back-IsAscii str))
