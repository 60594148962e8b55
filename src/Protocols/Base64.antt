-- ===== src/Protocols/Base64.antt =====
-- cxProtocols/libcx_protocols_http/src/helpers/base64std.cpp: `b64Encode` and `b64Decode`. The
-- masks and shifts of single bytes are written as quotients and remainders; `cont3` and `cont4` are
-- the lists of the bytes that are in use, and `x` is their length.
pub mod Groups
pub mod RoundTrip
mod Tests
use cx_framework.Base.{
  ℕ, zero, suc, ◌+◌, ◌-◌, ◌*◌, ◌/◌, ◌%◌, ◌^◌, ltb, Option, none, some, Bool, true, false, not, ◌&&◌,
  ◌||◌, List, [], ◌∷◌, ◌++◌, Bytes, map, codes, leb, ◌==◌, if◌then◌else◌, length, get_or, take,
  replicate,
}

abbrev pub b64_chars : Bytes
b64_chars = codes "ABCDEFGHIJKLMNOPQRSTUVWXYZabcdefghijklmnopqrstuvwxyz0123456789+/"

-- `b64Chars[i]`.
pub char_of : ℕ → ℕ
char_of i = get_or b64_chars i 0

-- `str.find(c)` from position `i`; `none` is `npos`.
find_from : Bytes → ℕ → ℕ → ℕ
find_from [] i c = 255
find_from (d ∷ str) i c = if d == c then i else find_from str (i + 1) c

-- `(unsigned char) b64Chars.find(c)`: `npos` becomes 255.
pub index_of : ℕ → ℕ
unfolding find_from
index_of c = find_from b64_chars 0 c

-- The four indices of three bytes.
abbrev pub quad : Bytes → Bytes
quad cont3 =
    let c₀ = get_or cont3 0 0 in
    let c₁ = get_or cont3 1 0 in
    let c₂ = get_or cont3 2 0 in
    (c₀ / 4) ∷ (c₀ % 4 * 16 + c₁ / 16) ∷ (c₁ % 16 * 4 + c₂ / 64) ∷ (c₂ % 64) ∷ []

-- One round of the loop of `b64Encode`: the bytes in hand, and the text so far.
pub encode_step : Bytes → Bytes → ℕ → Bytes × Bytes
encode_step cont3 encoded c =
    let full = cont3 ++ c ∷ [] in
    if length full == 3 then ([], encoded ++ map char_of (quad full)) else (full, encoded)

-- What stands behind the loop: the bytes left over, padded with zeros, and the `=` signs.
pub encode_end : Bytes → Bytes → Bytes
encode_end cont3 encoded =
    let x = length cont3 in
    if x == 0
    then encoded
    else encoded
      ++ (take (x + 1) (map char_of (quad (cont3 ++ replicate (3 - x) 0)))
          ++ replicate (3 - x) b'=')

pub encode_loop : Bytes → Bytes → Bytes → Bytes
encode_loop cont3 encoded [] = encode_end cont3 encoded
encode_loop cont3 encoded (c ∷ buf) =
    let (cont3', encoded') = encode_step cont3 encoded c in encode_loop cont3' encoded' buf

-- The number of bytes is passed in 32 bits.
pub b64_encode : Bytes → Bytes
unfolding encode_loop encode_step encode_end char_of
b64_encode buf = encode_loop [] [] (take (length buf % 2 ^ 32) buf)

-- `isalnum`, in the C locale.
abbrev is_alnum : ℕ → Bool
is_alnum c = leb b'0' c && leb c b'9' || leb b'A' c && leb c b'Z' || leb b'a' c && leb c b'z'

-- The three bytes of four indices, each cut to a byte.
abbrev pub triple : Bytes → Bytes
triple cont4 =
    let c₀ = get_or cont4 0 0 in
    let c₁ = get_or cont4 1 0 in
    let c₂ = get_or cont4 2 0 in
    let c₃ = get_or cont4 3 0 in
    ((c₀ * 4 + c₁ / 16 % 4) % 256)
    ∷ ((c₁ % 16 * 16 + c₂ / 4 % 16) % 256)
    ∷ ((c₂ % 4 * 64 + c₃) % 256)
    ∷ []

pub decode_step : Bytes → Bytes → ℕ → Bytes × Bytes
decode_step cont4 decoded c =
    let full = cont4 ++ c ∷ [] in
    if length full == 4 then ([], decoded ++ triple (map index_of full)) else (full, decoded)

pub decode_end : Bytes → Bytes → Bytes
decode_end cont4 decoded =
    let x = length cont4 in
    if x == 0
    then decoded
    else decoded ++ take (x - 1) (triple (map index_of (cont4 ++ replicate (4 - x) 0)))

-- The loop's condition on a character.
pub goes_on : ℕ → Bool
goes_on c = not (c == b'=') && (is_alnum c || c == b'/' || c == b'+')

pub decode_loop : Bytes → Bytes → Bytes → Bytes
decode_loop cont4 decoded [] = decode_end cont4 decoded
decode_loop cont4 decoded (c ∷ buf) = elim (goes_on c) [
  | true ↦ let (cont4', decoded') = decode_step cont4 decoded c in decode_loop cont4' decoded' buf
  | false ↦ decode_end cont4 decoded
]

-- The position is an `int`: from 2^31 characters on it may overflow, upon which nothing is said.
pub b64_decode : Bytes → Option Bytes
unfolding decode_loop decode_step decode_end goes_on index_of
b64_decode buf = if ltb (length buf) (2 ^ 31) then some (decode_loop [] [] buf) else none
