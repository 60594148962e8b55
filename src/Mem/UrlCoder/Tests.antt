-- ===== src/Mem/UrlCoder/Tests.antt =====
-- A text of three bytes, one of which is no letter, coded and decoded.
use cx_framework.Base.{◌≡◌, refl, some, List, [], ◌∷◌, Bytes, arith}
use cx_framework.Mem.Chunks.Content.{joined}
use cx_framework.Mem.UrlCoder.{
  Status, ready, encode, decode, get_plain_bytes_size, after, is_hex_byte, hex2uchar,
}
use cx_framework.Mem.UrlCoder.Encoded.{keep_all}
use cx_framework.Mem.UrlCoder.RoundTrip.{decode_parts, decode_parts-encode}

abbrev sent : Bytes
sent = b'a' ∷ b'/' ∷ b'z' ∷ []

decode_parts-encode_example :
    (text : Bytes) × ((st : Status) × (encode keep_all [] sent ≡ some (text, st)))
    × ((parts : List Bytes)
        → joined parts ≡ text
        → decode_parts parts ready [] ≡ some (ready, sent))
decode_parts-encode_example =
    decode_parts-encode sent (omega arith, (omega arith, (omega arith, tt))) (omega arith)

-- The escape arrives in two parts.
in_two_parts :
    decode_parts ((b'a' ∷ b'%' ∷ b'2' ∷ []) ∷ (b'F' ∷ b'z' ∷ []) ∷ []) ready [] ≡ some (ready, sent)
unfolding decode_parts decode get_plain_bytes_size after is_hex_byte hex2uchar
in_two_parts = refl
