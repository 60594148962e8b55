-- ===== src/Mem/UrlCoder/RoundTrip.antt =====
-- Decoding what was encoded, in whatever parts it arrives.
use cx_framework.Base.{
  on_true, on_false, ℕ, ◌-◌, ◌/◌, ◌%◌, ◌^◌, ◌≤◌, ◌<◌, Bool, true, false, not, ◌&&◌, ◌||◌, ◌≡◌, refl,
  sym, ap, ◌∙◌, inl, inr, Option, some, ◌>>=◌, List, [], ◌∷◌, ◌++◌, append_assoc, append-nil, Bytes,
  length, All, IsByte, ltb, ◌==◌, holds_below, holds_below_at, arith, Bool-cases,
}
use cx_framework.Mem.Chunks.Content.{joined}
use cx_framework.Mem.UrlCoder.{
  Status, fresh, should_encode_this_byte, hex_digit, encoded_byte, is_hex_byte, hex2uchar, Decoder,
  ready, encode, decode,
}
use cx_framework.Mem.UrlCoder.Encoded.{
  keep_all, escape, escapes, escape_encoded, escape_plain, encode_loop_lem,
}
use cx_framework.Mem.UrlCoder.Decoded.{
  is_percent, decode_byte, decode_bytes, decode_bytes-append, plain_byte, decode_loop-Comes,
}

-- The digits of a byte are read as the byte, and `%` is never plain.
abbrev is_read_back : ℕ → Bool
is_read_back b =
    is_hex_byte (hex_digit (b / 16))
    && (hex2uchar (hex_digit (b / 16)) (hex_digit (b % 16)) == b)
    && (should_encode_this_byte b || not (is_percent b))

byte_table : holds_below 256 is_read_back ≡ true
unfolding holds_below is_hex_byte hex_digit hex2uchar should_encode_this_byte
byte_table = refl

read_back : (b : ℕ) → b < 256 → is_read_back b ≡ true
read_back b h = holds_below_at 256 is_read_back b byte_table h

digit_IsHex : (b : ℕ) → b < 256 → is_hex_byte (hex_digit (b / 16)) ≡ true
digit_IsHex b h = ground (arith, read_back b h)

hex2uchar-digits : (b : ℕ) → b < 256 → hex2uchar (hex_digit (b / 16)) (hex_digit (b % 16)) ≡ b
hex2uchar-digits b h = ground (arith, read_back b h)

plain_is_no_percent : (b : ℕ) → b < 256 → should_encode_this_byte b ≡ false → is_percent b ≡ false
plain_is_no_percent b h plain = ground (arith, read_back b h, plain)

decode_bytes-escape :
    (out : Bytes) (b : ℕ) → b < 256 → decode_bytes (ready, out) (escape b) ≡ (ready, out ++ b ∷ [])
unfolding decode_bytes
decode_bytes-escape out b h = elim (Bool-cases (should_encode_this_byte b)) [
  | inl encoded ↦ rw (escape_encoded b encoded) (
      unfold encoded_byte decode_byte in
      (ap (λ (t : Bytes). (ready, t ++ hex2uchar (hex_digit (b / 16)) (hex_digit (b % 16)) ∷ []))
          (on_true (is_hex_byte (hex_digit (b / 16))) _ _ (digit_IsHex b h))
        ∙ ap (λ (x : ℕ). (ready, out ++ x ∷ [])) (hex2uchar-digits b h)))
  | inr plain ↦ rw (escape_plain b plain) (plain_byte out b (plain_is_no_percent b h plain))
]

decode_bytes-escapes :
    (out buf : Bytes)
    → All IsByte buf
    → decode_bytes (ready, out) (escapes buf) ≡ (ready, out ++ buf)
unfolding decode_bytes escapes
decode_bytes-escapes out [] fits = ap (λ (t : Bytes). (ready, t)) (sym (append-nil out))
decode_bytes-escapes out (b ∷ buf) (h, fits) =
    decode_bytes-append (ready, out) (escape b) (escapes buf)
    ∙ ap (λ (state : Decoder × Bytes). decode_bytes state (escapes buf))
        (decode_bytes-escape out b h)
    ∙ decode_bytes-escapes (out ++ b ∷ []) buf fits
    ∙ ap (λ (t : Bytes). (ready, t)) (append_assoc out (b ∷ []) buf)

-- The decoder is called for each of the parts, as they arrive.
unfoldable pub decode_parts : List Bytes → Decoder → Bytes → Option (Decoder × Bytes)
decode_parts [] d out = some (d, out)
decode_parts (part ∷ parts) d out =
    decode keep_all d out part >>= λ call. decode_parts parts (call.0) (call.1)

decode_parts_lem :
    (parts : List Bytes) (d : Decoder) (out : Bytes)
    → decode_parts parts d out ≡ some (decode_bytes (d, out) (joined parts))
unfolding decode_parts joined
decode_parts_lem [] d out = unfold decode_bytes in refl
decode_parts_lem (part ∷ parts) d out =
    let (st, _, e) = decode_loop-Comes (length part) d out fresh part refl (omega arith) in
    let state = decode_bytes (d, out) part in
    let call : decode keep_all d out part ≡ some (state.0, state.1, st) = unfold decode in e in
    rw call (
      decode_parts_lem parts (state.0) (state.1)
      ∙ ap (λ (z : Decoder × Bytes). some z)
          (sym (decode_bytes-append (d, out) part (joined parts))))

-- A buffer whose size the encoder accepts is written to a stream that takes all of it as a text that the
-- decoder, called from its first state for any parts that make up that text, writes as the same
-- buffer, with nothing kept.
pub decode_parts-encode :
    (buf : Bytes)
    → All IsByte buf
    → length buf ≤ (2 ^ 64 - 1) / 3 - 3
    → (text : Bytes) × ((st : Status) × (encode keep_all [] buf ≡ some (text, st)))
      × ((parts : List Bytes)
          → joined parts ≡ text
          → decode_parts parts ready [] ≡ some (ready, buf))
decode_parts-encode buf fits small =
    let (st, e) = encode_loop_lem (length buf) [] fresh buf refl (omega arith) in
    let fine : ltb ((2 ^ 64 - 1) / 3 - 3) (length buf) ≡ false = ground arith in
    (
      escapes buf,
      (st, unfold encode in (on_false (ltb ((2 ^ 64 - 1) / 3 - 3) (length buf)) _ _ fine ∙ e)),
      λ parts whole.
          decode_parts_lem parts ready []
          ∙ ap (λ (t : Bytes). some (decode_bytes (ready, []) t)) whole
          ∙ ap (λ (z : Decoder × Bytes). some z) (decode_bytes-escapes [] buf fits),
    )
