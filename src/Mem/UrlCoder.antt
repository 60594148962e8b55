-- ===== src/Mem/UrlCoder.antt =====
-- cxMem/libcx_mem_streamencoders/src: `StreamEncoder_URL` and `StreamDecoder_URL`, over the stream
-- that they write to; `WRStatus` of cxMem/libcx_mem_streams/src/streamableobject.h.
pub mod Encoded
pub mod Decoded
pub mod RoundTrip
mod Tests
use cx_framework.Base.{
  ℕ, zero, suc, ◌+◌, ◌-◌, ◌*◌, ◌/◌, ◌%◌, ◌^◌, Bool, true, false, not, ◌&&◌, ◌||◌, Option, none,
  some, List, [], ◌∷◌, Bytes, length, take, drop, ltb, leb, ◌==◌, if◌then◌else◌,
}

-- `WRStatus`.
pub record Status : Type 0 where
  pub bytes_written : ℕ
  pub succeed : Bool
  pub finish : Bool

abbrev pub fresh : Status
fresh = record { bytes_written = 0; succeed = true; finish = false }

-- `operator+=` of two of them.
pub add : Status → Status → Status
add cur x = record {
  bytes_written = (cur.bytes_written + x.bytes_written) % 2 ^ 64;
  succeed = cur.succeed && x.succeed;
  finish = cur.finish || x.finish;
}

-- `shouldEncodeThisByte`.
pub should_encode_this_byte : ℕ → Bool
should_encode_this_byte byte = not (
    leb b'A' byte && leb byte b'Z'
    || leb b'a' byte && leb byte b'z'
    || leb b'0' byte && leb byte b'9')

-- `getPlainBytesSize` of both coders: the bytes before the first one that `stops`.
pub get_plain_bytes_size : (ℕ → Bool) → Bytes → ℕ
get_plain_bytes_size stops [] = 0
get_plain_bytes_size stops (b ∷ buf) = if stops b then 0 else suc (get_plain_bytes_size stops buf)

-- `snprintf("%%%02X")` of a byte.
pub hex_digit : ℕ → ℕ
hex_digit v = if ltb v 10 then b'0' + v else b'A' + (v - 10)

pub encoded_byte : ℕ → Bytes
unfolding hex_digit
encoded_byte b = b'%' ∷ hex_digit (b / 16) ∷ hex_digit (b % 16) ∷ []

pub is_hex_byte : ℕ → Bool
is_hex_byte byte =
    leb b'A' byte && leb byte b'F'
    || leb b'a' byte && leb byte b'f'
    || leb b'0' byte && leb byte b'9'

pub get16_value : ℕ → ℕ
get16_value byte =
    if leb b'A' byte && leb byte b'F'
    then byte - b'A' + 10
    else if leb b'a' byte && leb byte b'f'
    then byte - b'a' + 10
    else if leb b'0' byte && leb byte b'9'
    then byte - b'0'
    else 0

-- `hex2uchar` of the two digits.
pub hex2uchar : ℕ → ℕ → ℕ
unfolding get16_value
hex2uchar a b = (get16_value a * 16 + get16_value b) % 256

-- `filled`, with the bytes that are kept: none, the `%`, or the `%` and the byte behind it.
pub data Decoder : Type 0 where
  ready : Decoder
  percent : Decoder
  digit : ℕ → Decoder

-- What is written to the stream: `writeFullStream`, which returns the stream and its status.
module _ {S : Type 0} (write_full_stream : S → Bytes → S × Status) where
  -- `if (!(cur+=…).succeed) return cur;` in front of what follows.
  pub after :
      {R : Type 0} → (S → Status → Option R) → (S → Status → R) → S × Status → Status → Option R
  unfolding add
  after again stop (s, x) cur =
      let total = add cur x in if total.succeed then again s total else some (stop s total)

  -- The loop of the encoder. Each round takes a byte or more.
  pub encode_loop : ℕ → S → Status → Bytes → Option (S × Status)
  encode_loop fuel s cur [] = some (s, cur)
  encode_loop zero s cur (b ∷ buf) = none
  encode_loop (suc fuel) s cur (b ∷ buf) =
      let n = get_plain_bytes_size should_encode_this_byte (b ∷ buf) in
      let plain =
        after (λ s' cur'. encode_loop fuel s' cur' (drop n (b ∷ buf))) (λ s' cur'. (s', cur'))
          (write_full_stream s (take n (b ∷ buf))) cur in
      let escaped =
        after (λ s' cur'. encode_loop fuel s' cur' buf) (λ s' cur'. (s', cur'))
          (write_full_stream s (encoded_byte b)) cur in
      if ltb 0 n then plain else escaped

  -- `StreamEncoder_URL::write`, for a buffer of which three times the size can be counted.
  pub encode : S → Bytes → Option (S × Status)
  unfolding encode_loop
  encode s buf =
      let loop = encode_loop (length buf) s fresh buf in
      if ltb ((2 ^ 64 - 1) / 3 - 3) (length buf)
      then some (s, record fresh { succeed = false })
      else loop

  -- `flushBytes`.
  flush_bytes : Decoder → S → S × Status
  flush_bytes ready s = write_full_stream s []
  flush_bytes percent s = write_full_stream s (b'%' ∷ [])
  flush_bytes (digit a) s = write_full_stream s (b'%' ∷ a ∷ [])

  -- The loop of the decoder. A second digit that is none flushes nothing, since `filled` is 0 then.
  pub decode_loop : ℕ → Decoder → S → Status → Bytes → Option (Decoder × S × Status)
  decode_loop fuel d s cur [] = some (d, s, cur)
  decode_loop zero d s cur (b ∷ buf) = none
  decode_loop (suc fuel) ready s cur (b ∷ buf) =
      let n = get_plain_bytes_size (λ x. x == b'%') (b ∷ buf) in
      let plain =
        after (λ s' cur'. decode_loop fuel ready s' cur' (drop n (b ∷ buf)))
          (λ s' cur'. (ready, s', cur')) (write_full_stream s (take n (b ∷ buf))) cur in
      let escape = decode_loop fuel percent s cur buf in if ltb 0 n then plain else escape
  decode_loop (suc fuel) percent s cur (b ∷ buf) =
      let more = decode_loop fuel (digit b) s cur buf in
      let flushed =
        after (λ s' cur'. decode_loop fuel (digit b) s' cur' buf) (λ s' cur'. (digit b, s', cur'))
          (flush_bytes (digit b) s) cur in
      if is_hex_byte b then more else flushed
  decode_loop (suc fuel) (digit a) s cur (b ∷ buf) =
      let value = λ (s' : S) (cur' : Status).
        after (λ s'' cur''. decode_loop fuel ready s'' cur'' buf) (λ s'' cur''. (ready, s'', cur''))
          (write_full_stream s' (hex2uchar a b ∷ [])) cur' in
      let flushed = after value (λ s' cur'. (ready, s', cur')) (flush_bytes ready s) cur in
      if is_hex_byte b then value s cur else flushed

  -- `StreamDecoder_URL::write`; `writeEOF` flushes what is kept.
  pub decode : Decoder → S → Bytes → Option (Decoder × S × Status)
  unfolding decode_loop
  decode d s buf = decode_loop (length buf) d s fresh buf

  pub write_eof : Decoder → S → S × Status
  unfolding flush_bytes
  write_eof d s = flush_bytes d s
