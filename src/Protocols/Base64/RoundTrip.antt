-- ===== src/Protocols/Base64/RoundTrip.antt =====
-- Decoding what was encoded.
use cx_framework.Base.{
  ℕ, ◌+◌, ◌*◌, ◌/◌, ◌%◌, ◌<◌, [], ◌∷◌, ◌++◌, Bytes, All, map, ◌≡◌, refl, sym, arith, IsByte, ◌∙◌,
  ap, ap₂, append-nil, append_assoc, ◌≤◌, ◌^◌, length, take, take_all, ltb, true, some, none,
  if◌then◌else◌,
}
use cx_framework.Protocols.Base64.{
  char_of, index_of, goes_on, quad, decode_loop, decode_step, decode_end, encode_loop, encode_step,
  encode_end, b64_encode, b64_decode,
}
use cx_framework.Protocols.Base64.Groups.{decode_quad, triple-quad, index_of-char_of, decode_one}

-- The text of a byte string, group by group.
abbrev pub encoded : Bytes → Bytes
encoded [] = []
encoded (a ∷ []) = encode_end (a ∷ []) []
encoded (a ∷ b ∷ []) = encode_end (a ∷ b ∷ []) []
encoded (a ∷ b ∷ c ∷ buf) = map char_of (quad (a ∷ b ∷ c ∷ [])) ++ encoded buf

encode_loop-encoded : (buf out : Bytes) → encode_loop [] out buf ≡ out ++ encoded buf
unfolding encode_loop encode_step encode_end
encode_loop-encoded [] out = sym (append-nil out)
encode_loop-encoded (a ∷ []) out = refl
encode_loop-encoded (a ∷ b ∷ []) out = refl
encode_loop-encoded (a ∷ b ∷ c ∷ buf) out =
    encode_loop-encoded buf (out ++ map char_of (quad (a ∷ b ∷ c ∷ [])))
    ∙ append_assoc out _ (encoded buf)

decode_stop : (cont4 out rest : Bytes) → decode_loop cont4 out (b'=' ∷ rest) ≡ decode_end cont4 out
unfolding decode_loop goes_on
decode_stop cont4 out rest = refl

-- The zero bytes behind the last characters are no characters of the alphabet.
index_of_zero : index_of 0 ≡ 255
unfolding index_of
index_of_zero = refl

end₂ :
    (i j : ℕ) (out : Bytes)
    → i < 64
    → j < 64
    → decode_end (char_of i ∷ char_of j ∷ []) out ≡ out ++ ((i * 4 + j / 16 % 4) % 256) ∷ []
unfolding decode_end
end₂ i j out hi hj = rw (index_of-char_of i hi, index_of-char_of j hj)

end₃ :
    (i j k : ℕ) (out : Bytes)
    → i < 64
    → j < 64
    → k < 64
    → decode_end (char_of i ∷ char_of j ∷ char_of k ∷ []) out
      ≡ out ++ ((i * 4 + j / 16 % 4) % 256) ∷ ((j % 16 * 16 + k / 4 % 16) % 256) ∷ []
unfolding decode_end
end₃ i j k out hi hj hk = rw (index_of-char_of i hi, index_of-char_of j hj, index_of-char_of k hk)

decode_tail₁ :
    (a : ℕ) (out : Bytes) → IsByte a → decode_loop [] out (encoded (a ∷ [])) ≡ out ++ a ∷ []
unfolding decode_step encode_end
decode_tail₁ a out h =
    decode_one [] out _ (a / 4) (omega arith)
    ∙ decode_one _ out _ (a % 4 * 16 + 0) (omega arith)
    ∙ decode_stop _ out _
    ∙ end₂ (a / 4) (a % 4 * 16 + 0) out (omega arith) (omega arith)
    ∙ ap (λ (b : ℕ). out ++ b ∷ []) (omega arith)

decode_tail₂ :
    (a b : ℕ) (out : Bytes)
    → IsByte a
    → IsByte b
    → decode_loop [] out (encoded (a ∷ b ∷ [])) ≡ out ++ a ∷ b ∷ []
unfolding decode_step encode_end
decode_tail₂ a b out ha hb =
    decode_one [] out _ (a / 4) (omega arith)
    ∙ decode_one _ out _ (a % 4 * 16 + b / 16) (omega arith)
    ∙ decode_one _ out _ (b % 16 * 4 + 0) (omega arith)
    ∙ decode_stop _ out _
    ∙ end₃ (a / 4) (a % 4 * 16 + b / 16) (b % 16 * 4 + 0) out (omega arith) (omega arith)
        (omega arith)
    ∙ ap₂ (λ (c d : ℕ). out ++ c ∷ d ∷ []) (omega arith) (omega arith)

decode-encoded : (buf out : Bytes) → All IsByte buf → decode_loop [] out (encoded buf) ≡ out ++ buf
decode-encoded [] out h = unfold decode_loop decode_end in sym (append-nil out)
decode-encoded (a ∷ []) out h = decode_tail₁ a out h.0
decode-encoded (a ∷ b ∷ []) out h = decode_tail₂ a b out h.0 h.1.0
decode-encoded (a ∷ b ∷ c ∷ buf) out h =
    decode_quad out (encoded buf) (a / 4) (a % 4 * 16 + b / 16) (b % 16 * 4 + c / 64) (c % 64)
      (omega arith) (omega arith) (omega arith) (omega arith)
    ∙ rw (triple-quad a b c h.0 h.1.0 h.1.1.0)
        (decode-encoded buf (out ++ a ∷ b ∷ c ∷ []) h.1.1.1 ∙ append_assoc out (a ∷ b ∷ c ∷ []) buf)

length-encoded : (buf : Bytes) → length (encoded buf) ≤ (length buf + 2) / 3 * 4
unfolding encode_end
length-encoded [] = omega arith
length-encoded (a ∷ []) = omega arith
length-encoded (a ∷ b ∷ []) = omega arith
length-encoded (a ∷ b ∷ c ∷ buf) = omega (arith, length-encoded buf)

below : (a b n : ℕ) → a ≤ b → b < n → ltb a n ≡ true
below a b n h k = ground (arith, h, k)

whole_count : (n : ℕ) → (n + 2) / 3 * 4 < 2 ^ 31 → n ≤ n % 2 ^ 32
whole_count n h = omega (arith, h)

-- Decoding the Base64 text of a byte string gives the bytes back, for a byte string whose text has
-- fewer than 2^31 characters.
pub b64_decode-b64_encode :
    (buf : Bytes)
    → All IsByte buf
    → (length buf + 2) / 3 * 4 < 2 ^ 31
    → b64_decode (b64_encode buf) ≡ some buf
unfolding b64_decode b64_encode
b64_decode-b64_encode buf h short =
    let whole : take (length buf % 2 ^ 32) buf ≡ buf =
      take_all (length buf % 2 ^ 32) buf (whole_count (length buf) short) in
    let text : encode_loop [] [] (take (length buf % 2 ^ 32) buf) ≡ encoded buf =
      ap (encode_loop [] []) whole ∙ encode_loop-encoded buf [] in
    let counted : ltb (length (encoded buf)) (2 ^ 31) ≡ true =
      below (length (encoded buf)) ((length buf + 2) / 3 * 4) (2 ^ 31) (length-encoded buf) short in
    ap (λ (t : Bytes). if ltb (length t) (2 ^ 31) then some (decode_loop [] [] t) else none) text
    ∙ rw counted (ap some (decode-encoded buf [] h))
