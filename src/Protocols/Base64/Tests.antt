-- ===== src/Protocols/Base64/Tests.antt =====
-- Base64 at concrete inputs.
use cx_framework.Base.{◌≡◌, refl, [], ◌∷◌, Bytes, codes, arith, some}
use cx_framework.Protocols.Base64.{b64_encode, b64_decode}
use cx_framework.Protocols.Base64.RoundTrip.{b64_decode-b64_encode}

abbrev credentials : Bytes
credentials = codes "user:pass"

abbrev binary : Bytes
binary = 0 ∷ 255 ∷ 128 ∷ 7 ∷ []

credentials_text : b64_encode credentials ≡ codes "dXNlcjpwYXNz"
unfolding b64_encode
credentials_text = refl

binary_text : b64_encode binary ≡ codes "AP+ABw=="
unfolding b64_encode
binary_text = refl

-- Decoding stops at the first character that is not in the alphabet.
stops_early : b64_decode (codes "dXNl*cjpw") ≡ some (codes "use")
unfolding b64_decode
stops_early = refl

b64_decode-b64_encode_example : b64_decode (b64_encode binary) ≡ some binary
b64_decode-b64_encode_example = b64_decode-b64_encode binary (omega arith) (omega arith)
