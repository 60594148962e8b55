-- ===== src/AuthStrings/PathSafety.antt =====
-- Escaped names as parts of paths.
use cx_framework.Base.{
  ℕ, ◌≤◌, ◌⊎◌, true, false, ◌≡◌, refl, [], ◌∷◌, some, inl, inr, Bytes, All, All-append, length,
  length-append, Bool-cases, arith, IsByte,
}
use cx_framework.AuthStrings.{
  must_be_encoded, calc_expanded_string_size, to_hex, is_hex_char, to_url_encoded,
}
use cx_framework.AuthStrings.Encoder.{escape, escapes, to_url_encoded-escapes}
use cx_framework.AuthStrings.RoundTrip.{escape-read}

-- A character that cannot leave the directory that a file name is put behind.
abbrev pub IsPathSafe : ℕ → Type 0
IsPathSafe c =
    (b'0' ≤ c) × (c ≤ b'9') ⊎ (b'A' ≤ c) × (c ≤ b'Z') ⊎ (b'a' ≤ c) × (c ≤ b'z') ⊎ (c ≡ b'%')

hex-IsPathSafe : (v : ℕ) → is_hex_char v ≡ true → IsPathSafe v
unfolding is_hex_char
hex-IsPathSafe v h = ground arith

plain-IsPathSafe : (c : ℕ) → must_be_encoded c ≡ false → IsPathSafe c
unfolding must_be_encoded
plain-IsPathSafe c h = ground arith

escape-IsPathSafe : (c : ℕ) → IsByte c → All IsPathSafe (escape c)
escape-IsPathSafe c h = elim (Bool-cases (must_be_encoded c)) [
  | inl e ↦ rw e (
    inr (inr (inr refl)),
    (
      hex-IsPathSafe (to_hex c 1) (ground (arith, escape-read c h)),
      (hex-IsPathSafe (to_hex c 2) (ground (arith, escape-read c h)), tt),
    ),
  )
  | inr e ↦ rw e (plain-IsPathSafe c e, tt)
]

escapes-IsPathSafe : (str : Bytes) → All IsByte str → All IsPathSafe (escapes str)
escapes-IsPathSafe [] h = tt
escapes-IsPathSafe (c ∷ str) h =
    All-append IsPathSafe (escape c) (escapes str) (escape-IsPathSafe c h.0)
      (escapes-IsPathSafe str h.1)

length-escapes : (str : Bytes) → length (escapes str) ≡ calc_expanded_string_size str
unfolding calc_expanded_string_size
length-escapes [] = refl
length-escapes (c ∷ str) =
    ground (arith, length-append (escape c) (escapes str), length-escapes str)

-- Whatever bytes a name holds, its escaped form is made of letters, digits and `%` alone, and has
-- the size that was reserved for it: no `/` and no `.` of a name reaches a path.
pub to_url_encoded-IsPathSafe :
    (str : Bytes)
    → All IsByte str
    → (out : Bytes) × (to_url_encoded str ≡ some out)
      × (length out ≡ calc_expanded_string_size str)
      × All IsPathSafe out
to_url_encoded-IsPathSafe str h =
    (escapes str, to_url_encoded-escapes str, length-escapes str, escapes-IsPathSafe str h)
