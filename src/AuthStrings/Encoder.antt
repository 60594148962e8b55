-- ===== src/AuthStrings/Encoder.antt =====
-- The loop of `toURLEncoded`.
use cx_framework.Base.{
  ℕ, suc, ◌+◌, true, false, ◌≡◌, refl, ◌∙◌, [], ◌∷◌, ◌++◌, Option, none, some, inl, inr, Bytes,
  if◌then◌else◌, Bool-cases, Option-cases, arith,
}
use cx_framework.AuthStrings.{
  must_be_encoded, calc_expanded_string_size, to_hex, write, encode_step, encode_loop, blanks,
  to_url_encoded,
}

-- What one character becomes.
abbrev pub escape : ℕ → Bytes
escape c = if must_be_encoded c then b'%' ∷ to_hex c 1 ∷ to_hex c 2 ∷ [] else c ∷ []

abbrev pub escapes : Bytes → Bytes
escapes [] = []
escapes (c ∷ str) = escape c ++ escapes str

abbrev behind : ℕ → Option Bytes → Option Bytes
behind d none = none
behind d (some out) = some (d ∷ out)

write-cons : (d : ℕ) (out : Bytes) (x c : ℕ) → write (d ∷ out) (x + 1) c ≡ behind d (write out x c)
unfolding write
write-cons d out x c = ground arith

abbrev behind_step : ℕ → Option (Bytes × ℕ) → Option (Bytes × ℕ)
behind_step d none = none
behind_step d (some (out, x)) = some (d ∷ out, x + 1)

encode_step-cons :
    (d : ℕ) (out : Bytes) (x c : ℕ)
    → encode_step (d ∷ out) (x + 1) c ≡ behind_step d (encode_step out x c)
unfolding encode_step
encode_step-cons d out x c = elim (Option-cases (write out x b'%')) [
  | inl e ↦ ground (arith, write-cons d out x b'%', write-cons d out x c)
  | inr (out₁, e) ↦ elim (Option-cases (write out₁ (x + 1) (to_hex c 1))) [
    | inl e₁ ↦ ground (
      arith,
      write-cons d out x b'%',
      write-cons d out x c,
      write-cons d out₁ (x + 1) (to_hex c 1),
    )
    | inr (out₂, e₁) ↦ ground (
      arith,
      write-cons d out x b'%',
      write-cons d out x c,
      write-cons d out₁ (x + 1) (to_hex c 1),
      write-cons d out₂ (x + 2) (to_hex c 2),
    )
  ]
]

-- A byte that is already written does not change the loop behind it.
encode_loop-cons :
    (d : ℕ) (out : Bytes) (x : ℕ) (str : Bytes)
    → encode_loop (d ∷ out) (x + 1) str ≡ behind d (encode_loop out x str)
unfolding encode_loop
encode_loop-cons d out x [] = refl
encode_loop-cons d out x (c ∷ str) = elim (Option-cases (encode_step out x c)) [
  | inl e ↦ rw (encode_step-cons d out x c, e) refl
  | inr ((out', x'), e) ↦ rw (encode_step-cons d out x c, e) (encode_loop-cons d out' x' str)
]

escaped_first :
    (c n : ℕ) (str out : Bytes)
    → must_be_encoded c ≡ true
    → encode_loop (blanks n) 0 str ≡ some out
    → encode_loop (blanks (3 + n)) 0 (c ∷ str) ≡ some (b'%' ∷ to_hex c 1 ∷ to_hex c 2 ∷ out)
unfolding encode_loop encode_step write blanks
escaped_first c n str out e h =
    let three : 3 + n ≡ suc (suc (suc n)) = omega arith in
    rw (three, e)
      (encode_loop-cons b'%' (to_hex c 1 ∷ to_hex c 2 ∷ blanks n) 2 str
        ∙ rw (encode_loop-cons (to_hex c 1) (to_hex c 2 ∷ blanks n) 1 str)
            (rw (encode_loop-cons (to_hex c 2) (blanks n) 0 str) (rw h)))

plain_first :
    (c n : ℕ) (str out : Bytes)
    → must_be_encoded c ≡ false
    → encode_loop (blanks n) 0 str ≡ some out
    → encode_loop (blanks (1 + n)) 0 (c ∷ str) ≡ some (c ∷ out)
unfolding encode_loop encode_step write blanks
plain_first c n str out e h =
    let one : 1 + n ≡ suc n = omega arith in
    rw (one, e) (encode_loop-cons c (blanks n) 0 str ∙ rw h)

encode_loop-escapes :
    (str : Bytes) → encode_loop (blanks (calc_expanded_string_size str)) 0 str ≡ some (escapes str)
unfolding calc_expanded_string_size
encode_loop-escapes [] = unfold encode_loop blanks in refl
encode_loop-escapes (c ∷ str) = elim (Bool-cases (must_be_encoded c)) [
  | inl e ↦ rw e (escaped_first c _ str _ e (encode_loop-escapes str))
  | inr e ↦ rw e (plain_first c _ str _ e (encode_loop-escapes str))
]

pub to_url_encoded-escapes : (str : Bytes) → to_url_encoded str ≡ some (escapes str)
unfolding to_url_encoded
to_url_encoded-escapes [] = refl
to_url_encoded-escapes (c ∷ str) = encode_loop-escapes (c ∷ str)
