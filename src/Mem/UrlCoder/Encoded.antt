-- ===== src/Mem/UrlCoder/Encoded.antt =====
-- What the encoder writes to a stream that takes all that is written to it.
use cx_framework.Base.{
  on_true, on_false, ℕ, zero, suc, ◌≤◌, Bool, true, false, ◌&&◌, ◌≡◌, refl, sym, ap, ◌∙◌, inl, inr,
  Option, some, [], ◌∷◌, ◌++◌, append_assoc, append-nil, Bytes, length, take, drop, length-drop,
  ltb, if◌then◌else◌, arith, Bool-cases,
}
use cx_framework.Mem.UrlCoder.{
  Status, fresh, add, should_encode_this_byte, get_plain_bytes_size, encoded_byte, after,
  encode_loop,
}

-- A stream that keeps all that is written to it.
abbrev pub keep_all : Bytes → Bytes → Bytes × Status
keep_all s bytes = (s ++ bytes, record fresh { bytes_written = length bytes })

-- What the encoder makes of a byte, and of bytes.
pub escape : ℕ → Bytes
escape b = if should_encode_this_byte b then encoded_byte b else b ∷ []

unfoldable pub escapes : Bytes → Bytes
escapes [] = []
escapes (b ∷ buf) = escape b ++ escapes buf

-- A write succeeds, and its text is what the stream holds then.
abbrev Writes : {D : Type 0} → D × Bytes → Option (D × Bytes × Status) → Type 0
Writes (d, out) r = (st : Status) × (r ≡ some (d, out, st))

pub escape_encoded : (b : ℕ) → should_encode_this_byte b ≡ true → escape b ≡ encoded_byte b
unfolding escape
escape_encoded b h = on_true (should_encode_this_byte b) _ _ h

pub escape_plain : (b : ℕ) → should_encode_this_byte b ≡ false → escape b ≡ b ∷ []
unfolding escape
escape_plain b h = on_false (should_encode_this_byte b) _ _ h

pub no_run :
    (stops : ℕ → Bool) (b : ℕ) (buf : Bytes)
    → stops b ≡ true
    → get_plain_bytes_size stops (b ∷ buf) ≡ 0
unfolding get_plain_bytes_size
no_run stops b buf h = on_true (stops b) _ _ h

pub longer_run :
    (stops : ℕ → Bool) (b : ℕ) (buf : Bytes)
    → stops b ≡ false
    → get_plain_bytes_size stops (b ∷ buf) ≡ suc (get_plain_bytes_size stops buf)
unfolding get_plain_bytes_size
longer_run stops b buf h = on_false (stops b) _ _ h

-- A run of plain bytes stands in the text as it is.
plain_run :
    (buf : Bytes)
    → escapes buf
      ≡ take (get_plain_bytes_size should_encode_this_byte buf) buf
        ++ escapes (drop (get_plain_bytes_size should_encode_this_byte buf) buf)
unfolding escapes
plain_run [] = unfold get_plain_bytes_size in refl
plain_run (b ∷ buf) = elim (Bool-cases (should_encode_this_byte b)) [
  | inl encoded ↦ rw (no_run should_encode_this_byte b buf encoded) refl
  | inr plain ↦
      rw (longer_run should_encode_this_byte b buf plain, escape_plain b plain)
        (ap (◌∷◌ b) (plain_run buf))
]

-- A write to the stream that keeps all succeeds.
pub after-keep_all :
    {R : Type 0} (again : Bytes → Status → Option R) (stop : Bytes → Status → R) (s bytes : Bytes)
    (cur : Status)
    → cur.succeed ≡ true
    → (st : Status) × (st.succeed ≡ true)
      × (after keep_all again stop (keep_all s bytes) cur ≡ again (s ++ bytes) st)
unfolding after add
after-keep_all again stop s bytes cur ok =
    let x : Status = record fresh { bytes_written = length bytes } in
    let fine : cur.succeed && true ≡ true = ground arith in
    (add cur x, fine, on_true (cur.succeed && true) _ _ fine)

pub encode_loop_lem :
    (fuel : ℕ) (s : Bytes) (cur : Status) (buf : Bytes)
    → cur.succeed ≡ true
    → length buf ≤ fuel
    → (st : Status) × (encode_loop keep_all fuel s cur buf ≡ some (s ++ escapes buf, st))
unfolding encode_loop escapes
encode_loop_lem fuel s cur [] ok enough =
    (cur, ap (λ (t : Bytes). some (t, cur)) (sym (append-nil s)))
encode_loop_lem zero s cur (b ∷ buf) ok enough = absurd (omega arith)
encode_loop_lem (suc fuel) s cur (b ∷ buf) ok enough =
    elim (Bool-cases (should_encode_this_byte b)) [
      | inl encoded ↦
          let (st, fine, e) =
            after-keep_all (λ s' cur'. encode_loop keep_all fuel s' cur' buf)
              (λ s' cur'. (s', cur')) s (encoded_byte b) cur ok in
          let (st', f) = encode_loop_lem fuel (s ++ encoded_byte b) st buf fine (omega arith) in
          (
            st',
            rw (no_run should_encode_this_byte b buf encoded, escape_encoded b encoded)
                (e
                  ∙ f
                  ∙ ap (λ (t : Bytes). some (t, st'))
                      (append_assoc s (encoded_byte b) (escapes buf))),
          )
      | inr plain ↦
          let n = get_plain_bytes_size should_encode_this_byte buf in
          let rest = drop n buf in
          let (st, fine, e) =
            after-keep_all (λ s' cur'. encode_loop keep_all fuel s' cur' rest)
              (λ s' cur'. (s', cur')) s (b ∷ take n buf) cur ok in
          let (st', f) =
            encode_loop_lem fuel (s ++ (b ∷ take n buf)) st rest fine
              (omega (arith, length-drop n buf)) in
          let run : ltb 0 (suc n) ≡ true = ground arith in
          (
            st',
            rw (longer_run should_encode_this_byte b buf plain, escape_plain b plain, run)
                (e
                  ∙ f
                  ∙ ap (λ (t : Bytes). some (t, st'))
                      (append_assoc s (b ∷ take n buf) (escapes rest)
                        ∙ ap (λ (t : Bytes). s ++ (b ∷ t)) (sym (plain_run buf)))),
          )
    ]
