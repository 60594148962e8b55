-- ===== src/Mem/UrlCoder/Decoded.antt =====
-- What the decoder writes to a stream that takes all that is written to it, byte by byte.
use cx_framework.Base.{
  on_true, on_false, ℕ, zero, suc, ◌≤◌, Bool, true, false, ◌≡◌, refl, sym, ap, ◌∙◌, inl, inr,
  Option, some, [], ◌∷◌, ◌++◌, append_assoc, append-nil, Bytes, length, take, drop, length-drop,
  ltb, ◌==◌, if◌then◌else◌, arith, Bool-cases,
}
use cx_framework.Mem.UrlCoder.{
  Status, get_plain_bytes_size, is_hex_byte, hex2uchar, Decoder, ready, percent, digit, after,
  flush_bytes, decode_loop,
}
use cx_framework.Mem.UrlCoder.Encoded.{keep_all, no_run, longer_run, after-keep_all}

abbrev pub is_percent : ℕ → Bool
is_percent x = x == b'%'

-- The decoder, byte by byte: what it keeps, and what it has written.
unfoldable pub decode_byte : Decoder × Bytes → ℕ → Decoder × Bytes
decode_byte (ready, out) b = if is_percent b then (percent, out) else (ready, out ++ b ∷ [])
decode_byte (percent, out) b = (digit b, if is_hex_byte b then out else out ++ b'%' ∷ b ∷ [])
decode_byte (digit a, out) b = (ready, out ++ hex2uchar a b ∷ [])

unfoldable pub decode_bytes : Decoder × Bytes → Bytes → Decoder × Bytes
decode_bytes state [] = state
decode_bytes state (b ∷ buf) = decode_bytes (decode_byte state b) buf

pub decode_bytes-append :
    (state : Decoder × Bytes) (xs ys : Bytes)
    → decode_bytes state (xs ++ ys) ≡ decode_bytes (decode_bytes state xs) ys
unfolding decode_bytes
decode_bytes-append state [] ys = refl
decode_bytes-append state (x ∷ xs) ys = decode_bytes-append (decode_byte state x) xs ys

pub plain_byte :
    (out : Bytes) (b : ℕ)
    → is_percent b ≡ false
    → decode_byte (ready, out) b ≡ (ready, out ++ b ∷ [])
unfolding decode_byte
plain_byte out b h = on_false (is_percent b) _ _ h

pub percent_byte :
    (out : Bytes) (b : ℕ) → is_percent b ≡ true → decode_byte (ready, out) b ≡ (percent, out)
unfolding decode_byte
percent_byte out b h = on_true (is_percent b) _ _ h

-- A run of bytes without `%` is written as it is.
plain_run :
    (out buf : Bytes)
    → decode_bytes (ready, out) buf
      ≡ decode_bytes
          (ready, out ++ take (get_plain_bytes_size is_percent buf) buf)
          (drop (get_plain_bytes_size is_percent buf) buf)
unfolding decode_bytes get_plain_bytes_size
plain_run out [] = ap (λ (s : Bytes). decode_bytes (ready, s) []) (sym (append-nil out))
plain_run out (b ∷ buf) = elim (Bool-cases (is_percent b)) [
  | inl stop ↦ rw (no_run is_percent b buf stop, append-nil out) refl
  | inr plain ↦
      rw (longer_run is_percent b buf plain, plain_byte out b plain)
        (plain_run (out ++ b ∷ []) buf
          ∙ ap
              (λ (s : Bytes).
                decode_bytes (ready, s) (drop (get_plain_bytes_size is_percent buf) buf))
              (append_assoc out (b ∷ []) (take (get_plain_bytes_size is_percent buf) buf)))
]

-- A call of the decoder came to this state, with success.
abbrev pub Comes : Decoder × Bytes → Option (Decoder × Bytes × Status) → Type 0
Comes state r = (st : Status) × (st.succeed ≡ true) × (r ≡ some (state.0, state.1, st))

reached_by :
    {x y : Decoder × Bytes} {r q : Option (Decoder × Bytes × Status)}
    → x ≡ y
    → r ≡ q
    → Comes y q
    → Comes x r
reached_by e f (st, ok, h) =
    (st, ok, f ∙ h ∙ ap (λ (z : Decoder × Bytes). some (z.0, z.1, st)) (sym e))

-- A write to the stream, and what follows it.
write_then :
    {x : Decoder × Bytes} (again : Bytes → Status → Option (Decoder × Bytes × Status))
    (stop : Bytes → Status → Decoder × Bytes × Status) (s bytes : Bytes) (cur : Status)
    → cur.succeed ≡ true
    → ((st : Status) → st.succeed ≡ true → Comes x (again (s ++ bytes) st))
    → Comes x (after keep_all again stop (keep_all s bytes) cur)
write_then again stop s bytes cur ok h =
    let (st, fine, e) = after-keep_all again stop s bytes cur ok in reached_by refl e (h st fine)

pub decode_loop-Comes :
    (fuel : ℕ) (d : Decoder) (s : Bytes) (cur : Status) (buf : Bytes)
    → cur.succeed ≡ true
    → length buf ≤ fuel
    → Comes (decode_bytes (d, s) buf) (decode_loop keep_all fuel d s cur buf)
unfolding decode_loop decode_bytes decode_byte flush_bytes
decode_loop-Comes fuel ready s cur [] ok enough = (cur, ok, refl)
decode_loop-Comes fuel percent s cur [] ok enough = (cur, ok, refl)
decode_loop-Comes fuel (digit a) s cur [] ok enough = (cur, ok, refl)
decode_loop-Comes zero d s cur (b ∷ buf) ok enough = absurd (omega arith)
decode_loop-Comes (suc fuel) ready s cur (b ∷ buf) ok enough = elim (Bool-cases (is_percent b)) [
  | inl stop ↦
      reached_by (ap (λ (z : Decoder × Bytes). decode_bytes z buf) (percent_byte s b stop))
        (rw (no_run is_percent b buf stop) refl)
        (decode_loop-Comes fuel percent s cur buf ok (omega arith))
  | inr plain ↦
      let n = get_plain_bytes_size is_percent buf in
      let run : ltb 0 (suc n) ≡ true = ground arith in
      let state : decode_bytes (ready, s) (b ∷ buf)
          ≡ decode_bytes (ready, s ++ (b ∷ take n buf)) (drop n buf) =
        rw (longer_run is_percent b buf plain) at (plain_run s (b ∷ buf)) in
      reached_by state (rw (longer_run is_percent b buf plain, run) refl) (
        write_then (λ s' cur'. decode_loop keep_all fuel ready s' cur' (drop n buf))
          (λ s' cur'. (ready, s', cur')) s (b ∷ take n buf) cur ok
          (λ st fine.
            decode_loop-Comes fuel ready (s ++ (b ∷ take n buf)) st (drop n buf) fine
              (omega (arith, length-drop n buf))))
]
decode_loop-Comes (suc fuel) percent s cur (b ∷ buf) ok enough = elim (Bool-cases (is_hex_byte b)) [
  | inl hex ↦
      reached_by
        (ap (λ (out : Bytes). decode_bytes (digit b, out) buf) (on_true (is_hex_byte b) _ _ hex))
        (rw hex refl) (decode_loop-Comes fuel (digit b) s cur buf ok (omega arith))
  | inr other ↦
      reached_by
        (ap (λ (out : Bytes). decode_bytes (digit b, out) buf) (on_false (is_hex_byte b) _ _ other))
        (rw other refl)
        (write_then (λ s' cur'. decode_loop keep_all fuel (digit b) s' cur' buf)
          (λ s' cur'. (digit b, s', cur')) s (b'%' ∷ b ∷ []) cur ok
          (λ st fine.
            decode_loop-Comes fuel (digit b) (s ++ b'%' ∷ b ∷ []) st buf fine (omega arith)))
]
decode_loop-Comes (suc fuel) (digit a) s cur (b ∷ buf) ok enough =
    let value : (t : Bytes) (cur' : Status)
        → cur'.succeed ≡ true
        → Comes (decode_bytes (ready, t ++ hex2uchar a b ∷ []) buf) (
            after keep_all (λ s'' cur''. decode_loop keep_all fuel ready s'' cur'' buf)
              (λ s'' cur''. (ready, s'', cur'')) (keep_all t (hex2uchar a b ∷ [])) cur') =
      λ t cur' fine.
        write_then (λ s'' cur''. decode_loop keep_all fuel ready s'' cur'' buf)
          (λ s'' cur''. (ready, s'', cur'')) t (hex2uchar a b ∷ []) cur' fine
          (λ st fine'.
            decode_loop-Comes fuel ready (t ++ hex2uchar a b ∷ []) st buf fine' (omega arith)) in
    elim (Bool-cases (is_hex_byte b)) [
      | inl hex ↦ reached_by refl (rw hex refl) (value s cur ok)
      | inr other ↦
          reached_by
            (ap (λ (t : Bytes). decode_bytes (ready, t ++ hex2uchar a b ∷ []) buf)
              (sym (append-nil s)))
            (rw other refl)
            (write_then
              (λ s' cur'.
                after keep_all (λ s'' cur''. decode_loop keep_all fuel ready s'' cur'' buf)
                  (λ s'' cur''. (ready, s'', cur'')) (keep_all s' (hex2uchar a b ∷ [])) cur')
              (λ s' cur'. (ready, s', cur')) s [] cur ok (λ st fine. value (s ++ []) st fine))
    ]
