-- ===== src/Protocols/Base64/Groups.antt =====
-- One group of three bytes, from its indices to its characters and back.
use cx_framework.Base.{
  ℕ, ◌<◌, Bool, true, ◌&&◌, [], ◌∷◌, ◌++◌, Bytes, ◌==◌, holds_below, holds_below_at, ◌≡◌, refl,
  arith, IsByte, ◌∙◌,
}
use cx_framework.Protocols.Base64.{
  char_of, index_of, goes_on, quad, triple, decode_loop, decode_step,
}

abbrev char_is_read : ℕ → Bool
char_is_read i = goes_on (char_of i) && index_of (char_of i) == i

char_table : holds_below 64 char_is_read ≡ true
unfolding holds_below goes_on index_of char_of
char_table = refl

pub goes_on-char_of : (i : ℕ) → i < 64 → goes_on (char_of i) ≡ true
goes_on-char_of i h = ground (arith, holds_below_at 64 char_is_read i char_table h)

pub index_of-char_of : (i : ℕ) → i < 64 → index_of (char_of i) ≡ i
index_of-char_of i h = ground (arith, holds_below_at 64 char_is_read i char_table h)

-- An index below 64 comes out of every place of a group.
pub decode_one :
    (cont4 decoded rest : Bytes) (i : ℕ)
    → i < 64
    → decode_loop cont4 decoded (char_of i ∷ rest)
      ≡ decode_loop
          (decode_step cont4 decoded (char_of i)).0
          (decode_step cont4 decoded (char_of i)).1
          rest
unfolding decode_loop
decode_one cont4 decoded rest i h = rw (goes_on-char_of i h, decode_loop)

pub decode_quad :
    (decoded rest : Bytes) (a b c d : ℕ)
    → a < 64
    → b < 64
    → c < 64
    → d < 64
    → decode_loop [] decoded (char_of a ∷ char_of b ∷ char_of c ∷ char_of d ∷ rest)
      ≡ decode_loop [] (decoded ++ triple (a ∷ b ∷ c ∷ d ∷ [])) rest
unfolding decode_step
decode_quad decoded rest a b c d ha hb hc hd =
    decode_one [] decoded _ a ha
    ∙ decode_one _ decoded _ b hb
    ∙ decode_one _ decoded _ c hc
    ∙ decode_one _ decoded rest d hd
    ∙ rw
        (index_of-char_of a ha, index_of-char_of b hb, index_of-char_of c hc, index_of-char_of d hd)

pub triple-quad :
    (a b c : ℕ) → IsByte a → IsByte b → IsByte c → triple (quad (a ∷ b ∷ c ∷ [])) ≡ a ∷ b ∷ c ∷ []
triple-quad a b c ha hb hc = ground arith
