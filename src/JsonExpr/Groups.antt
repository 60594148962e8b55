-- ===== src/JsonExpr/Groups.antt =====
-- jsonexpreval.cpp: which group `detectSubExpr` finds.
use cx_framework.Base.{
  true, false, Option, some, ◌≤◌, ◌↔◌, ◌⊎◌, inl, inr, Bool-cases, ==_iff, subst, ℕ, suc, ◌+◌, ◌-◌,
  [], ◌∷◌, ◌++◌, Bytes, length, length-append, take, drop, append_assoc, append-nil, All, ◌≡◌, ◌≢◌,
  refl, sym, ap, ap₂, ◌∙◌, arith, ◌==◌,
}
use cx_framework.JsonExpr.{Boost}
use cx_framework.JsonExpr.Nesting.{
  Detected, unclosed, bad, group, scan, char_before, nothing_left, unbalanced, go_on, replaced,
  is_alnum, subexpr_name, positive_group, negative_group, take_group, of_scan, detect_sub_expr,
}

abbrev pub IsPlain : ℕ → Type 0
IsPlain c = (c ≢ b'(') × (c ≢ b')')

-- Texts in which brackets are balanced.
pub data Balanced : Bytes → Type 0 where
  nothing : Balanced []
  plain : (c : ℕ) (cs : Bytes) → IsPlain c → Balanced cs → Balanced (c ∷ cs)
  brackets :
      (inner cs : Bytes) → Balanced inner → Balanced cs → Balanced (b'(' ∷ inner ++ b')' ∷ cs)

scan-plain :
    (c : ℕ) (cs : Bytes) (i level first : ℕ)
    → IsPlain c
    → scan (c ∷ cs) i level first ≡ scan cs (i + 1) level first
unfolding scan
scan-plain c cs i level first h = ground (arith, h.0, h.1)

scan-plain_text :
    (pre rest : Bytes) (i level first : ℕ)
    → All IsPlain pre
    → scan (pre ++ rest) i level first ≡ scan rest (i + length pre) level first
scan-plain_text [] rest i level first h = ap (λ j. scan rest j level first) (omega arith)
scan-plain_text (c ∷ pre) rest i level first h =
    scan-plain c (pre ++ rest) i level first (h.0)
    ∙ scan-plain_text pre rest (i + 1) level first (h.1)
    ∙ ap (λ j. scan rest j level first) (omega arith)

scan-opened :
    (cs : Bytes) (i level first : ℕ)
    → scan (b'(' ∷ cs) i (suc level) first ≡ scan cs (i + 1) (suc (suc level)) first
unfolding scan
scan-opened cs i level first =
    one_more cs i level first ∙ ap (λ l. scan cs (i + 1) l first) (omega arith)
  where
    one_more :
        (cs : Bytes) (i level first : ℕ)
        → scan (b'(' ∷ cs) i (suc level) first ≡ scan cs (i + 1) (suc level + 1) first
    one_more cs i level first = ground arith

scan-closed :
    (cs : Bytes) (i level first : ℕ)
    → scan (b')' ∷ cs) i (suc (suc level)) first ≡ scan cs (i + 1) (suc level) first
unfolding scan
scan-closed cs i level first =
    one_less cs i level first ∙ ap (λ l. scan cs (i + 1) l first) (omega arith)
  where
    one_less :
        (cs : Bytes) (i level first : ℕ)
        → scan (b')' ∷ cs) i (suc (suc level)) first ≡ scan cs (i + 1) (suc (suc level) - 1) first
    one_less cs i level first = ground arith

-- A balanced text within brackets is passed over.
scan-Balanced :
    (inner rest : Bytes) (i level first : ℕ)
    → Balanced inner
    → scan (inner ++ rest) i (suc level) first ≡ scan rest (i + length inner) (suc level) first
scan-Balanced inner rest i level first nothing =
    ap (λ j. scan rest j (suc level) first) (omega arith)
scan-Balanced inner rest i level first (plain c cs h b) =
    scan-plain c (cs ++ rest) i (suc level) first h
    ∙ scan-Balanced cs rest (i + 1) level first b
    ∙ ap (λ j. scan rest j (suc level) first) (omega arith)
scan-Balanced inner rest i level first (brackets inside cs b b') =
    scan-opened ((inside ++ b')' ∷ cs) ++ rest) i level first
    ∙ ap (λ t. scan t (i + 1) (suc (suc level)) first) (append_assoc inside (b')' ∷ cs) rest)
    ∙ scan-Balanced inside (b')' ∷ (cs ++ rest)) (i + 1) (suc level) first b
    ∙ scan-closed (cs ++ rest) (i + 1 + length inside) level first
    ∙ scan-Balanced cs rest (i + 1 + length inside + 1) level first b'
    ∙ ap (λ j. scan rest j (suc level) first) (omega (arith, length-append inside (b')' ∷ cs)))

scan_last : (post : Bytes) (i first : ℕ) → scan (b')' ∷ post) i 1 first ≡ group first i
unfolding scan
scan_last post i first = refl

scan_first : (cs : Bytes) (i first : ℕ) → scan (b'(' ∷ cs) i 0 first ≡ scan cs (i + 1) 1 i
unfolding scan
scan_first cs i first = refl

scan_end : (i level first : ℕ) → scan [] i level first ≡ unclosed
unfolding scan
scan_end i level first = refl

scan_bad : (post : Bytes) (i first : ℕ) → scan (b')' ∷ post) i 0 first ≡ bad
unfolding scan
scan_bad post i first = refl

take_whole : (inner rest : Bytes) → take (length inner) (inner ++ rest) ≡ inner
take_whole [] rest = refl
take_whole (c ∷ inner) rest = ap (λ t. c ∷ t) (take_whole inner rest)

drop_whole : (pre : Bytes) (c : ℕ) (rest : Bytes) → drop (length pre + 1) (pre ++ c ∷ rest) ≡ rest
drop_whole pre c rest =
    let e : length pre + 1 ≡ suc (length pre) = omega arith in
    ap (λ n. drop n (pre ++ c ∷ rest)) e ∙ behind_suc pre
  where
    behind_suc : (pre : Bytes) → drop (suc (length pre)) (pre ++ c ∷ rest) ≡ rest
    behind_suc [] = refl
    behind_suc (d ∷ pre) = behind_suc pre

char_before-append :
    (pre rest : Bytes) → char_before (pre ++ rest) (length pre) ≡ char_before pre (length pre)
unfolding char_before
char_before-append [] rest = refl
char_before-append (c ∷ []) rest = refl
char_before-append (c ∷ d ∷ pre) rest = char_before-append (d ∷ pre) rest

scan-group :
    (pre inner post : Bytes)
    → All IsPlain pre
    → Balanced inner
    → scan (pre ++ b'(' ∷ (inner ++ b')' ∷ post)) 0 0 0
      ≡ group (length pre) (length pre + 1 + length inner)
scan-group pre inner post h b =
    scan-plain_text pre (b'(' ∷ (inner ++ b')' ∷ post)) 0 0 0 h
    ∙ ap (λ i. scan (b'(' ∷ (inner ++ b')' ∷ post)) i 0 0) (omega arith)
    ∙ scan_first (inner ++ b')' ∷ post) (length pre) 0
    ∙ scan-Balanced inner (b')' ∷ post) (length pre + 1) 0 (length pre) b
    ∙ scan_last post (length pre + 1 + length inner) (length pre)

scan-unclosed :
    (pre inner : Bytes)
    → All IsPlain pre
    → Balanced inner
    → scan (pre ++ b'(' ∷ inner) 0 0 0 ≡ unclosed
scan-unclosed pre inner h b =
    scan-plain_text pre (b'(' ∷ inner) 0 0 0 h
    ∙ scan_first inner (0 + length pre) 0
    ∙ ap (λ t. scan t (0 + length pre + 1) 1 (0 + length pre)) (sym (append-nil inner))
    ∙ scan-Balanced inner [] (0 + length pre + 1) 0 (0 + length pre) b
    ∙ scan_end (0 + length pre + 1 + length inner) 1 (0 + length pre)

abbrev pub IsAlnum : ℕ → Type 0
IsAlnum c = ((b'0' ≤ c) × (c ≤ b'9')) ⊎ ((b'A' ≤ c) × (c ≤ b'Z')) ⊎ ((b'a' ≤ c) × (c ≤ b'z'))

is_alnum-IsAlnum : (c : ℕ) → (is_alnum c ≡ true) ↔ IsAlnum c
unfolding is_alnum
is_alnum-IsAlnum c = ground arith

last_of : (pre : Bytes) → (pre ≡ []) ⊎ ((front : Bytes) × (c : ℕ) × (pre ≡ front ++ c ∷ []))
last_of [] = inl refl
last_of (c ∷ pre) = elim (last_of pre) [
  | inl e ↦ inr ([], c, ap (λ (t : Bytes). c ∷ t) e)
  | inr (front, d, e) ↦ inr (c ∷ front, d, ap (λ (t : Bytes). c ∷ t) e)
]

char_before-last :
    (front : Bytes) (c : ℕ) → char_before (front ++ c ∷ []) (length (front ++ c ∷ [])) ≡ some c
unfolding char_before
char_before-last [] c = refl
char_before-last (d ∷ []) c = refl
char_before-last (d ∷ e ∷ front) c = char_before-last (e ∷ front) c

module _ (boost : Boost) where
  -- What is done with the text within the brackets, by what stands before them.
  pub data Taken (expr inner : Bytes) (pos behind : ℕ) : Bytes → Detected → Type 0 where
    at_start : Taken expr inner pos behind [] (
        replaced
          (boost.replace_first expr (b'(' ∷ (inner ++ b')' ∷ [])) (subexpr_name pos))
          inner
          false)
    behind_name :
        (front : Bytes) (c : ℕ)
        → IsAlnum c
        → Taken expr inner pos behind (front ++ c ∷ []) (go_on behind)
    behind_not :
        (front : Bytes)
        → Taken expr inner pos behind (front ++ b'!' ∷ []) (
            replaced
              (boost.replace_first expr (b'!' ∷ b'(' ∷ (inner ++ b')' ∷ [])) (subexpr_name pos))
              inner
              true)
    behind_other :
        (front : Bytes) (c : ℕ)
        → ¬ IsAlnum c
        → c ≢ b'!'
        → Taken expr inner pos behind (front ++ c ∷ []) (
            replaced
              (boost.replace_first expr (b'(' ∷ (inner ++ b')' ∷ [])) (subexpr_name pos))
              inner
              false)

  take_group_not :
      (expr : Bytes) (pos : ℕ) (inner : Bytes) (last : ℕ)
      → take_group boost expr pos inner last (some b'!')
        ≡ replaced
            (boost.replace_first expr (b'!' ∷ b'(' ∷ (inner ++ b')' ∷ [])) (subexpr_name pos))
            inner
            true
  unfolding take_group negative_group is_alnum
  take_group_not expr pos inner last = refl

  take_group-Taken :
      (expr pre inner : Bytes) (pos last : ℕ)
      → Taken expr inner pos
          (last + 1)
          pre
          (take_group boost expr pos inner last (char_before pre (length pre)))
  unfolding take_group positive_group negative_group char_before
  take_group-Taken expr pre inner pos last = elim (last_of pre) [
    | inl e ↦ rw e at_start
    | inr (front, c, e) ↦
        subst
          (λ (t : Bytes).
            Taken expr inner pos (last + 1) t
              (take_group boost expr pos inner last (char_before t (length t))))
          (sym e)
          (subst
            (λ (o : Option ℕ).
              Taken expr inner pos (last + 1) (front ++ c ∷ [])
                (take_group boost expr pos inner last o))
            (sym (char_before-last front c)) (by_char front c))
  ]
    where
      by_char :
          (front : Bytes) (c : ℕ)
          → Taken expr inner pos
              (last + 1)
              (front ++ c ∷ [])
              (take_group boost expr pos inner last (some c))
      by_char front c = elim (Bool-cases (is_alnum c)) [
        | inl e ↦ rw e (behind_name front c ((is_alnum-IsAlnum c).0 e))
        | inr e ↦
            let other : ¬ IsAlnum c = λ h. cc (e, (is_alnum-IsAlnum c).1 h) in
            elim (Bool-cases (c == b'!')) [
              | inl n ↦
                  subst
                    (λ (k : ℕ).
                      Taken expr inner pos (last + 1) (front ++ k ∷ [])
                        (take_group boost expr pos inner last (some k)))
                    (sym ((==_iff c b'!').0 n))
                    (subst (Taken expr inner pos (last + 1) (front ++ b'!' ∷ []))
                      (sym (take_group_not expr pos inner last)) (behind_not front))
              | inr n ↦ rw (e, n) (behind_other front c other (λ h. cc (n, (==_iff c b'!').1 h)))
            ]
      ]

  -- Behind a text without brackets, `detectSubExpr` finds the text between the first opening bracket
  -- and the closing one that balances it. Behind a letter or a digit it is passed over; behind `!` it is
  -- a negative sub-expression, and else a positive one, for which the first text that stands so in its
  -- brackets (with the `!`) is replaced. A closing bracket without an opening one is an error, and a
  -- bracket that is never closed is none: the whole expression is left as it is.
  pub detect_sub_expr-group :
      (pre inner post : Bytes) (pos : ℕ)
      → All IsPlain pre
      → Balanced inner
      → Taken
          (pre ++ b'(' ∷ (inner ++ b')' ∷ post))
          inner
          pos
          (length pre + 1 + length inner + 1)
          pre
          (detect_sub_expr boost (pre ++ b'(' ∷ (inner ++ b')' ∷ post)) 0 pos)
        × (detect_sub_expr boost (pre ++ b')' ∷ post) 0 pos ≡ unbalanced)
        × (detect_sub_expr boost (pre ++ b'(' ∷ inner) 0 pos ≡ nothing_left)
  unfolding detect_sub_expr of_scan
  detect_sub_expr-group pre inner post pos h b =
      let expr = pre ++ b'(' ∷ (inner ++ b')' ∷ post) in
      let found : detect_sub_expr boost expr 0 pos
          ≡ take_group boost expr pos inner (length pre + 1 + length inner)
              (char_before pre (length pre)) =
        ap (λ s. of_scan boost expr pos s) (scan-group pre inner post h b)
        ∙ ap₂ (λ t c. take_group boost expr pos t (length pre + 1 + length inner) c)
            (ap (λ n. take n (drop (length pre + 1) expr)) (omega arith)
              ∙ ap (λ t. take (length inner) t) (drop_whole pre b'(' (inner ++ b')' ∷ post))
              ∙ take_whole inner (b')' ∷ post))
            (char_before-append pre (b'(' ∷ (inner ++ b')' ∷ post))) in
      (
        subst (λ (d : Detected). Taken expr inner pos (length pre + 1 + length inner + 1) pre d)
            (sym found) (take_group-Taken expr pre inner pos (length pre + 1 + length inner)),
        ap (λ s. of_scan boost (pre ++ b')' ∷ post) pos s)
            (scan-plain_text pre (b')' ∷ post) 0 0 0 h ∙ scan_bad post (0 + length pre) 0),
        ap (λ s. of_scan boost (pre ++ b'(' ∷ inner) pos s) (scan-unclosed pre inner h b),
      )
