-- ===== src/Mem/Search/Prefix.antt =====
-- Matches in a string that grows, and needles that are longer than the string.
use cx_framework.Base.{
  ℕ, suc, ◌+◌, ◌-◌, ◌^◌, ◌≤◌, ◌<◌, Bool, true, false, ◌&&◌, ◌≡◌, ◌⊎◌, refl, sym, ap, ap₂, ◌∙◌, inl,
  inr, Option, none, some, [], ◌∷◌, ◌++◌, append-nil, Bytes, length, take, take-append,
  length-append, ltb, leb, ◌==◌, arith, Bool-cases, Option-cases,
}
use cx_framework.Mem.Memory.{overflows}
use cx_framework.Mem.Memory.Same.{same}
use cx_framework.Mem.Search.{missing, invalid, Backend, find}
use cx_framework.Mem.Search.First.{wanted, starts_with, first_match, Holds}

module _ (case_sensitive : Bool) (c : ℕ) (needle : Bytes) where
  abbrev text : Bytes
  text = c ∷ needle

  abbrev first : Bytes → Option ℕ
  first = first_match case_sensitive text

  -- A longer string starts with the needle if its prefix does.
  starts_with-append :
      (x : ℕ) (xs ys : Bytes)
      → length text ≤ length (x ∷ xs)
      → starts_with case_sensitive text (x ∷ (xs ++ ys)) ≡ starts_with case_sensitive text (x ∷ xs)
  starts_with-append x xs ys fits =
      let none_left : length text - length (x ∷ xs) ≡ 0 = omega arith in
      let size : leb (length text) (length (x ∷ (xs ++ ys))) ≡ leb (length text) (length (x ∷ xs)) =
        ground (arith, length-append xs ys) in
      let cut : take (length text) (x ∷ (xs ++ ys)) ≡ take (length text) (x ∷ xs) =
        take-append (length text) (x ∷ xs) ys
        ∙ ap (λ (k : ℕ). take (length text) (x ∷ xs) ++ take k ys) none_left
        ∙ append-nil (take (length text) (x ∷ xs)) in
      ap₂
        (λ (b : Bool) (zs : Bytes).
          x == wanted case_sensitive c && (b && same case_sensitive zs text))
        size cut

  starts_with-fits :
      (x : ℕ) (xs : Bytes)
      → starts_with case_sensitive text (x ∷ xs) ≡ true
      → length text ≤ length (x ∷ xs)
  starts_with-fits x xs h = ground arith

  -- A match is at the front or behind it.
  first_match-cases :
      (x : ℕ) (xs : Bytes) (p : ℕ)
      → first (x ∷ xs) ≡ some p
      → ((starts_with case_sensitive text (x ∷ xs) ≡ true) × (0 ≡ p))
        ⊎ ((starts_with case_sensitive text (x ∷ xs) ≡ false)
            × (q : ℕ) × (first xs ≡ some q)
            × (suc q ≡ p))
  unfolding first_match
  first_match-cases x xs p h = elim (Bool-cases (starts_with case_sensitive text (x ∷ xs))) [
    | inl here_ ↦ inl (here_, cc (rw here_ at h))
    | inr other ↦ elim (Option-cases (first xs)) [
      | inl absent ↦ cc (rw (other, absent) at h)
      | inr (q, e) ↦ inr (other, q, e, cc (rw (other, e) at h))
    ]
  ]

  -- A match ends in the string.
  pub match_fits : (xs : Bytes) (p : ℕ) → first xs ≡ some p → p + length text ≤ length xs
  unfolding first_match
  match_fits [] p h = cc
  match_fits (x ∷ xs) p h = elim (first_match-cases x xs p h) [
    | inl (here_, e) ↦ omega (arith, e, starts_with-fits x xs here_)
    | inr (other, q, at, e) ↦ omega (arith, e, match_fits xs q at)
  ]

  -- A match that ends in a prefix is the prefix's.
  pub match_in_prefix :
      (xs ys : Bytes) (p : ℕ)
      → first (xs ++ ys) ≡ some p
      → p + length text ≤ length xs
      → first xs ≡ some p
  unfolding first_match
  match_in_prefix [] ys p h inside = absurd (omega arith)
  match_in_prefix (x ∷ xs) ys p h inside = elim (first_match-cases x (xs ++ ys) p h) [
    | inl (here_, e) ↦ rw (sym (starts_with-append x xs ys (omega arith)) ∙ here_) (ap some e)
    | inr (other, q, at, e) ↦
        rw
          (
            sym (starts_with-append x xs ys (omega arith)) ∙ other,
            match_in_prefix xs ys q at (omega (arith, e)),
          )
          (ap some e)
  ]

  -- A needle that is longer than the string does not occur.
  pub first_match-short : (xs : Bytes) → length xs < length text → first xs ≡ none
  unfolding first_match
  first_match-short [] h = refl
  first_match-short (x ∷ xs) h = elim (Bool-cases (starts_with case_sensitive text (x ∷ xs))) [
    | inl here_ ↦ absurd (omega (arith, starts_with-fits x xs here_))
    | inr other ↦ rw (other, first_match-short xs (omega arith)) refl
  ]

-- And `find` says so, in one of its two ways.
pub find_short :
    {b : Backend} {xs : Bytes} (holds : Holds b xs) (needle : Bytes) (case_sensitive : Bool)
    → length needle < 2 ^ 64
    → length xs < length needle
    → (find needle case_sensitive 0 0 b ≡ some missing)
      ⊎ (find needle case_sensitive 0 0 b ≡ some invalid)
unfolding find overflows
find_short {b} {xs} holds needle case_sensitive small short =
    let size = holds.size_lem in
    let no_overflow : leb (2 ^ 64) (0 + length needle) ≡ false = ground arith in
    let start : ltb b.size 0 ≡ false = ground arith in
    elim (Bool-cases (b.size - 0 == 0)) [
      | inl empty ↦ inl (rw (no_overflow, start, empty) refl)
      | inr some_bytes ↦
          let over : ltb (b.size - 0) (length needle) ≡ true = ground arith in
          inr (rw (no_overflow, start, some_bytes, over) refl)
    ]
