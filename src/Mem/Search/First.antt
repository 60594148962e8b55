-- ===== src/Mem/Search/First.antt =====
-- What a search comes to over any container that behaves as a string of bytes.
use cx_framework.Base.{
  ℕ, zero, suc, ◌+◌, ◌-◌, ◌%◌, ◌^◌, ◌≤◌, ◌<◌, Bool, true, false, ◌&&◌, ◌||◌, ◌≡◌, refl, sym, ap,
  subst, ◌∙◌, inl, inr, Option, none, some, [], ◌∷◌, Bytes, length, take, drop, ltb, leb, ◌==◌,
  if◌then◌else◌, length-drop, drop-drop, arith, Bool-cases, Option-cases,
}
use mathlib.Core.Option
use cx_framework.Mem.Memory.{overflows, block}
use cx_framework.Mem.Memory.Same.{same}
use cx_framework.Mem.Search.{
  Found, found, missing, memchr, is_upper, is_lower, to_lower, take_place, find_in, Backend,
  find_loop, find_needle, find,
}

-- The byte that `findChar` looks for.
unfoldable pub wanted : Bool → ℕ → ℕ
unfolding to_lower
wanted true c = to_lower c
wanted false c = c

pub find_in_lem :
    (case_sensitive : Bool) (c : ℕ) (xs : Bytes) (n : ℕ)
    → find_in case_sensitive c xs n ≡ memchr xs (wanted case_sensitive c) n
unfolding find_in wanted
find_in_lem true c xs n = elim (Bool-cases (is_upper c || is_lower c)) [
  | inl letter ↦ rw (letter, take_place) refl
  | inr other ↦ rw (other, to_lower) (ground arith)
]
find_in_lem false c xs n = refl

-- The string starts with the needle: its first byte is the one looked for, and all of it compares.
abbrev pub starts_with : Bool → Bytes → Bytes → Bool
starts_with case_sensitive [] xs = true
starts_with case_sensitive (c ∷ needle) [] = false
starts_with case_sensitive (c ∷ needle) (x ∷ xs) =
    x == wanted case_sensitive c
    && (leb (length (c ∷ needle)) (length (x ∷ xs))
        && same case_sensitive (take (length (c ∷ needle)) (x ∷ xs)) (c ∷ needle))

-- The first place at which the needle occurs, by trying every place.
unfoldable pub first_match : Bool → Bytes → Bytes → Option ℕ
unfolding wanted same
first_match case_sensitive needle [] = none
first_match case_sensitive needle (x ∷ xs) =
    if starts_with case_sensitive needle (x ∷ xs)
    then some 0
    else Option.map suc (first_match case_sensitive needle xs)

abbrev pub at_offset : ℕ → Option ℕ → Found
at_offset offset none = missing
at_offset offset (some p) = found (offset + p)

-- A container that behaves as a string of bytes.
pub record Holds (b : Backend) (xs : Bytes) : Type 0 where
  pub size_lem : b.size ≡ length xs
  pub small : length xs < 2 ^ 64
  pub find_char_lem :
      (case_sensitive : Bool) (c offset : ℕ)
      → offset ≤ length xs
      → b.find_char case_sensitive c offset (length xs - offset)
        ≡ at_offset offset
            (memchr (drop offset xs) (wanted case_sensitive c) (length (drop offset xs)))
  pub compare2_lem :
      (mem : Bytes) (case_sensitive : Bool) (offset : ℕ)
      → 0 < length mem
      → length mem ≤ block
      → offset ≤ length xs
      → b.compare2 mem case_sensitive offset
        ≡ some (
            leb (length mem) (length (drop offset xs))
            && same case_sensitive (take (length mem) (drop offset xs)) mem)

-- What `compare2` answers at the front of a string.
abbrev compares : Bool → Bytes → Bytes → Bool
compares case_sensitive needle xs =
    leb (length needle) (length xs) && same case_sensitive (take (length needle) xs) needle

module _ (case_sensitive : Bool) (c : ℕ) (needle : Bytes) where
  abbrev first : Bytes → Option ℕ
  first = first_match case_sensitive (c ∷ needle)

  memchr-suc_none :
      (x : ℕ) (xs : Bytes)
      → memchr (x ∷ xs) (wanted case_sensitive c) (length (x ∷ xs)) ≡ none
      → ((x == wanted case_sensitive c) ≡ false)
        × (memchr xs (wanted case_sensitive c) (length xs) ≡ none)
  unfolding memchr
  memchr-suc_none x xs h = ground arith

  -- Where the first byte does not occur, the needle does not.
  memchr-none :
      (xs : Bytes) → memchr xs (wanted case_sensitive c) (length xs) ≡ none → first xs ≡ none
  unfolding first_match
  memchr-none [] h = refl
  memchr-none (x ∷ xs) h =
      let (other, rest) = memchr-suc_none x xs h in rw (other, memchr-none xs rest) refl

  -- The needle occurs at a place, or the search goes on behind it.
  abbrev GoesOn : Bytes → ℕ → Type 0
  GoesOn xs p =
      (p < length xs)
      × (first xs ≡ (
          if compares case_sensitive (c ∷ needle) (drop p xs)
          then some p
          else Option.map (λ (k : ℕ). suc (p + k)) (first (drop (suc p) xs))))

  here_GoesOn : (x : ℕ) (xs : Bytes) → (x == wanted case_sensitive c) ≡ true → GoesOn (x ∷ xs) 0
  unfolding first_match
  here_GoesOn x xs same_byte = (omega arith, rw same_byte (ground arith))

  next_GoesOn :
      (x : ℕ) (xs : Bytes) (q : ℕ)
      → (x == wanted case_sensitive c) ≡ false
      → GoesOn xs q
      → GoesOn (x ∷ xs) (suc q)
  unfolding first_match
  next_GoesOn x xs q other (inside, e) = (omega arith, rw (other, e) (ground arith))

  -- Where the first byte occurs, the needle does or the search goes on.
  memchr-some :
      (xs : Bytes) (p : ℕ) → memchr xs (wanted case_sensitive c) (length xs) ≡ some p → GoesOn xs p
  unfolding memchr
  memchr-some [] p h = cc
  memchr-some (x ∷ xs) p h = elim (Bool-cases (x == wanted case_sensitive c)) [
    | inl here_ ↦
        let zero_p : 0 ≡ p = cc (rw here_ at h) in
        subst (GoesOn (x ∷ xs)) zero_p (here_GoesOn x xs here_)
    | inr other ↦ elim (Option-cases (memchr xs (wanted case_sensitive c) (length xs))) [
      | inl absent ↦ cc (rw (other, absent) at h)
      | inr (q, e) ↦
          let suc_q : suc q ≡ p = cc (rw (other, e) at h) in
          subst (GoesOn (x ∷ xs)) suc_q (next_GoesOn x xs q other (memchr-some xs q e))
    ]
  ]

shift :
    (offset p : ℕ) (o : Option ℕ)
    → at_offset (offset + p + 1) o ≡ at_offset offset (Option.map (λ (k : ℕ). suc (p + k)) o)
shift offset p none = refl
shift offset p (some k) = ap found (omega arith)

module _ {b : Backend} {xs : Bytes} (holds : Holds b xs) (case_sensitive : Bool) (c : ℕ)
    (needle : Bytes) (short : length (c ∷ needle) ≤ block) where
  -- The loop of `find` from an offset, with the search that stands before it.
  abbrev search_from : ℕ → ℕ → Option Found
  search_from fuel offset =
      find_loop fuel (c ∷ needle) c case_sensitive b offset (length xs - offset)
        (b.find_char case_sensitive c offset (length xs - offset))

  abbrev expected : ℕ → Option Found
  expected offset = some (at_offset offset (first case_sensitive c needle (drop offset xs)))

  next_round :
      (fuel offset p : ℕ)
      → offset ≤ length xs
      → memchr (drop offset xs) (wanted case_sensitive c) (length (drop offset xs)) ≡ some p
      → (offset + p < length xs → search_from fuel (offset + p + 1) ≡ expected (offset + p + 1))
      → find_loop
          (suc fuel)
          (c ∷ needle)
          c
          case_sensitive
          b
          offset
          (length xs - offset)
          (found (offset + p))
        ≡ expected offset
  unfolding find_loop
  next_round fuel offset p inside at ih =
      let ys = drop offset xs in
      let (inside_p, e) = memchr-some case_sensitive c needle ys p at in
      let fits : offset + p < length xs = omega (arith, length-drop offset xs) in
      let left : (length xs - offset + 2 ^ 64 - (offset + p - offset)) % 2 ^ 64
          ≡ length xs - (offset + p) =
        omega (arith, holds.small) in
      let next : length xs - (offset + p) - 1 ≡ length xs - (offset + p + 1) = omega arith in
      let more : (length xs - (offset + p) == 0) ≡ false = ground arith in
      let succ : offset + p + 1 ≡ offset + suc p = omega arith in
      let same_place : drop (offset + p + 1) xs ≡ drop (suc p) ys =
        ap (λ (k : ℕ). drop k xs) succ ∙ sym (drop-drop offset (suc p) xs) in
      let answer =
        holds.compare2_lem (c ∷ needle) case_sensitive (offset + p) (omega arith) short
          (omega arith) in
      elim (Bool-cases (compares case_sensitive (c ∷ needle) (drop (offset + p) xs))) [
        | inl yes_ ↦ rw (find_loop, answer, yes_, e, drop-drop offset p xs, yes_) refl
        | inr no_ ↦
            rw (find_loop, answer, no_, left, more, next, e, drop-drop offset p xs, no_)
              (ih fits
                ∙ ap some (
                    ap
                      (λ (zs : Bytes).
                        at_offset (offset + p + 1) (first case_sensitive c needle zs))
                      same_place
                    ∙ shift offset p (first case_sensitive c needle (drop (suc p) ys))))
      ]

  search_from_lem :
      (fuel offset : ℕ)
      → offset ≤ length xs
      → length xs - offset < fuel
      → search_from fuel offset ≡ expected offset
  unfolding find_loop
  search_from_lem zero offset inside enough = absurd (omega arith)
  search_from_lem (suc fuel) offset inside enough =
      elim (Option-cases
        (memchr (drop offset xs) (wanted case_sensitive c) (length (drop offset xs)))) [
          | inl absent ↦
              rw
                (
                  holds.find_char_lem case_sensitive c offset inside,
                  absent,
                  memchr-none case_sensitive c needle (drop offset xs) absent,
                  find_loop,
                )
                refl
          | inr (p, at) ↦
              rw (holds.find_char_lem case_sensitive c offset inside, at)
                (next_round fuel offset p inside at
                  (λ deeper. search_from_lem fuel (offset + p + 1) (omega arith) (omega arith)))
        ]

find_needle_lem :
    {b : Backend} {xs : Bytes} (holds : Holds b xs) (needle : Bytes) (case_sensitive : Bool)
    (offset : ℕ)
    → 0 < length needle
    → length needle ≤ block
    → offset ≤ length xs
    → find_needle needle case_sensitive offset (length xs - offset) b
      ≡ some (at_offset offset (first_match case_sensitive needle (drop offset xs)))
unfolding find_needle
find_needle_lem holds [] case_sensitive offset used short inside = absurd (omega arith)
find_needle_lem {b} {xs} holds (c ∷ needle) case_sensitive offset used short inside =
    search_from_lem holds case_sensitive c needle short (suc b.size) offset inside
      (omega (arith, holds.size_lem))

-- In a container that behaves as a string of bytes, `find` over all that lies behind an offset gives
-- the first place there at which the needle occurs, or that there is none, for a needle of at most
-- one block that is not longer than what lies there.
pub find-first_match :
    {b : Backend} {xs : Bytes} (holds : Holds b xs) (needle : Bytes) (case_sensitive : Bool)
    (offset : ℕ)
    → 0 < length needle
    → length needle ≤ block
    → offset + length needle ≤ length xs
    → find needle case_sensitive offset 0 b
      ≡ some (at_offset offset (first_match case_sensitive needle (drop offset xs)))
unfolding find overflows
find-first_match {b} {xs} holds needle case_sensitive offset used short fits =
    let no_overflow : leb (2 ^ 64) (offset + length needle) ≡ false = ground (arith, holds.small) in
    let no_overflow0 : leb (2 ^ 64) (offset + 0) ≡ false = ground (arith, holds.small) in
    let size = holds.size_lem in
    let inside : ltb b.size offset ≡ false = ground arith in
    let more : (b.size - offset == 0) ≡ false = ground arith in
    let enough : ltb (b.size - offset) (length needle) ≡ false = ground arith in
    rw (no_overflow, no_overflow0, inside, more, enough)
      (ap (λ (n : ℕ). find_needle needle case_sensitive offset (n - offset) b) size
        ∙ find_needle_lem holds needle case_sensitive offset used short (omega arith))
