-- ===== src/Mem/Search/Occurrence.antt =====
-- Plain occurrence of a needle, and the searches that come to it.
use cx_framework.Base.{
  ℕ, suc, ◌+◌, ◌≤◌, true, false, ◌≡◌, refl, ap, ◌∙◌, Option, none, some, [], ◌∷◌, Bytes, length,
  take, drop, leb, if◌then◌else◌, bytes_eq, bytes_eq_iff, length-take, arith,
}
use mathlib.Core.Option
use cx_framework.Mem.Memory.{block}
use cx_framework.Mem.Memory.Same.{same}
use cx_framework.Mem.Search.{is_upper, to_lower, Backend, find}
use cx_framework.Mem.Search.First.{
  wanted, starts_with, first_match, at_offset, Holds, find-first_match,
}

-- The first place of a string at which the needle's bytes stand, by trying every place.
unfoldable pub first_occurrence : Bytes → Bytes → Option ℕ
first_occurrence needle [] = none
first_occurrence needle (x ∷ xs) =
    if bytes_eq (take (length needle) (x ∷ xs)) needle
    then some 0
    else Option.map suc (first_occurrence needle xs)

lower_same : (c : ℕ) → is_upper c ≡ false → to_lower c ≡ c
unfolding to_lower
lower_same c h = rw h refl

taken_fits :
    (ys xs : Bytes) → bytes_eq (take (length ys) xs) ys ≡ true → leb (length ys) (length xs) ≡ true
taken_fits ys xs h =
    let e : length (take (length ys) xs) ≡ length ys =
      ap (length {0}) ((bytes_eq_iff (take (length ys) xs) ys).0 h) in
    ground (arith, e, length-take (length ys) xs)

-- The test of the byte that `findChar` looks for adds nothing where that is the needle's first byte.
starts_with-plain :
    (c : ℕ) (needle : Bytes) (x : ℕ) (xs : Bytes)
    → is_upper c ≡ false
    → starts_with true (c ∷ needle) (x ∷ xs)
      ≡ bytes_eq (take (length (c ∷ needle)) (x ∷ xs)) (c ∷ needle)
unfolding wanted same bytes_eq
starts_with-plain c needle x xs h = ground (arith, lower_same c h, taken_fits needle xs)

pub first_match-first_occurrence :
    (c : ℕ) (needle xs : Bytes)
    → is_upper c ≡ false
    → first_match true (c ∷ needle) xs ≡ first_occurrence (c ∷ needle) xs
unfolding first_match first_occurrence
first_match-first_occurrence c needle [] h = refl
first_match-first_occurrence c needle (x ∷ xs) h =
    rw (starts_with-plain c needle x xs h, first_match-first_occurrence c needle xs h) refl

-- In a container that behaves as a string of bytes, a case-sensitive `find` over all that lies behind
-- an offset gives the first place there at which the needle's bytes stand, or that there is none. The
-- needle has at most 64 KiB and is not longer than what lies there, and its first byte is not an
-- upper-case letter.
pub find-first_occurrence :
    {b : Backend} {xs : Bytes} (holds : Holds b xs) (c : ℕ) (needle : Bytes) (offset : ℕ)
    → is_upper c ≡ false
    → length (c ∷ needle) ≤ block
    → offset + length (c ∷ needle) ≤ length xs
    → find (c ∷ needle) true offset 0 b
      ≡ some (at_offset offset (first_occurrence (c ∷ needle) (drop offset xs)))
find-first_occurrence {b} {xs} holds c needle offset plain short fits =
    find-first_match holds (c ∷ needle) true offset (omega arith) short fits
    ∙ ap (λ (o : Option ℕ). some (at_offset offset o))
        (first_match-first_occurrence c needle (drop offset xs) plain)
