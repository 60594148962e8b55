-- ===== src/Mem/Chunks/Lookup/AsBytes.antt =====
-- The chunks, searched for a byte as one string.
use cx_framework.Base.{
  ℕ, zero, suc, ◌+◌, ◌-◌, ◌≤◌, ◌<◌, Bool, true, false, ◌≡◌, refl, sym, ap, ◌∙◌, inl, inr, Option,
  none, some, List, [], ◌∷◌, ◌++◌, Bytes, length, drop, ltb, ◌==◌, if◌then◌else◌, drop-append,
  drop_all, drop-nil, length-drop, arith, Bool-cases,
}
use mathlib.Core.Option
use cx_framework.Mem.Search.{Found, found, memchr}
use cx_framework.Mem.Search.First.{wanted, find_in_lem, at_offset}
use cx_framework.Mem.Chunks.{Chunk}
use cx_framework.Mem.Chunks.Content.{content}
use cx_framework.Mem.Chunks.Lookup.{searched, find_char_loop}

abbrev cap_at : ℕ → ℕ → ℕ
cap_at size n = if ltb size n then size else n

-- A search in a string that goes on in a second one.
abbrev goes_on : ℕ → ℕ → Option ℕ → Option ℕ → Option ℕ
goes_on size n (some p) rest = some p
goes_on size n none rest = if ltb size n then Option.map (λ (k : ℕ). size + k) rest else none

goes_on-suc :
    (size n : ℕ) (here_ rest : Option ℕ)
    → Option.map suc (goes_on size n here_ rest)
      ≡ goes_on (suc size) (suc n) (Option.map suc here_) rest
goes_on-suc size n (some p) rest = refl
goes_on-suc size n none none = ground arith
goes_on-suc size n none (some k) = ground arith

cap_at-suc : (size n : ℕ) → cap_at (suc size) (suc n) ≡ suc (cap_at size n)
cap_at-suc size n = ground arith

map_zero : (o : Option ℕ) → Option.map (λ (k : ℕ). 0 + k) o ≡ o
map_zero none = refl
map_zero (some k) = ap some (omega arith)

memchr-append :
    (xs ys : Bytes) (w n : ℕ)
    → memchr (xs ++ ys) w n
      ≡ goes_on (length xs) n (memchr xs w (cap_at (length xs) n)) (memchr ys w (n - length xs))
unfolding memchr
memchr-append [] ys w zero = refl
memchr-append [] ys w (suc n) =
    let none_here : cap_at 0 (suc n) ≡ 0 = ground arith in
    let all : suc n - 0 ≡ suc n = omega arith in
    let more : ltb 0 (suc n) ≡ true = ground arith in
    rw (none_here, all, more) (sym (map_zero (memchr ys w (suc n))))
memchr-append (x ∷ xs) ys w zero =
    let none_here : cap_at (suc (length xs)) 0 ≡ 0 = ground arith in
    let no_more : ltb (suc (length xs)) 0 ≡ false = ground arith in rw (none_here, no_more) refl
memchr-append (x ∷ xs) ys w (suc n) = rw (cap_at-suc (length xs) n) (elim (Bool-cases (x == w)) [
  | inl here_ ↦ rw here_ refl
  | inr other ↦
      rw (other, memchr-append xs ys w n)
        (goes_on-suc (length xs) n (memchr xs w (cap_at (length xs) n))
            (memchr ys w (n - length xs))
          ∙ ap
              (λ (m : ℕ).
                goes_on (suc (length xs)) (suc n)
                  (Option.map suc (memchr xs w (cap_at (length xs) n))) (memchr ys w m))
              (omega arith))
])

moved :
    (at size : ℕ) (o : Option ℕ)
    → at_offset (at + size) o ≡ at_offset at (Option.map (λ (k : ℕ). size + k) o)
moved at size none = refl
moved at size (some k) = ap found (omega arith)

at_offset-goes_on :
    (at size n retpos : ℕ) (here_ rest : Option ℕ) (loop : Found)
    → (ltb size n ≡ true → loop ≡ at_offset retpos rest)
    → retpos ≡ at + size
    → searched here_ at n size loop ≡ at_offset at (goes_on size n here_ rest)
unfolding searched
at_offset-goes_on at size n retpos (some p) rest loop h e = ap found (omega arith)
at_offset-goes_on at size n retpos none rest loop h e = elim (Bool-cases (ltb size n)) [
  | inr over ↦ rw over refl
  | inl more ↦ rw (more, h more, e) (moved at size rest)
]

memchr-nil : (w n : ℕ) → memchr [] w n ≡ none
unfolding memchr
memchr-nil w zero = refl
memchr-nil w (suc n) = refl

behind : (size offset : ℕ) → ltb size offset ≡ true → size < offset
behind size offset h = ground arith

within : (size offset : ℕ) → ltb size offset ≡ false → offset ≤ size
within size offset h = ground arith

-- The loop of `findChar` finds the first place of the byte in the string.
pub find_char_loop_lem :
    (case_sensitive : Bool) (c : ℕ) (cs : List Chunk) (offset search_space retpos : ℕ)
    → find_char_loop case_sensitive c cs offset search_space retpos
      ≡ at_offset
          (offset + retpos)
          (memchr (drop offset (content cs)) (wanted case_sensitive c) search_space)
unfolding find_char_loop content
find_char_loop_lem case_sensitive c [] offset search_space retpos =
    rw (drop-nil offset, memchr-nil (wanted case_sensitive c) search_space) refl
find_char_loop_lem case_sensitive c (chunk ∷ cs) offset search_space retpos =
    let size = length chunk.bytes in
    let w = wanted case_sensitive c in
    elim (Bool-cases (ltb size offset)) [
      | inl skip ↦
          let later : drop offset (chunk.bytes ++ content cs) ≡ drop (offset - size) (content cs) =
            rw
              (
                drop-append offset chunk.bytes (content cs),
                drop_all offset chunk.bytes (ground arith),
              )
              refl in
          rw
            (
              skip,
              later,
              find_char_loop_lem case_sensitive c cs (offset - size) search_space (retpos + size),
            )
            (ap
              (λ (at : ℕ). at_offset at (memchr (drop (offset - size) (content cs)) w search_space))
              (omega (arith, behind size offset skip)))
      | inr here_ ↦
          let piece = drop offset chunk.bytes in
          let start : offset - size ≡ 0 = ground arith in
          let split : drop offset (chunk.bytes ++ content cs) ≡ piece ++ content cs =
            rw (drop-append offset chunk.bytes (content cs), start) refl in
          rw
            (
              here_,
              split,
              find_in_lem case_sensitive c piece (cap_at (length piece) search_space),
              memchr-append piece (content cs) w search_space,
            )
            (at_offset-goes_on (offset + retpos) (length piece) search_space (retpos + size)
              (memchr piece w (cap_at (length piece) search_space))
              (memchr (content cs) w (search_space - length piece)) _
              (λ _.
                find_char_loop_lem case_sensitive c cs 0 (search_space - length piece)
                  (retpos + size)
                ∙ ap
                    (λ (at : ℕ). at_offset at (memchr (content cs) w (search_space - length piece)))
                    (omega arith))
              (omega (arith, length-drop offset chunk.bytes, within size offset here_)))
    ]
