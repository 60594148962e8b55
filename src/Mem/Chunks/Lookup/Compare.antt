-- ===== src/Mem/Chunks/Lookup/Compare.antt =====
-- The chunks, compared with a buffer as one string.
use cx_framework.Base.{
  ℕ, ◌-◌, ◌≤◌, ◌<◌, Bool, true, false, ◌&&◌, ◌≡◌, refl, inl, inr, Option, some, List, [], ◌∷◌, ◌++◌,
  Bytes, length, take, drop, ltb, leb, ltb→lt, ◌==◌, if◌then◌else◌, drop-append, take-append,
  take_all, append-nil, bytes_eq, drop_all, drop-nil, length-append, length-drop, arith, Bool-cases,
}
use cx_framework.Mem.Memory.{memicmp2, block}
use cx_framework.Mem.Memory.Same.{same, memicmp2-same}
use cx_framework.Mem.Chunks.{Chunk}
use cx_framework.Mem.Chunks.Content.{content}
use cx_framework.Mem.Chunks.Lookup.{compared, compare_loop}

abbrev cap_at : ℕ → ℕ → ℕ
cap_at size n = if ltb size n then size else n

same-append :
    (case_sensitive : Bool) (p q buf : Bytes)
    → length p ≤ length buf
    → same case_sensitive (p ++ q) buf
      ≡ same case_sensitive p (take (length p) buf) && same case_sensitive q (drop (length p) buf)
unfolding same bytes_eq
same-append true [] q buf h = refl
same-append false [] q buf h = refl
same-append case_sensitive (x ∷ p) q [] h = absurd (omega arith)
same-append true (x ∷ p) q (y ∷ buf) h = ground (arith, same-append true p q buf (omega arith))
same-append false (x ∷ p) q (y ∷ buf) h = ground (arith, same-append false p q buf (omega arith))

-- What `compare2` answers at the front of a string.
abbrev answer : Bool → Bytes → Bytes → Bool
answer case_sensitive buf xs =
    leb (length buf) (length xs) && same case_sensitive (take (length buf) xs) buf

-- The string ends in the first piece, or goes on behind it.
answer_ends :
    (case_sensitive : Bool) (buf piece rest : Bytes)
    → length buf ≤ length piece
    → answer case_sensitive buf (piece ++ rest) ≡ same case_sensitive (take (length buf) piece) buf
answer_ends case_sensitive buf piece rest h =
    let enough : leb (length buf) (length (piece ++ rest)) ≡ true =
      ground (arith, length-append piece rest) in
    let none_left : length buf - length piece ≡ 0 = omega arith in
    rw (enough, take-append (length buf) piece rest, none_left, append-nil) refl

and_swap : (a b c : Bool) → (a && (b && c)) ≡ (b && (a && c))
and_swap a true c = refl
and_swap true false c = refl
and_swap false false c = refl

answer_goes_on :
    (case_sensitive : Bool) (buf piece rest : Bytes)
    → length piece < length buf
    → answer case_sensitive buf (piece ++ rest)
      ≡ same case_sensitive piece (take (length piece) buf)
        && answer case_sensitive (drop (length piece) buf) rest
answer_goes_on case_sensitive buf piece rest h =
    let size : leb (length buf) (length (piece ++ rest))
        ≡ leb (length (drop (length piece) buf)) (length rest) =
      ground (arith, length-append piece rest, length-drop (length piece) buf) in
    rw
      (
        size,
        take-append (length buf) piece rest,
        take_all (length buf) piece (omega arith),
        same-append case_sensitive piece (take (length buf - length piece) rest) buf (omega arith),
        length-drop (length piece) buf,
      )
      (and_swap _ (same case_sensitive piece (take (length piece) buf)) _)

-- Both sides of a comparison of `n` bytes have as many.
piece_same :
    (case_sensitive : Bool) (piece buf : Bytes) (n : ℕ)
    → n ≤ length piece
    → n ≤ length buf
    → length buf ≤ block
    → memicmp2 piece buf n case_sensitive ≡ some (same case_sensitive (take n piece) (take n buf))
piece_same case_sensitive piece buf n h k short =
    memicmp2-same n piece buf case_sensitive (omega arith) h k

round :
    (case_sensitive : Bool) (buf piece rest : Bytes) (loop : Bytes → Option Bool)
    → 0 < length buf
    → length buf ≤ block
    → (length piece < length buf
        → loop (drop (length piece) buf)
          ≡ some (answer case_sensitive (drop (length piece) buf) rest))
    → compared
        (memicmp2 piece buf (cap_at (length piece) (length buf)) case_sensitive)
        (length buf - cap_at (length piece) (length buf))
        (loop (drop (cap_at (length piece) (length buf)) buf))
      ≡ some (answer case_sensitive buf (piece ++ rest))
unfolding compared
round case_sensitive buf piece rest loop used short ih =
    elim (Bool-cases (ltb (length piece) (length buf))) [
      | inr ends ↦
          let n = length buf in
          let fits : n ≤ length piece = ground arith in
          let none_left : n - n ≡ 0 = omega arith in
          rw
            (
              ends,
              piece_same case_sensitive piece buf n fits (omega arith) short,
              answer_ends case_sensitive buf piece rest fits,
              take_all n buf (omega arith),
              none_left,
            )
            (elim (same case_sensitive (take n piece) buf)
              as (λ (r : Bool). compared (some r) 0 (loop (drop n buf)) ≡ some r) [
                | true ↦ refl
                | false ↦ refl
              ])
      | inl more ↦
          let n = length piece in
          let shorter : n < length buf = ltb→lt n (length buf) more in
          let left : (length buf - n == 0) ≡ false = ground arith in
          rw
            (
              more,
              piece_same case_sensitive piece buf n (omega arith) (omega arith) short,
              answer_goes_on case_sensitive buf piece rest shorter,
              take_all n piece (omega arith),
              ih shorter,
            )
            (elim (same case_sensitive piece (take n buf))
              as (λ (r : Bool).
                compared (some r) (length buf - n) (some (answer case_sensitive (drop n buf) rest))
                ≡ some (r && answer case_sensitive (drop n buf) rest)) [
                  | true ↦ rw left refl
                  | false ↦ refl
                ])
    ]

-- The loop of `compare2` compares the string behind the offset.
pub compare_loop_lem :
    (case_sensitive : Bool) (cs : List Chunk) (offset : ℕ) (buf : Bytes)
    → 0 < length buf
    → length buf ≤ block
    → compare_loop case_sensitive cs offset buf
      ≡ some (answer case_sensitive buf (drop offset (content cs)))
unfolding compare_loop content
compare_loop_lem case_sensitive [] offset buf used short = rw (drop-nil offset) (ground arith)
compare_loop_lem case_sensitive (chunk ∷ cs) offset buf used short =
    let size = length chunk.bytes in
    elim (Bool-cases (ltb size offset)) [
      | inl skip ↦
          rw
            (
              skip,
              drop-append offset chunk.bytes (content cs),
              drop_all offset chunk.bytes (ground arith),
            )
            (compare_loop_lem case_sensitive cs (offset - size) buf used short)
      | inr here_ ↦
          let piece = drop offset chunk.bytes in
          let start : offset - size ≡ 0 = ground arith in
          rw (here_, drop-append offset chunk.bytes (content cs), start)
            (round case_sensitive buf piece (content cs) (compare_loop case_sensitive cs 0) used
              short
              (λ shorter.
                compare_loop_lem case_sensitive cs 0 (drop (length piece) buf)
                  (omega (arith, length-drop (length piece) buf))
                  (omega (arith, length-drop (length piece) buf))))
    ]
