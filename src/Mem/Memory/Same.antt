-- ===== src/Mem/Memory/Same.antt =====
-- When a comparison of memory is one of byte strings.
use cx_framework.Base.{
  ℕ, zero, suc, ◌+◌, ◌-◌, ◌%◌, ◌^◌, ◌≤◌, ◌<◌, ◌≢◌, Bool, true, false, ◌≡◌, inl, inr, refl, none,
  some, [], ◌∷◌, map, Bytes, length, take, drop, ltb, ◌==◌, ==_iff, bytes_eq, bytes_eq_iff,
  length-drop, arith, Bool-cases,
}
use cx_framework.Mem.Memory.{
  block, first_block, cmp_matrix, icharcmp, memcmp, memcmp64_loop, memcmp64, icase_loop, memicmp2,
}

long_enough : (n : ℕ) → ltb n block ≡ false → block ≤ n
long_enough n h = ground arith

-- The same bytes, or the same but for the case of their letters.
unfoldable pub same : Bool → Bytes → Bytes → Bool
unfolding bytes_eq cmp_matrix
same true xs ys = bytes_eq xs ys
same false xs ys = bytes_eq (map cmp_matrix xs) (map cmp_matrix ys)

icase_loop-same :
    (n : ℕ) (s1 s2 : Bytes)
    → n ≤ length s1
    → n ≤ length s2
    → icase_loop n s1 s2 ≡ some (same false (take n s1) (take n s2))
unfolding icase_loop icharcmp same
icase_loop-same zero s1 s2 h k = refl
icase_loop-same (suc n) [] s2 h k = absurd (omega arith)
icase_loop-same (suc n) (x ∷ s1) [] h k = absurd (omega arith)
icase_loop-same (suc n) (x ∷ s1) (y ∷ s2) h k =
    ground (arith, icase_loop-same n s1 s2 (omega arith) (omega arith))

in_bounds :
    (s1 s2 : Bytes) (n : ℕ)
    → n ≤ length s1
    → n ≤ length s2
    → memcmp s1 s2 n ≡ some (bytes_eq (take n s1) (take n s2))
unfolding memcmp
in_bounds s1 s2 n h k = ground arith

one_block :
    (fuel n : ℕ) (s1 s2 : Bytes)
    → n ≤ length s1
    → n ≤ length s2
    → memcmp64_loop (suc (suc fuel)) n s1 s2 n ≡ some (bytes_eq (take n s1) (take n s2))
unfolding memcmp64_loop
one_block fuel n s1 s2 h k = elim (Bool-cases (n == 0)) [
  | inl e ↦ let none_left : n ≡ 0 = (==_iff n 0).0 e in rw none_left refl
  | inr more ↦ elim (Bool-cases (bytes_eq (take n s1) (take n s2))) [
    | inl equal ↦ rw (more, in_bounds s1 s2 n h k, equal) (ground arith)
    | inr differ ↦ rw (more, in_bounds s1 s2 n h k, differ) refl
  ]
]

memcmp64-same :
    (n : ℕ) (s1 s2 : Bytes)
    → n ≤ block
    → n ≤ length s1
    → n ≤ length s2
    → memcmp64 s1 s2 n ≡ some (same true (take n s1) (take n s2))
unfolding memcmp64 first_block same
memcmp64-same n s1 s2 small h k =
    let whole : first_block n ≡ n = ground arith in rw whole (one_block (length s1) n s1 s2 h k)

-- A comparison of at most one block of memory that both sides have reads nothing else, and tells
-- whether the bytes are the same, or the same but for the case of letters.
pub memicmp2-same :
    (n : ℕ) (s1 s2 : Bytes) (case_sensitive : Bool)
    → n ≤ block
    → n ≤ length s1
    → n ≤ length s2
    → memicmp2 s1 s2 n case_sensitive ≡ some (same case_sensitive (take n s1) (take n s2))
unfolding memicmp2
memicmp2-same n s1 s2 true small h k = memcmp64-same n s1 s2 small h k
memicmp2-same n s1 s2 false small h k = icase_loop-same n s1 s2 h k

overrun_loop :
    (fuel : ℕ) (s : Bytes)
    → length s < 2 ^ 64
    → length s % block ≢ 0
    → memcmp64_loop fuel block s s (length s) ≡ none
unfolding memcmp64_loop
overrun_loop zero s small partial = refl
overrun_loop (suc fuel) s small partial =
    let n = length s in
    let more : (n == 0) ≡ false = ground arith in
    elim (Bool-cases (ltb n block)) [
      | inl short ↦ rw (more, memcmp, short) refl
      | inr long ↦
          let left : (n + 2 ^ 64 - block) % 2 ^ 64 ≡ length (drop block s) =
            omega (arith, length-drop block s, long_enough n long) in
          rw
            (
              more,
              in_bounds s s block (long_enough n long) (long_enough n long),
              (bytes_eq_iff (take block s) (take block s)).1 refl,
              left,
            )
            (overrun_loop fuel (drop block s) (omega (arith, length-drop block s))
              (λ e. partial (omega (arith, length-drop block s, long_enough n long, e))))
    ]

-- Comparing more than one block of equal bytes, of a length that is no multiple of the block's, reads
-- behind the end of the memory.
pub memcmp64_overrun :
    (s : Bytes)
    → block < length s
    → length s < 2 ^ 64
    → length s % block ≢ 0
    → memicmp2 s s (length s) true ≡ none
unfolding memicmp2 memcmp64 first_block
memcmp64_overrun s long small partial =
    let cut : first_block (length s) ≡ block = ground arith in
    rw cut (overrun_loop (suc (suc (length s))) s small partial)
