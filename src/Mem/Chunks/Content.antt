-- ===== src/Mem/Chunks/Content.antt =====
-- The bytes that a container stands for, and what is read from it and removed from it.
use cx_framework.Base.{
  take-append, drop-append, drop_all, take_all, drop-nil, take-nil, ℕ, zero, suc, ◌+◌, ◌-◌, ◌^◌,
  ◌≤◌, ◌<◌, Bool, true, false, ◌≡◌, inl, inr, refl, sym, ap, ◌∙◌, some, List, [], ◌∷◌, ◌++◌, Bytes,
  length, take, drop, length-append, length-take, length-drop, min, ltb, leb, ◌==◌, ==_iff, leb→le,
  ltb→lt, if◌then◌else◌, arith, Bool-cases,
}
use cx_framework.Mem.Chunks.{
  Chunk, Container, next_offset, displace_chunk, recalc_rounds, recalc_chunk_offsets, displace_loop,
  displace2, displace, copy_pieces, copy_to2,
}
use cx_framework.Mem.Memory.{overflows}

-- The bytes of the chunks, in order.
unfoldable pub content : List Chunk → Bytes
content [] = []
content (c ∷ cs) = c.bytes ++ content cs

unfoldable pub joined : List Bytes → Bytes
joined [] = []
joined (p ∷ ps) = p ++ joined ps

-- `containerBytes` is the number of bytes.
abbrev pub IsCounted : Container → Type 0
IsCounted c = c.container_bytes ≡ length (content c.chunks)

-- A range that starts in the first part: what of it lies there, and the rest.
range_split :
    (xs ys : Bytes) (offset left : ℕ)
    → offset ≤ length xs
    → take left (drop offset (xs ++ ys))
      ≡ take left (drop offset xs) ++ take (left - length (take left (drop offset xs))) ys
range_split xs ys offset left h =
    let d = drop offset xs in
    let none_left : offset - length xs ≡ 0 = omega arith in
    let same : left - length d ≡ left - length (take left d) = omega (arith, length-take left d) in
    rw (drop-append offset xs ys, none_left, take-append left d ys)
      (ap (λ (k : ℕ). take left d ++ take k ys) same)

joined-copy_pieces :
    (cs : List Chunk) (offset left : ℕ)
    → joined (copy_pieces cs offset left) ≡ take left (drop offset (content cs))
unfolding joined copy_pieces content
joined-copy_pieces [] offset left = rw (drop-nil offset, take-nil left)
joined-copy_pieces (c ∷ cs) offset left = elim (Bool-cases (ltb (length c.bytes) offset)) [
  | inl skip ↦
      rw (skip, drop-append offset c.bytes (content cs), drop_all offset c.bytes (ground arith))
        (joined-copy_pieces cs (offset - length c.bytes) left)
  | inr here_ ↦
      let piece = take left (drop offset c.bytes) in
      rw (here_, range_split c.bytes (content cs) offset left (ground arith))
        (elim (Bool-cases (left - length piece == 0)) [
          | inl full ↦ rw (full, (==_iff _ 0).0 full)
          | inr more ↦
              rw more
                (ap (λ (x : Bytes). piece ++ x) (joined-copy_pieces cs 0 (left - length piece)))
        ])
]

displace_loop_lem :
    (cs : List Chunk) (n bytes displaced : ℕ)
    → bytes ≡ length (content cs)
    → (content (displace_loop cs n bytes displaced).0 ≡ drop n (content cs))
      × ((displace_loop cs n bytes displaced).1 ≡ length (content cs) - n)
      × ((displace_loop cs n bytes displaced).2 ≡ displaced + min n (length (content cs)))
unfolding displace_loop displace_chunk content
displace_loop_lem [] n bytes displaced h = (sym (drop-nil n), omega arith, omega arith)
displace_loop_lem (c ∷ cs) n bytes displaced h = elim (Bool-cases (n == 0)) [
  | inl zero_left ↦
      let e : n ≡ 0 = (==_iff n 0).0 zero_left in rw e (refl, omega (arith, h), omega arith)
  | inr more ↦ elim (Bool-cases (leb (length c.bytes) n)) [
    | inl whole ↦
        let (x, y, z) =
          displace_loop_lem cs (n - length c.bytes) (bytes - length c.bytes)
            (displaced + length c.bytes) (omega (arith, length-append c.bytes (content cs))) in
        rw (more, whole)
          (
            x
                ∙ sym (
                    rw (drop-append n c.bytes (content cs), drop_all n c.bytes (ground arith))
                      refl),
            omega (arith, y, length-append c.bytes (content cs), leb→le (length c.bytes) n whole),
            omega (arith, z, length-append c.bytes (content cs), leb→le (length c.bytes) n whole),
          )
    | inr part ↦
        let inside : n < length c.bytes = ground arith in
        let none_left : n - length c.bytes ≡ 0 = omega arith in
        rw (more, part, displace_chunk)
          (
            sym (rw (drop-append n c.bytes (content cs), none_left) refl),
            omega (arith, h, length-append c.bytes (content cs)),
            omega (arith, length-append c.bytes (content cs)),
          )
  ]
]

recalc_rounds_bytes : (n current : ℕ) (c : Chunk) → (recalc_rounds n current c).bytes ≡ c.bytes
unfolding recalc_rounds
recalc_rounds_bytes zero current c = refl
recalc_rounds_bytes (suc n) current c =
    recalc_rounds_bytes n (next_offset (record c { offset = current }))
      (record c { offset = current })

-- The offsets do not matter for the bytes.
pub content-recalc_chunk_offsets :
    (cs : List Chunk) → content (recalc_chunk_offsets cs) ≡ content cs
unfolding recalc_chunk_offsets content
content-recalc_chunk_offsets [] = refl
content-recalc_chunk_offsets (c ∷ cs) =
    ap (λ (x : Bytes). x ++ content cs) (recalc_rounds_bytes (length (c ∷ cs)) 0 c)

content_kept :
    (b : Bool) (cs : List Chunk) → content (if b then recalc_chunk_offsets cs else cs) ≡ content cs
content_kept true cs = content-recalc_chunk_offsets cs
content_kept false cs = refl

displace2-content :
    (n : ℕ) (c : Container)
    → IsCounted c
    → (content (displace2 n c).0.chunks ≡ drop n (content c.chunks))
      × ((displace2 n c).1 ≡ min n (length (content c.chunks)))
      × ((displace2 n c).0.container_bytes ≡ length (content c.chunks) - n)
unfolding displace2
displace2-content n c h =
    let (cs, _, _, complete) = displace_loop c.chunks n c.container_bytes 0 in
    let (x, y, z) = displace_loop_lem c.chunks n c.container_bytes 0 h in
    (content_kept complete cs ∙ x, omega (arith, z), y)

-- Displacing removes as many bytes from the front as are asked for, or all if there are fewer, says
-- how many these were, and keeps the count of the bytes right.
pub displace-content :
    (n : ℕ) (c : Container)
    → IsCounted c
    → (content (displace n c).0.chunks ≡ drop n (content c.chunks))
      × ((displace n c).1 ≡ min n (length (content c.chunks)))
      × IsCounted (displace n c).0
unfolding displace
displace-content n c h = elim (Bool-cases (ltb c.container_bytes n)) [
  | inl all ↦
      let size = c.container_bytes in
      let (x, y, z) = displace2-content size c h in
      let cut : drop size (content c.chunks) ≡ drop n (content c.chunks) =
        drop_all size (content c.chunks) (omega arith)
        ∙ sym (drop_all n (content c.chunks) (omega (arith, ltb→lt size n all))) in
      rw all (
        x ∙ cut,
        omega (arith, y, ltb→lt size n all),
        omega (arith, z, ap (length {0}) x, length-drop size (content c.chunks)),
      )
  | inr part ↦
      let (x, y, z) = displace2-content n c h in
      rw part (x, y, omega (arith, z, ap (length {0}) x, length-drop n (content c.chunks)))
]

abbrev left_for : ℕ → ℕ → ℕ → ℕ
left_for bytes offset size = if ltb size (offset + bytes) then size - offset else bytes

take_left :
    (bytes offset size : ℕ) (xs : Bytes)
    → size ≡ length xs
    → take (left_for bytes offset size) (drop offset xs) ≡ take bytes (drop offset xs)
take_left bytes offset size xs h = elim (Bool-cases (ltb size (offset + bytes))) [
  | inr e ↦ rw e refl
  | inl e ↦ rw e (
      take_all (size - offset) (drop offset xs) (omega (arith, length-drop offset xs))
      ∙ sym (
          take_all bytes (drop offset xs)
            (omega (arith, length-drop offset xs, ltb→lt size (offset + bytes) e))))
]

no_overflow : (a b : ℕ) → a + b < 2 ^ 64 → leb (2 ^ 64) (a + b) ≡ false
no_overflow a b h = ground arith

in_range : (a b : ℕ) → a ≤ b → ltb b a ≡ false
in_range a b h = ground arith

-- What `appendTo` and `copyToStream` hand on are the bytes that lie in the range asked for, cut at the
-- end of the container, for a range that starts in it and whose end is below 2^64.
pub copy_to2-content :
    (bytes offset : ℕ) (c : Container)
    → IsCounted c
    → offset ≤ c.container_bytes
    → offset + bytes < 2 ^ 64
    → (pieces : List Bytes) × (copy_to2 bytes offset c ≡ some pieces)
      × (joined pieces ≡ take bytes (drop offset (content c.chunks)))
unfolding copy_to2 overflows joined
copy_to2-content bytes offset c h inside small = elim (Bool-cases (bytes == 0)) [
  | inl empty ↦ let e : bytes ≡ 0 = (==_iff bytes 0).0 empty in ([], rw empty refl, rw e refl)
  | inr more ↦
      let left = left_for bytes offset c.container_bytes in
      (
        copy_pieces c.chunks offset left,
        rw (more, no_overflow offset bytes small, in_range offset c.container_bytes inside) refl,
        joined-copy_pieces c.chunks offset left
            ∙ take_left bytes offset c.container_bytes (content c.chunks) h,
      )
]
