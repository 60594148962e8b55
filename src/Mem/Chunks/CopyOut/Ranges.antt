-- ===== src/Mem/Chunks/CopyOut/Ranges.antt =====
-- Copying ranges of bytes out of a container.
use cx_framework.Base.{
  ℕ, zero, suc, ◌+◌, ◌-◌, ◌^◌, ◌≤◌, ◌<◌, true, false, ◌≡◌, refl, sym, ap, ◌∙◌, inl, inr, List, [],
  ◌∷◌, ◌++◌, append-nil, Bytes, length, take, drop, drop-append, drop_all, take-append, take_all,
  ltb, leb, ◌==◌, arith, Bool-cases,
}
use cx_framework.Mem.Memory.{overflows}
use cx_framework.Mem.Chunks.{Chunk, Container}
use cx_framework.Mem.Chunks.Content.{content, IsCounted}
use cx_framework.Mem.Chunks.CopyOut.{copy_out_loop, copy_from, copy_at, copy_out2}
use cx_framework.Mem.Chunks.CopyOut.Placed.{
  IsPlacedFrom, IsPlaced, start_of, start_of-suc, start_of-zero, pos_for_offset-Holding,
}

ltb-le : (a b : ℕ) → ltb a b ≡ true → a ≤ b
ltb-le a b h = ground arith

copy_out_loop_lem :
    (piece : Bytes) (cs : List Chunk) (bytes : ℕ)
    → copy_out_loop piece cs bytes ≡ take bytes (piece ++ content cs)
unfolding copy_out_loop content
copy_out_loop_lem piece [] bytes =
    rw (append-nil piece) (elim (Bool-cases (ltb (length piece) bytes)) [
      | inl all ↦ rw all (sym (take_all bytes piece (ltb-le (length piece) bytes all)))
      | inr part ↦ rw part refl
    ])
copy_out_loop_lem piece (c ∷ cs) bytes = elim (Bool-cases (ltb (length piece) bytes)) [
  | inl all ↦
      rw
        (
          all,
          take-append bytes piece (c.bytes ++ content cs),
          take_all bytes piece (ltb-le (length piece) bytes all),
          copy_out_loop_lem c.bytes cs (bytes - length piece),
        )
        refl
  | inr part ↦
      let none_left : bytes - length piece ≡ 0 = ground arith in
      rw (part, take-append bytes piece (c.bytes ++ content cs), none_left) (sym (append-nil _))
]

later :
    (c : Chunk) (cs : List Chunk) (offset : ℕ)
    → length c.bytes ≤ offset
    → drop (offset - length c.bytes) (content cs) ≡ drop offset (content (c ∷ cs))
unfolding content
later c cs offset behind =
    rw (drop-append offset c.bytes (content cs), drop_all offset c.bytes behind) refl

-- The string behind an offset in a chunk.
split_at :
    (start : ℕ) (cs : List Chunk) (i offset : ℕ)
    → IsPlacedFrom start cs
    → i < length cs
    → start_of cs i ≤ offset
    → offset < start_of cs (suc i)
    → (c : Chunk) × (ds : List Chunk) × (drop i cs ≡ c ∷ ds)
      × (drop (offset + start - c.offset) c.bytes ++ content ds ≡ drop offset (content cs))
split_at start [] i offset h inside low high = absurd (omega arith)
split_at start (c ∷ cs) zero offset h inside low high = (
  c,
  cs,
  refl,
  (let same_place : offset + start - c.offset ≡ offset = omega (arith, h.0) in
      let inside_first : offset - length c.bytes ≡ 0 =
        omega (arith, high, start_of-suc c cs 0, start_of-zero cs) in
      unfold content in
      rw (same_place, drop-append offset c.bytes (content cs), inside_first) refl),
)
split_at start (c ∷ cs) (suc i) offset h inside low high =
    let size = length c.bytes in
    let behind : size ≤ offset = omega (arith, low, start_of-suc c cs i) in
    let (d, ds, at, e) =
      split_at (start + size) cs i (offset - size) h.1 (omega arith)
        (omega (arith, low, start_of-suc c cs i))
        (omega (arith, high, start_of-suc c cs (suc i))) in
    let same_place : offset - size + (start + size) - d.offset ≡ offset + start - d.offset =
      omega arith in
    (
      d,
      ds,
      at,
      ap (λ (k : ℕ). drop k d.bytes ++ content ds) (sym same_place) ∙ e ∙ later c cs offset behind,
    )

copied :
    (cs : List Chunk) (i offset bytes : ℕ)
    → IsPlaced cs
    → i < length cs
    → start_of cs i ≤ offset
    → offset < start_of cs (suc i)
    → copy_from (drop i cs) offset bytes ≡ (true, take bytes (drop offset (content cs)))
unfolding copy_from
copied cs i offset bytes placed inside low high =
    let (c, ds, at, e) = split_at 0 cs i offset placed inside low high in
    let same_place : offset + 0 - c.offset ≡ offset - c.offset = omega arith in
    rw at (
      ap (λ (xs : Bytes). (true, xs))
        (copy_out_loop_lem (drop (offset - c.offset) c.bytes) ds bytes
          ∙ ap (take bytes) (ap (λ (k : ℕ). drop k c.bytes ++ content ds) (sym same_place) ∙ e)))

-- Copying bytes out of a container whose chunks have their right offsets gives exactly the bytes of
-- the range asked for, for a range that is not empty and lies in the container.
pub copy_out2-content :
    (bytes offset : ℕ) (container : Container)
    → IsPlaced container.chunks
    → IsCounted container
    → container.container_bytes < 2 ^ 64
    → 0 < bytes
    → offset + bytes ≤ container.container_bytes
    → copy_out2 bytes offset container ≡ (true, take bytes (drop offset (content container.chunks)))
unfolding copy_out2 overflows copy_at
copy_out2-content bytes offset container placed counted small used fits =
    let cs = container.chunks in
    let no_overflow : leb (2 ^ 64) (offset + bytes) ≡ false = ground arith in
    let some_bytes : (bytes == 0) ≡ false = ground arith in
    let no_overrun : ltb container.container_bytes (offset + bytes) ≡ false = ground arith in
    let (i, at, inside, low, high) = pos_for_offset-Holding cs offset placed (omega arith) in
    rw (no_overflow, some_bytes, no_overrun, at) (copied cs i offset bytes placed inside low high)
