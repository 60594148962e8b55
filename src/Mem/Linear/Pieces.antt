-- ===== src/Mem/Linear/Pieces.antt =====
-- The pieces of a view that are handed on.
use cx_framework.Base.{
  ℕ, zero, suc, ◌+◌, ◌-◌, ◌^◌, ◌≤◌, ◌<◌, false, ◌≡◌, refl, ap, ◌∙◌, inl, inr, some, List, Bytes,
  take, drop, take_add, ltb, leb, ◌==◌, ==_iff, if◌then◌else◌, arith, Bool-cases,
}
use cx_framework.Mem.Memory.{block, overflows}
use cx_framework.Mem.Chunks.Content.{joined}
use cx_framework.Mem.Linear.{Linear, piece_loop, copy_to2}

joined-piece_loop :
    (fuel : ℕ) (mem : Bytes) (n : ℕ) → n ≤ fuel → joined (piece_loop fuel mem n) ≡ take n mem
unfolding joined piece_loop
joined-piece_loop zero mem n enough = let none_left : n ≡ 0 = omega arith in rw none_left refl
joined-piece_loop (suc fuel) mem n enough = elim (Bool-cases (n == 0)) [
  | inl none_left ↦ rw ((==_iff n 0).0 none_left) refl
  | inr more ↦
      let size = if ltb block n then block else n in
      let cut : size ≤ n = ground arith in
      let used : 0 < size = ground arith in
      let whole : size + (n - size) ≡ n = omega arith in
      rw (more, joined-piece_loop fuel (drop size mem) (n - size) (omega arith))
        (take_add size (n - size) mem ∙ ap (λ (k : ℕ). take k mem) whole)
]

-- What a view hands on in pieces of at most 64 KiB are the bytes that lie in the range asked for, for
-- a range that is not empty and lies in the view.
pub copy_to2-take :
    (bytes offset : ℕ) (m : Linear)
    → 0 < bytes
    → offset + bytes ≤ m.container_bytes
    → m.container_bytes < 2 ^ 64
    → (pieces : List Bytes) × (copy_to2 bytes offset m ≡ some pieces)
      × (joined pieces ≡ take bytes (drop offset m.linear_mem))
unfolding copy_to2 overflows
copy_to2-take bytes offset m used fits small =
    let some_bytes : (bytes == 0) ≡ false = ground arith in
    let no_overflow : leb (2 ^ 64) (offset + bytes) ≡ false = ground arith in
    let start : ltb m.container_bytes offset ≡ false = ground arith in
    let inside : ltb m.container_bytes (offset + bytes) ≡ false = ground arith in
    (
      piece_loop bytes (drop offset m.linear_mem) bytes,
      rw (some_bytes, no_overflow, start, inside) refl,
      joined-piece_loop bytes (drop offset m.linear_mem) bytes (omega arith),
    )
