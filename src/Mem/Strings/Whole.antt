-- ===== src/Mem/Strings/Whole.antt =====
-- What a container gives as a string.
use cx_framework.Base.{
  ℕ, zero, suc, ◌+◌, ◌-◌, ◌^◌, ◌≤◌, ◌<◌, Bool, true, false, ◌≡◌, refl, sym, ap, ◌∙◌, inl, inr, [],
  ◌++◌, append-nil, append_assoc, Bytes, length, take, drop, drop-drop, take_all, take_add,
  length-drop, drop_all, ltb, leb, ◌==◌, ==_iff, if◌then◌else◌, arith, Bool-cases,
}
use cx_framework.Mem.Memory.{overflows}
use cx_framework.Mem.Search.{Backend}
use cx_framework.Mem.Chunks.{Container}
use cx_framework.Mem.Chunks.Content.{content, IsCounted}
use cx_framework.Mem.Chunks.Lookup
use cx_framework.Mem.Chunks.CopyOut.Placed.{IsPlaced}
use cx_framework.Mem.Chunks.CopyOut.Ranges.{copy_out2-content}
use cx_framework.Mem.Strings.{
  all_bytes, checked, ranged, copy_out, added, string_loop, copy_to_string, to_string,
}

-- A container that hands out the ranges of a string of bytes.
pub record CopiesOut (b : Backend) (xs : Bytes) : Type 0 where
  pub size_lem : b.size ≡ length xs
  pub small : length xs < 2 ^ 64
  pub copy_out2_lem :
      (bytes offset : ℕ)
      → 0 < bytes
      → offset + bytes ≤ length xs
      → b.copy_out2 bytes offset ≡ (true, take bytes (drop offset xs))

ended : (out : Bytes) → ◌≡◌ {A = Bool × Bytes} (true, out) (true, out ++ [])
ended out = ap (λ (ys : Bytes). (true, ys)) (sym (append-nil out))

module _ {b : Backend} {xs : Bytes} (copies : CopiesOut b xs) where
  checked_lem :
      (go : ℕ → Bool × Bytes) (n offset : ℕ)
      → 0 < n
      → offset + n ≤ length xs
      → checked go n offset b ≡ go n
  unfolding checked overflows
  checked_lem go n offset used fits =
      let size = copies.size_lem in
      let small = copies.small in
      let no_overflow : leb (2 ^ 64) (offset + n) ≡ false = ground arith in
      let some_bytes : (n == 0) ≡ false = ground arith in
      let no_overrun : ltb b.size (offset + n) ≡ false = ground arith in
      rw (no_overflow, some_bytes, no_overrun) refl

  copy_out_lem :
      (n offset : ℕ)
      → 0 < n
      → n < all_bytes
      → offset + n ≤ length xs
      → copy_out n offset b ≡ (true, take n (drop offset xs))
  unfolding copy_out ranged
  copy_out_lem n offset used small fits =
      let part : (n == all_bytes) ≡ false = ground arith in
      rw part (
        checked_lem (λ k. b.copy_out2 k offset) n offset used fits
        ∙ copies.copy_out2_lem n offset used fits)

  -- The loop adds the bytes of its range.
  string_loop_lem :
      (fuel bytes offset : ℕ) (out : Bytes)
      → bytes ≤ fuel
      → offset + bytes ≤ length xs
      → string_loop fuel bytes offset out b ≡ (true, out ++ take bytes (drop offset xs))
  unfolding string_loop
  string_loop_lem zero bytes offset out enough fits =
      let none_left : bytes ≡ 0 = omega arith in rw none_left (ended out)
  string_loop_lem (suc fuel) bytes offset out enough fits = elim (Bool-cases (bytes == 0)) [
    | inl none_left ↦ rw ((==_iff bytes 0).0 none_left) (ended out)
    | inr more ↦
        let n = if ltb 8192 bytes then 8192 else bytes in
        let cut : n ≤ bytes = ground arith in
        let used : 0 < n = ground arith in
        let block : n ≤ 8192 = ground arith in
        let whole : n + (bytes - n) ≡ bytes = omega arith in
        rw (more, copy_out_lem n offset used (omega arith) (omega arith), added)
          (string_loop_lem fuel (bytes - n) (offset + n) (out ++ take n (drop offset xs))
              (omega arith) (omega arith)
            ∙ ap (λ (ys : Bytes). (true, ys))
                (append_assoc out (take n (drop offset xs))
                    (take (bytes - n) (drop (offset + n) xs))
                  ∙ ap (λ (ys : Bytes). out ++ ys)
                      (ap (λ (ys : Bytes). take n (drop offset xs) ++ take (bytes - n) ys)
                          (sym (drop-drop offset n xs))
                        ∙ take_add n (bytes - n) (drop offset xs)
                        ∙ ap (λ (k : ℕ). take k (drop offset xs)) whole)))
  ]

  -- The string of all that lies behind an offset.
  copy_to_string_lem :
      (offset : ℕ) → offset ≤ length xs → copy_to_string all_bytes offset b ≡ (true, drop offset xs)
  unfolding copy_to_string ranged checked overflows
  copy_to_string_lem offset inside =
      let size = copies.size_lem in
      let small = copies.small in
      let n = b.size - offset in
      let start : ltb b.size offset ≡ false = ground arith in
      let whole : take n (drop offset xs) ≡ drop offset xs =
        take_all n (drop offset xs) (omega (arith, length-drop offset xs)) in
      elim (Bool-cases (n == 0)) [
        | inl empty ↦
            let no_overflow : leb (2 ^ 64) (offset + n) ≡ false = ground arith in
            let nothing : drop offset xs ≡ [] =
              drop_all offset xs (omega (arith, (==_iff n 0).0 empty)) in
            rw (start, empty, no_overflow, nothing) refl
        | inr more ↦ rw start (
            checked_lem (λ k. string_loop k k offset [] b) n offset (ground arith) (ground arith)
            ∙ string_loop_lem n n offset [] (omega arith) (ground arith)
            ∙ ap (λ (ys : Bytes). (true, ys)) whole)
      ]

chunks-CopiesOut :
    (container : Container)
    → IsPlaced container.chunks
    → IsCounted container
    → container.container_bytes < 2 ^ 64
    → CopiesOut (Lookup.backend container) (content container.chunks)
unfolding Lookup.backend
chunks-CopiesOut container placed counted small = record {
  size_lem = counted;
  small = omega arith;
  copy_out2_lem = λ bytes offset used fits.
      copy_out2-content bytes offset container placed counted small used (omega arith);
}

-- A container of chunks with their right offsets gives as a string, in blocks, all the bytes that lie
-- behind an offset.
pub to_string-chunks :
    (container : Container) (offset : ℕ)
    → IsPlaced container.chunks
    → IsCounted container
    → container.container_bytes < 2 ^ 64
    → offset ≤ container.container_bytes
    → to_string all_bytes offset (Lookup.backend container) ≡ drop offset (content container.chunks)
unfolding to_string
to_string-chunks container offset placed counted small inside =
    ap (λ (r : Bool × Bytes). r.1)
      (copy_to_string_lem (chunks-CopiesOut container placed counted small) offset (omega arith))
