-- ===== src/Mem/Linear/Agrees.antt =====
-- A view of memory behaves as the string of its bytes, and so as chunks that hold the same.
use cx_framework.Base.{
  ℕ, zero, suc, ◌+◌, ◌-◌, ◌^◌, ◌≤◌, ◌<◌, Bool, false, ◌&&◌, ◌≡◌, refl, sym, ap, ◌∙◌, inl, inr,
  Option, none, some, [], ◌∷◌, Bytes, length, take, drop, ltb, leb, ◌==◌, if◌then◌else◌,
  length-take, length-drop, take_all, ==_iff, arith, Bool-cases,
}
use cx_framework.Mem.Memory.{overflows, block}
use cx_framework.Mem.Memory.Same.{same, memicmp2-same}
use cx_framework.Mem.Search.{memchr, find}
use cx_framework.Mem.Search.First.{
  wanted, find_in_lem, first_match, at_offset, Holds, find-first_match,
}
use cx_framework.Mem.Chunks.{Container}
use cx_framework.Mem.Chunks.Content.{content, IsCounted}
use cx_framework.Mem.Chunks.Lookup
use cx_framework.Mem.Chunks.Lookup.Agrees
use cx_framework.Mem.Linear.{Linear, position, find_char, compare2, backend}

-- The bytes that a view shows.
unfoldable pub view : Linear → Bytes
view m = take m.container_bytes m.linear_mem

-- The view lies in the memory.
abbrev pub IsInside : Linear → Type 0
IsInside m = m.container_bytes ≤ length m.linear_mem

-- Reading a range of a prefix is reading the range.
take-drop-take :
    (n offset size : ℕ) (xs : Bytes)
    → offset + n ≤ size
    → take n (drop offset (take size xs)) ≡ take n (drop offset xs)
take-drop-take zero offset size xs h = refl
take-drop-take (suc n) offset zero xs h = absurd (omega arith)
take-drop-take (suc n) zero (suc size) [] h = refl
take-drop-take (suc n) zero (suc size) (x ∷ xs) h =
    ap (◌∷◌ x) (take-drop-take n 0 size xs (omega arith))
take-drop-take (suc n) (suc offset) (suc size) [] h = refl
take-drop-take (suc n) (suc offset) (suc size) (x ∷ xs) h =
    take-drop-take (suc n) offset size xs (omega arith)

memchr-take :
    (n offset size w : ℕ) (xs : Bytes)
    → offset + n ≤ size
    → memchr (drop offset (take size xs)) w n ≡ memchr (drop offset xs) w n
unfolding memchr
memchr-take zero offset size w xs h = refl
memchr-take (suc n) offset zero w xs h = absurd (omega arith)
memchr-take (suc n) zero (suc size) w [] h = refl
memchr-take (suc n) zero (suc size) w (x ∷ xs) h =
    ground (arith, memchr-take n 0 size w xs (omega arith))
memchr-take (suc n) (suc offset) (suc size) w [] h = refl
memchr-take (suc n) (suc offset) (suc size) w (x ∷ xs) h =
    memchr-take (suc n) offset size w xs (omega arith)

same_place : (offset : ℕ) (o : Option ℕ) → position offset o ≡ at_offset offset o
unfolding position
same_place offset none = refl
same_place offset (some p) = refl

no_bytes : (c n : ℕ) (xs : Bytes) → n ≡ 0 → memchr xs c n ≡ none
unfolding memchr
no_bytes c n xs e = rw e refl

length-view : (m : Linear) → IsInside m → length (view m) ≡ m.container_bytes
unfolding view
length-view m inside = omega (arith, length-take m.container_bytes m.linear_mem)

module _ (m : Linear) (inside : IsInside m) (small : m.container_bytes < 2 ^ 64) where
  find_char-memchr :
      (case_sensitive : Bool) (c offset : ℕ)
      → offset ≤ length (view m)
      → find_char case_sensitive c offset (length (view m) - offset) m
        ≡ at_offset offset (
            memchr (drop offset (view m)) (wanted case_sensitive c) (length (drop offset (view m))))
  unfolding find_char position overflows
  find_char-memchr case_sensitive c offset start =
      let n = length (view m) - offset in
      let w = wanted case_sensitive c in
      let size = length-view m inside in
      let no_overflow : leb (2 ^ 64) (offset + n) ≡ false = ground arith in
      let no_overrun : ltb m.container_bytes (offset + n) ≡ false = ground arith in
      let space : (if n == 0 then m.container_bytes - offset else n) ≡ n = ground arith in
      let prefix : memchr (drop offset (view m)) w n ≡ memchr (drop offset m.linear_mem) w n =
        unfold view in memchr-take n offset m.container_bytes w m.linear_mem (omega arith) in
      elim (Bool-cases (m.container_bytes == 0)) [
        | inl empty ↦
            rw
              (
                empty,
                no_bytes w (length (drop offset (view m))) (drop offset (view m)) (
                    omega (
                      arith,
                      length-drop offset (view m),
                      size,
                      (==_iff m.container_bytes 0).0 empty,
                    )),
              )
              refl
        | inr used ↦
            rw
              (
                used,
                no_overflow,
                no_overrun,
                space,
                length-drop offset (view m),
                prefix,
                find_in_lem case_sensitive c (drop offset m.linear_mem) n,
              )
              (same_place offset (memchr (drop offset m.linear_mem) w n))
      ]

  compare2-same :
      (mem : Bytes) (case_sensitive : Bool) (offset : ℕ)
      → 0 < length mem
      → length mem ≤ block
      → offset ≤ length (view m)
      → compare2 mem case_sensitive offset m
        ≡ some (
            leb (length mem) (length (drop offset (view m)))
            && same case_sensitive (take (length mem) (drop offset (view m))) mem)
  unfolding compare2 overflows
  compare2-same mem case_sensitive offset used short start =
      let n = length mem in
      let size = length-view m inside in
      elim (Bool-cases (leb n (length (drop offset (view m))))) [
        | inr over ↦ rw over (ground (arith, length-drop offset (view m)))
        | inl fits ↦
            let enough : offset + n ≤ m.container_bytes =
              ground (arith, length-drop offset (view m)) in
            let no_overflow : leb (2 ^ 64) (offset + n) ≡ false = ground arith in
            let no_overrun : ltb m.container_bytes (offset + n) ≡ false = ground arith in
            let some_bytes : (n == 0) ≡ false = ground arith in
            let prefix : take n (drop offset (view m)) ≡ take n (drop offset m.linear_mem) =
              unfold view in take-drop-take n offset m.container_bytes m.linear_mem enough in
            rw
              (
                fits,
                no_overflow,
                no_overrun,
                some_bytes,
                prefix,
                memicmp2-same n (drop offset m.linear_mem) mem case_sensitive short
                    (omega (arith, length-drop offset m.linear_mem)) (omega arith),
                take_all n mem (omega arith),
              )
              refl
      ]

  pub backend-Holds : Holds (backend m) (view m)
  unfolding backend
  backend-Holds = record {
    size_lem = sym (length-view m inside);
    small = omega (arith, length-view m inside);
    find_char_lem = find_char-memchr;
    compare2_lem = compare2-same;
  }

-- Over a view of memory and over chunks that hold the same bytes, `find` from an offset comes to the
-- same, for a needle of one byte to one block that is not longer than what lies behind the offset.
pub find_agrees :
    (m : Linear) (container : Container)
    → IsInside m
    → IsCounted container
    → container.container_bytes < 2 ^ 64
    → view m ≡ content container.chunks
    → (needle : Bytes) (case_sensitive : Bool) (offset : ℕ) → 0 < length needle
    → length needle ≤ block
    → offset + length needle ≤ container.container_bytes
    → find needle case_sensitive offset 0 (backend m)
      ≡ find needle case_sensitive offset 0 (Lookup.backend container)
find_agrees m container inside counted small agree needle case_sensitive offset used short fits =
    let size = ap (length {0}) agree in
    let counted_m : m.container_bytes ≡ container.container_bytes =
      omega (arith, length-view m inside, size) in
    find-first_match (backend-Holds m inside (omega arith)) needle case_sensitive offset used short
      (omega arith)
    ∙ ap
        (λ (xs : Bytes).
          some (at_offset offset (first_match case_sensitive needle (drop offset xs))))
        agree
    ∙ sym (
        find-first_match (Agrees.backend-Holds container counted small) needle case_sensitive offset
          used short (omega arith))
