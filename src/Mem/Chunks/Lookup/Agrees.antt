-- ===== src/Mem/Chunks/Lookup/Agrees.antt =====
-- A container of chunks behaves as the string of its bytes.
use cx_framework.Base.{
  ℕ, ◌+◌, ◌-◌, ◌^◌, ◌≤◌, ◌<◌, Bool, false, ◌&&◌, ◌||◌, ◌≡◌, ap, ◌∙◌, some, Bytes, length, take,
  drop, ltb, leb, length-drop, arith,
}
use cx_framework.Mem.Memory.{overflows, block}
use cx_framework.Mem.Memory.Same.{same}
use cx_framework.Mem.Search.{memchr}
use cx_framework.Mem.Search.First.{wanted, at_offset, Holds}
use cx_framework.Mem.Chunks.{Container}
use cx_framework.Mem.Chunks.Content.{content, IsCounted}
use cx_framework.Mem.Chunks.Lookup.{find_char, compare2, backend}
use cx_framework.Mem.Chunks.Lookup.AsBytes.{find_char_loop_lem}
use cx_framework.Mem.Chunks.Lookup.Compare.{compare_loop_lem}

module _ (container : Container) (counted : IsCounted container)
    (small : container.container_bytes < 2 ^ 64) where
  abbrev bytes : Bytes
  bytes = content container.chunks

  find_char-memchr :
      (case_sensitive : Bool) (c offset : ℕ)
      → offset ≤ length bytes
      → find_char case_sensitive c offset (length bytes - offset) container
        ≡ at_offset offset
            (memchr (drop offset bytes) (wanted case_sensitive c) (length (drop offset bytes)))
  unfolding find_char overflows
  find_char-memchr case_sensitive c offset inside =
      let n = length bytes - offset in
      let no_overflow : leb (2 ^ 64) (offset + n) ≡ false = ground arith in
      let no_overrun : ltb container.container_bytes offset
            || ltb container.container_bytes (offset + n)
          ≡ false =
        ground arith in
      let at_start : offset + 0 ≡ offset = omega arith in
      rw (no_overflow, no_overrun, length-drop offset bytes)
        (find_char_loop_lem case_sensitive c container.chunks offset n 0
          ∙ ap (λ (at : ℕ). at_offset at (memchr (drop offset bytes) (wanted case_sensitive c) n))
              at_start)

  compare2-same :
      (mem : Bytes) (case_sensitive : Bool) (offset : ℕ)
      → 0 < length mem
      → length mem ≤ block
      → offset ≤ length bytes
      → compare2 mem case_sensitive offset container
        ≡ some (
            leb (length mem) (length (drop offset bytes))
            && same case_sensitive (take (length mem) (drop offset bytes)) mem)
  unfolding compare2 overflows
  compare2-same mem case_sensitive offset used short inside = ground (
    arith,
    length-drop offset bytes,
    compare_loop_lem case_sensitive container.chunks offset mem used short,
  )

  -- The interface of a search, met by the chunks: a container of fewer than 2^64 bytes whose count
  -- of them is right.
  pub backend-Holds : Holds (backend container) bytes
  unfolding backend
  backend-Holds = record {
    size_lem = counted;
    small = omega arith;
    find_char_lem = find_char-memchr;
    compare2_lem = compare2-same;
  }
