-- ===== src/Mem/Chunks/Lookup.antt =====
-- binarycontainer_chunks.cpp: `findChar` and `compare2` of `BinaryContainer_Chunks`, and the container
-- as the base's `compare` and `find` see it.
pub mod AsBytes
pub mod Compare
pub mod Agrees
use cx_framework.Base.{
  ℕ, zero, suc, ◌+◌, ◌-◌, Bool, true, false, ◌||◌, Option, none, some, List, [], ◌∷◌, Bytes, length,
  take, drop, ltb, leb, ◌==◌, if◌then◌else◌,
}
use cx_framework.Mem.Memory.{overflows, memicmp2}
use cx_framework.Mem.Search.{Found, found, missing, invalid, find_in, Backend}
use cx_framework.Mem.Chunks.{Chunk, Container}
use cx_framework.Mem.Chunks.CopyOut.{copy_out2}

-- The end of a round of `findChar` over a piece of `size` bytes, at `at` in the container.
searched : Option ℕ → ℕ → ℕ → ℕ → Found → Found
searched (some p) at search_space size rest = found (p + at)
searched none at search_space size rest = if ltb size search_space then rest else missing

-- The loop of `findChar`, with `retpos`.
pub find_char_loop : Bool → ℕ → List Chunk → ℕ → ℕ → ℕ → Found
unfolding searched
find_char_loop case_sensitive c [] offset search_space retpos = missing
find_char_loop case_sensitive c (chunk ∷ cs) offset search_space retpos =
    let size = length chunk.bytes in
    let piece = drop offset chunk.bytes in
    let skip = find_char_loop case_sensitive c cs (offset - size) search_space (retpos + size) in
    let rest = find_char_loop case_sensitive c cs 0 (search_space - length piece) (retpos + size) in
    if ltb size offset
    then skip
    else searched
        (find_in case_sensitive c piece
          (if ltb (length piece) search_space then length piece else search_space))
        (offset + retpos) search_space (length piece) rest

pub find_char : Bool → ℕ → ℕ → ℕ → Container → Found
unfolding find_char_loop
find_char case_sensitive c offset search_space container =
    if overflows offset search_space
    then invalid
    else if ltb container.container_bytes offset
        || ltb container.container_bytes (offset + search_space)
    then invalid
    else find_char_loop case_sensitive c container.chunks offset search_space 0

-- The end of a round of `compare2`, which left `left` bytes to compare.
compared : Option Bool → ℕ → Option Bool → Option Bool
compared none left rest = none
compared (some false) left rest = some false
compared (some true) left rest = if left == 0 then some true else rest

-- The loop of `compare2` on what is left of the buffer.
pub compare_loop : Bool → List Chunk → ℕ → Bytes → Option Bool
unfolding compared
compare_loop case_sensitive [] offset buf = some (length buf == 0)
compare_loop case_sensitive (chunk ∷ cs) offset buf =
    let piece = drop offset chunk.bytes in
    let n = if ltb (length piece) (length buf) then length piece else length buf in
    let skip = compare_loop case_sensitive cs (offset - length chunk.bytes) buf in
    let rest = compare_loop case_sensitive cs 0 (drop n buf) in
    if ltb (length chunk.bytes) offset
    then skip
    else compared (memicmp2 piece buf n case_sensitive) (length buf - n) rest

pub compare2 : Bytes → Bool → ℕ → Container → Option Bool
unfolding compare_loop
compare2 buf case_sensitive offset container =
    if overflows offset (length buf)
    then some false
    else if length buf == 0
    then some true
    else if ltb container.container_bytes (offset + length buf)
    then some false
    else compare_loop case_sensitive container.chunks offset buf

-- The container behind the virtual functions.
unfoldable pub backend : Container → Backend
unfolding find_char compare2
backend container = record {
  size = container.container_bytes;
  find_char = λ case_sensitive c offset search_space.
      find_char case_sensitive c offset search_space container;
  compare2 = λ buf case_sensitive offset. compare2 buf case_sensitive offset container;
  copy_out2 = λ bytes offset. copy_out2 bytes offset container;
}
