-- ===== src/Mem/Chunks/CopyOut.antt =====
-- binarycontainer_chunks.cpp: `copyOut2` and its search for the chunk of an offset,
-- `I_Chunk_GetPosForOffset`.
pub mod Placed
pub mod Ranges
pub mod Appended
use cx_framework.Base.{
  ℕ, zero, suc, ◌+◌, ◌-◌, ◌*◌, ◌/◌, ◌%◌, Bool, true, false, ◌&&◌, ◌||◌, Option, none, some, List,
  [], ◌∷◌, ◌++◌, Bytes, length, take, drop, get_elem?, ltb, leb, ◌==◌, if◌then◌else◌,
}
use cx_framework.Mem.Memory.{overflows}
use cx_framework.Mem.Chunks.{Chunk, next_offset, contains_offset, Container}

-- A place in the vector, `MAX_SIZE_T`, or an access outside the vector.
pub data Place : Type 0 where
  place : ℕ → Place
  max_size_t : Place
  stray : Place

-- The place to look at next between two places.
middle : ℕ → ℕ → ℕ
middle curmin curmax =
    if curmin == curmax then curmin else curmin + (curmax + 1 - curmin) / 2 - (curmax - curmin) % 2

-- One call of the search: the chunk at `curpos`, and what the calls below and above it give.
look : Option Chunk → ℕ → ℕ → ℕ → ℕ → Place → Place → Place
unfolding contains_offset
look none offset curpos curmax curmin below above = stray
look (some chunk) offset curpos curmax curmin below above =
    if contains_offset chunk offset
    then place curpos
    else if ltb offset chunk.offset
    then (if curpos == curmin then max_size_t else below)
    else if curpos == curmax
    then max_size_t
    else above

-- `I_Chunk_GetPosForOffset` with its boundaries. The range gets smaller with every call, so that as
-- many calls as there are chunks are enough.
search_place : ℕ → List Chunk → ℕ → ℕ → ℕ → ℕ → Place
unfolding look middle
search_place zero cs offset curpos curmax curmin = stray
search_place (suc fuel) cs offset curpos curmax curmin =
    look (get_elem? cs curpos) offset curpos curmax curmin
      (search_place fuel cs offset (middle curmin (curpos - 1)) (curpos - 1) curmin)
      (search_place fuel cs offset (middle (curpos + 1) curmax) curmax (curpos + 1))

-- The first call.
unfoldable pub pos_for_offset : List Chunk → ℕ → Place
unfolding search_place
pos_for_offset [] offset = max_size_t
pos_for_offset cs offset =
    let n = length cs in
    search_place n cs offset (if n == 1 then 0 else n / 2 - 1) (if n == 1 then 0 else n - 1) 0

-- The loop of `copyOut2`: the bytes that it copies, from what is left of the current chunk and from
-- the chunks behind it.
copy_out_loop : Bytes → List Chunk → ℕ → Bytes
copy_out_loop piece [] bytes = if ltb (length piece) bytes then piece else take bytes piece
copy_out_loop piece (c ∷ cs) bytes =
    let rest = copy_out_loop c.bytes cs (bytes - length piece) in
    if ltb (length piece) bytes then piece ++ rest else take bytes piece

-- The copy from a place, behind `moveToOffset`.
copy_from : List Chunk → ℕ → ℕ → Bool × Bytes
unfolding copy_out_loop
copy_from [] offset bytes = (false, [])
copy_from (c ∷ cs) offset bytes = (true, copy_out_loop (drop (offset - c.offset) c.bytes) cs bytes)

copy_at : Place → List Chunk → ℕ → ℕ → Bool × Bytes
unfolding copy_from
copy_at (place i) cs offset bytes = copy_from (drop i cs) offset bytes
copy_at max_size_t cs offset bytes = (false, [])
copy_at stray cs offset bytes = (false, [])

pub copy_out2 : ℕ → ℕ → Container → Bool × Bytes
unfolding pos_for_offset copy_at
copy_out2 bytes offset container =
    if overflows offset bytes
    then (false, [])
    else if bytes == 0
    then (true, [])
    else if ltb container.container_bytes (offset + bytes)
    then (false, [])
    else copy_at (pos_for_offset container.chunks offset) container.chunks offset bytes
