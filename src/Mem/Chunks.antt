-- ===== src/Mem/Chunks.antt =====
-- cxMem/libcx_mem_containers/src: `BinaryContainerChunk` of binarycontainer_chunk.h and
-- `BinaryContainer_Chunks` of binarycontainer_chunks.cpp while it keeps its bytes in memory, with the
-- checks that binarycontainer_base.cpp makes before it calls them. Numbers are 64 bits wide, and the
-- sums that the code makes are tested against that width where the code tests them.
pub mod Content
pub mod Append
pub mod Front
pub mod Room
pub mod CopyOut
pub mod Lookup
mod Truncate
mod Tests
use cx_framework.Base.{
  ℕ, zero, suc, ◌+◌, ◌-◌, ◌*◌, ◌/◌, ◌%◌, ◌^◌, ◌≤◌, ◌<◌, Bool, true, false, not, ◌&&◌, ◌||◌, Option,
  none, some, List, [], ◌∷◌, ◌++◌, Bytes, length, take, drop, get_elem?, ltb, leb, ◌==◌,
  if◌then◌else◌,
}
use cx_framework.Mem.Memory.{overflows}

-- `data` with its `size`, and `offset`.
pub record Chunk : Type 0 where
  pub bytes : Bytes
  pub offset : ℕ

-- `size + offset`.
pub next_offset : Chunk → ℕ
next_offset c = length c.bytes + c.offset

pub contains_offset : Chunk → ℕ → Bool
unfolding next_offset
contains_offset c l_offset = leb c.offset l_offset && ltb l_offset (next_offset c)

-- `displace`: an empty chunk has no data.
pub displace_chunk : Chunk → ℕ → Chunk
displace_chunk c n =
    if n == 0
    then c
    else if leb (length c.bytes) n
    then record c { bytes = [] }
    else record c { bytes = drop n c.bytes }

-- The members of `BinaryContainer_Chunks` and `containerBytes`, `maxSize` and `readOnly` of its base.
pub record Container : Type 0 where
  pub chunks : List Chunk
  pub container_bytes : ℕ
  pub max_chunks : ℕ
  pub max_chunk_size : ℕ
  pub max_until_fs : ℕ
  pub max_size : ℕ
  pub read_only : Bool

-- The offset behind the last chunk.
pub end_offset : List Chunk → ℕ
unfolding next_offset
end_offset [] = 0
end_offset (c ∷ []) = next_offset c
end_offset (c ∷ d ∷ cs) = end_offset (d ∷ cs)

-- `recalcChunkOffsets`: the pointer is set to the first chunk and stays there, while the rounds go
-- over all positions.
recalc_rounds : ℕ → ℕ → Chunk → Chunk
unfolding next_offset
recalc_rounds zero current c = c
recalc_rounds (suc n) current c =
    let c' = record c { offset = current } in recalc_rounds n (next_offset c') c'

pub recalc_chunk_offsets : List Chunk → List Chunk
unfolding recalc_rounds
recalc_chunk_offsets [] = []
recalc_chunk_offsets (c ∷ cs) = recalc_rounds (length (c ∷ cs)) 0 c ∷ cs

-- A new chunk in its place: behind the last one, or before the first, where its offset stays 0.
pub put_chunk : Bool → Bytes → List Chunk → List Chunk
unfolding end_offset
put_chunk false piece cs = cs ++ record { bytes = piece; offset = end_offset cs } ∷ []
put_chunk true piece cs = record { bytes = piece; offset = 0 } ∷ cs

-- What a call came to: the container, `first` and `second` of the pair.
pub data Outcome : Type 0 where
  done : Container → Bool → ℕ → Outcome
  to_files : Outcome
  no_fuel : Outcome

-- The loop of `append2` on what is left of the buffer. It takes `max_chunk_size` bytes at a time, so
-- that as many rounds as there are bytes are enough if that is not 0.
pub append_loop : ℕ → Bool → Container → Bytes → ℕ → Outcome
unfolding put_chunk
append_loop fuel prepend c [] appended = done c true appended
append_loop zero prepend c (b ∷ buf) appended = no_fuel
append_loop (suc fuel) prepend c (b ∷ buf) appended =
    let piece = take c.max_chunk_size (b ∷ buf) in
    let rest =
      append_loop fuel prepend
        (record c {
          chunks = put_chunk prepend piece c.chunks;
          container_bytes = c.container_bytes + length piece;
        })
        (drop c.max_chunk_size (b ∷ buf)) (appended + length piece) in
    if ltb c.max_chunks (length c.chunks + 1) then done c false appended else rest

-- `if (prependMode) recalcChunkOffsets();` before the last return.
finish : Bool → Outcome → Outcome
unfolding recalc_chunk_offsets
finish true (done c true appended) =
    done (record c { chunks = recalc_chunk_offsets c.chunks }) true appended
finish prepend outcome = outcome

-- `append2`; `to_files` is the move to a mapped file.
pub append2 : Bytes → Bool → Container → Outcome
unfolding append_loop finish overflows
append2 buf prepend c =
    if overflows (length buf) c.container_bytes
    then done c false 0
    else if not (c.max_until_fs == 0) && ltb c.max_until_fs (length buf + c.container_bytes)
    then to_files
    else finish prepend (append_loop (length buf) prepend c buf 0)

-- `append` and `prepend` of the base.
pub add : Bool → Bytes → Container → Outcome
unfolding overflows
add prepend buf c =
    if c.read_only
    then done c false 0
    else if overflows (length buf) c.container_bytes
    then done c false 0
    else if ltb c.max_size (length buf + c.container_bytes)
    then done c false 0
    else if length buf == 0
    then done c true 0
    else append2 buf prepend c

-- The loop of `displace2`: the chunks, `containerBytes` and what has been displaced.
displace_loop : List Chunk → ℕ → ℕ → ℕ → List Chunk × ℕ × ℕ × Bool
unfolding displace_chunk
displace_loop [] left bytes displaced = ([], bytes, displaced, left == 0)
displace_loop (c ∷ cs) left bytes displaced =
    let next_chunk =
      displace_loop cs (left - length c.bytes) (bytes - length c.bytes)
        (displaced + length c.bytes) in
    if left == 0
    then (c ∷ cs, bytes, displaced, true)
    else if leb (length c.bytes) left
    then next_chunk
    else (displace_chunk c left ∷ cs, bytes - left, displaced + left, true)

-- `displace2`: the offsets are computed again only if the loop came to its end.
pub displace2 : ℕ → Container → Container × ℕ
unfolding displace_loop recalc_chunk_offsets
displace2 n c =
    let (cs, bytes, displaced, complete) = displace_loop c.chunks n c.container_bytes 0 in
    (
      record c {
        chunks = if complete then recalc_chunk_offsets cs else cs;
        container_bytes = bytes;
      },
      displaced,
    )

-- `displace` of the base.
pub displace : ℕ → Container → Container × ℕ
displace n c = displace2 (if ltb c.container_bytes n then c.container_bytes else n) c

-- The loop that `copyTo2` and `copyToStream2` share: the pieces of the chunks that are handed on.
copy_pieces : List Chunk → ℕ → ℕ → List Bytes
copy_pieces [] offset left = []
copy_pieces (c ∷ cs) offset left =
    let piece = take left (drop offset c.bytes) in
    let skip = copy_pieces cs (offset - length c.bytes) left in
    let more = copy_pieces cs 0 (left - length piece) in
    if ltb (length c.bytes) offset
    then skip
    else if left - length piece == 0
    then piece ∷ []
    else piece ∷ more

-- `copyTo2` and `copyToStream2` up to the writes: none for an error, else the pieces to be written.
pub copy_to2 : ℕ → ℕ → Container → Option (List Bytes)
unfolding copy_pieces overflows
copy_to2 bytes offset c =
    if bytes == 0
    then some []
    else if overflows offset bytes
    then none
    else if ltb c.container_bytes offset
    then none
    else some (
        copy_pieces c.chunks offset
          (if ltb c.container_bytes (offset + bytes) then c.container_bytes - offset else bytes))
