-- ===== src/Mem/Chunks/Truncate.antt =====
-- cxMem/libcx_mem_containers/src: `truncate2` of binarycontainer_chunks.cpp with the check of
-- binarycontainer_base.cpp before it, and `truncate` of a chunk in binarycontainer_chunk.h.
mod Tests
use cx_framework.Base.{
  ℕ, zero, suc, ◌+◌, ◌-◌, Bool, true, false, ◌||◌, Option, none, some, ◌>>=◌, List, [], ◌∷◌, Bytes,
  length, take, drop, ltb, leb, ◌==◌, ◌++◌, if◌then◌else◌,
}
use cx_framework.Mem.Chunks.{Chunk, next_offset, Container}
use cx_framework.Mem.Chunks.CopyOut.{Place, place, max_size_t, stray, pos_for_offset}

-- `truncate` of a chunk: nothing happens at its own offset. A size below it wraps around, which is
-- none.
pub truncate_chunk : ℕ → Chunk → Option Chunk
unfolding next_offset
truncate_chunk n c =
    if leb (next_offset c) n
    then some c
    else if n == 0 || n == c.offset
    then some c
    else if ltb n c.offset
    then none
    else some (record c { bytes = take (n - c.offset) c.bytes })

-- The chunk at a place, changed; outside the vector there is none.
change_at : (Chunk → Option Chunk) → ℕ → List Chunk → Option (List Chunk)
change_at f i [] = none
change_at f zero (c ∷ cs) = f c >>= λ c'. some (c' ∷ cs)
change_at f (suc i) (c ∷ cs) = change_at f i cs >>= λ cs'. some (c ∷ cs')

-- The loop with its `i`: each round destroys what is at the first place and erases what is at `i`.
erase_loop : ℕ → ℕ → ℕ → List Chunk → Option (List Chunk)
unfolding change_at
erase_loop zero ival i cs = if ltb i (length cs) then none else some cs
erase_loop (suc fuel) ival i cs =
    let rest = change_at (λ c. some (record c { bytes = [] })) ival cs >>= λ cs'.
    erase_loop fuel ival (i + 1) (take i cs' ++ drop (i + 1) cs') in
    if ltb i (length cs) then rest else some cs

-- `truncate2` from the place on; the size that it returns is the count, which stays as it was.
truncate_at : Place → ℕ → Container → Option (Container × Bool × ℕ)
unfolding erase_loop truncate_chunk
truncate_at max_size_t bytes c = some (c, false, 0)
truncate_at stray bytes c = none
truncate_at (place ival) bytes c = change_at (truncate_chunk bytes) ival c.chunks >>= λ cut.
    erase_loop (length cut) ival ival cut >>= λ left.
    some (record c { chunks = left }, true, c.container_bytes)

pub truncate2 : ℕ → Container → Option (Container × Bool × ℕ)
unfolding truncate_at pos_for_offset
truncate2 bytes c = truncate_at (pos_for_offset c.chunks bytes) bytes c

-- `truncate` of the base.
pub truncate : ℕ → Container → Option (Container × Bool × ℕ)
unfolding truncate2
truncate bytes c =
    if leb c.container_bytes bytes then some (c, false, c.container_bytes) else truncate2 bytes c
