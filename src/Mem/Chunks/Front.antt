-- ===== src/Mem/Chunks/Front.antt =====
-- What becomes of the front of a container: bytes put before it, and the offsets computed anew.
use cx_framework.Base.{
  take_all, drop_all, ℕ, zero, suc, ◌+◌, ◌-◌, ◌*◌, ◌^◌, ◌≤◌, ◌<◌, true, false, ◌≡◌, ◌⊎◌, refl, ap,
  ◌∙◌, List, [], ◌∷◌, ◌++◌, Bytes, length, take, drop, length-drop, length-take, ltb, ◌==◌, arith,
}
use cx_framework.Mem.Chunks.{
  Chunk, Container, done, next_offset, recalc_rounds, recalc_chunk_offsets, put_chunk, append_loop,
  finish, append2, add,
}
use cx_framework.Mem.Chunks.Content.{content, content-recalc_chunk_offsets}
use cx_framework.Mem.Memory.{overflows}

recalc_rounds_offset :
    (n current : ℕ) (c : Chunk)
    → recalc_rounds (suc n) current c ≡ record c { offset = current + n * length c.bytes }
unfolding recalc_rounds next_offset
recalc_rounds_offset zero current c = ap (λ (o : ℕ). record c { offset = o }) (omega arith)
recalc_rounds_offset (suc n) current c =
    recalc_rounds_offset n (length c.bytes + current) (record c { offset = current })
    ∙ ap (λ (o : ℕ). record c { offset = o }) (grind arith)

-- `recalcChunkOffsets` changes the offset of the first chunk alone, to its size times the number of
-- the other chunks: it is 0, as it should be, only for a single chunk or an empty first one, and the
-- others keep what they had before bytes were put before them or removed.
pub recalc_chunk_offsets_lem :
    (c : Chunk) (cs : List Chunk)
    → recalc_chunk_offsets (c ∷ cs) ≡ record c { offset = length cs * length c.bytes } ∷ cs
unfolding recalc_chunk_offsets
recalc_chunk_offsets_lem c cs =
    ap (λ (d : Chunk). d ∷ cs)
      (recalc_rounds_offset (length cs) 0 c ∙ ap (λ (o : ℕ). record c { offset = o }) (omega arith))

-- The container after one round at its front.
abbrev fronted : Container → Bytes → Container
fronted c piece = record c {
  chunks = put_chunk true piece c.chunks;
  container_bytes = c.container_bytes + length piece;
}

loop_ends : (fuel : ℕ) (c : Container) (k : ℕ) → append_loop fuel true c [] k ≡ done c true k
unfolding append_loop
loop_ends zero c k = refl
loop_ends (suc fuel) c k = refl

-- One round, where the number of chunks allows it.
loop_goes_on :
    (fuel : ℕ) (c : Container) (buf : Bytes) (k : ℕ)
    → 0 < length buf
    → length c.chunks + 1 ≤ c.max_chunks
    → append_loop (suc fuel) true c buf k
      ≡ append_loop fuel true
          (fronted c (take c.max_chunk_size buf))
          (drop c.max_chunk_size buf)
          (k + length (take c.max_chunk_size buf))
unfolding append_loop
loop_goes_on fuel c [] k h room = absurd (omega arith)
loop_goes_on fuel c (b ∷ buf) k h room =
    let free : ltb c.max_chunks (length c.chunks + 1) ≡ false = ground arith in rw free refl

-- Two rounds that take all of the buffer.
two_rounds :
    (fuel : ℕ) (c : Container) (buf : Bytes)
    → c.max_chunk_size < length buf
    → length buf ≤ c.max_chunk_size + c.max_chunk_size
    → length c.chunks + 2 ≤ c.max_chunks
    → append_loop (suc (suc fuel)) true c buf 0
      ≡ done
          (fronted (fronted c (take c.max_chunk_size buf)) (drop c.max_chunk_size buf))
          true
          (length buf)
unfolding put_chunk
two_rounds fuel c buf long short room =
    let m = c.max_chunk_size in
    let rest = drop m buf in
    let c₁ = fronted c (take m buf) in
    let nothing : drop m rest ≡ [] = drop_all m rest (omega (arith, length-drop m buf)) in
    let whole : take m rest ≡ rest = take_all m rest (omega (arith, length-drop m buf)) in
    let size : (0 + length (take m buf)) + length rest ≡ length buf =
      omega (arith, length-drop m buf, length-take m buf) in
    loop_goes_on (suc fuel) c buf 0 (omega arith) (omega arith)
    ∙ loop_goes_on fuel c₁ rest (0 + length (take m buf)) (omega (arith, length-drop m buf))
        (omega arith)
    ∙ ap
        (λ (x : Bytes).
          append_loop fuel true (fronted c₁ (take m rest)) x
            (0 + length (take m buf) + length (take m rest)))
        nothing
    ∙ loop_ends fuel (fronted c₁ (take m rest)) (0 + length (take m buf) + length (take m rest))
    ∙ ap (λ (x : Bytes). done (fronted c₁ x) true (0 + length (take m buf) + length x)) whole
    ∙ ap (λ (n : ℕ). done (fronted c₁ rest) true n) size

module _ (buf : Bytes) (c : Container) (w : c.read_only ≡ false)
    (small : length buf + c.container_bytes < 2 ^ 64)
    (fits : length buf + c.container_bytes ≤ c.max_size)
    (memory : (c.max_until_fs ≡ 0) ⊎ (length buf + c.container_bytes ≤ c.max_until_fs)) where
  prepend_loops :
      (length buf == 0) ≡ false
      → add true buf c ≡ finish true (append_loop (length buf) true c buf 0)
  unfolding add append2 overflows
  prepend_loops e = ground arith

  -- `prepend` of a buffer of more than one and at most two chunks, to a container that has the room
  -- for it in memory, reports success and puts the two chunks before the others in the wrong order:
  -- what lies behind the first chunk's size comes first.
  pub prepend_two_chunks :
      c.max_chunk_size < length buf
      → length buf ≤ c.max_chunk_size + c.max_chunk_size
      → length c.chunks + 2 ≤ c.max_chunks
      → (c' : Container) × (add true buf c ≡ done c' true (length buf))
        × (content c'.chunks
            ≡ drop c.max_chunk_size buf ++ (take c.max_chunk_size buf ++ content c.chunks))
  unfolding finish content put_chunk
  prepend_two_chunks long short room =
      let m = c.max_chunk_size in
      let c₂ = fronted (fronted c (take m buf)) (drop m buf) in
      let fuel : length buf ≡ suc (suc (length buf - 2)) = omega arith in
      (
        record c₂ { chunks = recalc_chunk_offsets c₂.chunks },
        prepend_loops (ground arith)
            ∙ ap (finish true) (
                ap (λ (f : ℕ). append_loop f true c buf 0) fuel
                ∙ two_rounds (length buf - 2) c buf long short room),
        content-recalc_chunk_offsets c₂.chunks,
      )
