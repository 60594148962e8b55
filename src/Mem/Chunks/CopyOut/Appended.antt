-- ===== src/Mem/Chunks/CopyOut/Appended.antt =====
-- Appending keeps the offsets of the chunks right.
use cx_framework.Base.{
  ℕ, zero, suc, ◌+◌, Bool, true, false, not, ◌&&◌, ◌≡◌, refl, inl, inr, List, [], ◌∷◌, ◌++◌, Bytes,
  length, take, ltb, ◌==◌, if◌then◌else◌, arith, Bool-cases,
}
use cx_framework.Mem.Memory.{overflows}
use cx_framework.Mem.Chunks.{
  Chunk, Container, Outcome, done, to_files, no_fuel, next_offset, put_chunk, end_offset,
  append_loop, finish, append2, add,
}
use cx_framework.Mem.Chunks.CopyOut.Placed.{IsPlacedFrom, IsPlaced}

-- An outcome that leaves the bytes in memory leaves them in chunks with their right offsets.
abbrev pub LeavesPlaced : Outcome → Type 0
LeavesPlaced (done c ok n) = IsPlaced c.chunks
LeavesPlaced to_files = Unit {0}
LeavesPlaced no_fuel = Unit {0}

either :
    (b : Bool) (x y : Outcome) → LeavesPlaced x → LeavesPlaced y → LeavesPlaced (if b then x else y)
either true x y h k = h
either false x y h k = k

-- A chunk behind the last one.
end_IsPlacedFrom :
    (start : ℕ) (c : Chunk) (cs : List Chunk) (d : Chunk)
    → IsPlacedFrom start (c ∷ cs)
    → d.offset ≡ end_offset (c ∷ cs)
    → IsPlacedFrom start (c ∷ (cs ++ d ∷ []))
unfolding end_offset next_offset
end_IsPlacedFrom start c [] d h e = (h.0, (omega (arith, h.0, e), tt))
end_IsPlacedFrom start c (b ∷ cs) d h e =
    (h.0, end_IsPlacedFrom (start + length c.bytes) b cs d h.1 e)

put_chunk-IsPlaced :
    (piece : Bytes) (cs : List Chunk) → IsPlaced cs → IsPlaced (put_chunk false piece cs)
unfolding put_chunk
put_chunk-IsPlaced piece [] h = unfold end_offset in (refl, tt)
put_chunk-IsPlaced piece (c ∷ cs) h = end_IsPlacedFrom 0 c cs _ h refl

append_loop-LeavesPlaced :
    (fuel : ℕ) (c : Container) (buf : Bytes) (appended : ℕ)
    → IsPlaced c.chunks
    → LeavesPlaced (append_loop fuel false c buf appended)
unfolding append_loop
append_loop-LeavesPlaced fuel c [] appended h = h
append_loop-LeavesPlaced zero c (b ∷ buf) appended h = tt
append_loop-LeavesPlaced (suc fuel) c (b ∷ buf) appended h =
    elim (Bool-cases (ltb c.max_chunks (length c.chunks + 1))) [
      | inl full ↦ rw full h
      | inr room ↦ rw room (
          append_loop-LeavesPlaced fuel _ _ _
            (put_chunk-IsPlaced (take c.max_chunk_size (b ∷ buf)) c.chunks h))
    ]

-- Appending to a container whose chunks have their right offsets leaves them right, whatever it
-- comes to, as long as the bytes stay in memory.
pub append-LeavesPlaced :
    (buf : Bytes) (c : Container) → IsPlaced c.chunks → LeavesPlaced (add false buf c)
unfolding add append2 finish
append-LeavesPlaced buf c h =
    let refused = done c false 0 in
    let loop = append_loop (length buf) false c buf 0 in
    let kept = append_loop-LeavesPlaced (length buf) c buf 0 h in
    let over = overflows (length buf) c.container_bytes in
    let to_fs = not (c.max_until_fs == 0) && ltb c.max_until_fs (length buf + c.container_bytes) in
    let written = if to_fs then to_files else loop in
    let checked = if over then refused else written in
    let some_bytes = if length buf == 0 then done c true 0 else checked in
    let too_large = ltb c.max_size (length buf + c.container_bytes) in
    let fitting = if too_large then refused else some_bytes in
    either c.read_only refused (if over then refused else fitting) h (
      either over refused fitting h (
        either too_large refused some_bytes h (
          either (length buf == 0) (done c true 0) checked h
            (either over refused written h (either to_fs to_files loop tt kept)))))
