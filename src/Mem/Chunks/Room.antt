-- ===== src/Mem/Chunks/Room.antt =====
-- Appending to a container that has the room for it.
use cx_framework.Base.{
  ℕ, zero, suc, ◌+◌, ◌^◌, ◌≤◌, ◌<◌, true, false, ◌≡◌, ◌⊎◌, refl, sym, ap, subst, ◌∙◌, List, [], ◌∷◌,
  ◌++◌, append_assoc, append-nil, Bytes, length, take, drop, length-append, length-take,
  length-drop, ltb, arith,
}
use cx_framework.Mem.Chunks.{Chunk, Container, Outcome, done, put_chunk, append_loop, add}
use cx_framework.Mem.Chunks.Content.{content, IsCounted}
use cx_framework.Mem.Chunks.Append.{add_empty, add_loops, content-put_back, grown, grown-IsCounted}

-- The container can take `n` more bytes, each in a chunk of its own if need be, and stay in memory.
pub record HasRoom (c : Container) (n : ℕ) : Type 0 where
  pub chunked : 0 < c.max_chunk_size
  pub writable : c.read_only ≡ false
  pub counted : IsCounted c
  pub small : n + c.container_bytes < 2 ^ 64
  pub fits : n + c.container_bytes ≤ c.max_size
  pub memory : (c.max_until_fs ≡ 0) ⊎ (n + c.container_bytes ≤ c.max_until_fs)
  pub chunks_left : length c.chunks + n ≤ c.max_chunks

-- An append of all the bytes, which leaves room for `r` more.
abbrev pub AddsAll : Container → Bytes → ℕ → ℕ → Outcome → Type 0
AddsAll c buf r n o =
    (c' : Container) × (o ≡ done c' true n)
    × (content c'.chunks ≡ content c.chunks ++ buf)
    × HasRoom c' r

pub take-drop_whole : (n : ℕ) (xs : Bytes) → take n xs ++ drop n xs ≡ xs
take-drop_whole zero xs = refl
take-drop_whole (suc n) [] = refl
take-drop_whole (suc n) (x ∷ xs) = ap (◌∷◌ x) (take-drop_whole n xs)

length-put_chunk :
    (piece : Bytes) (cs : List Chunk) → length (put_chunk false piece cs) ≡ length cs + 1
unfolding put_chunk
length-put_chunk piece cs = length-append cs _

grown-HasRoom :
    (c : Container) (piece : Bytes) (n : ℕ)
    → 0 < length piece
    → HasRoom c (length piece + n)
    → HasRoom (grown false c piece) n
grown-HasRoom c piece n used room = record {
  chunked = room.chunked;
  writable = room.writable;
  counted = grown-IsCounted c piece room.counted;
  small = omega (arith, room.small);
  fits = omega (arith, room.fits);
  memory = ground (arith, room.memory);
  chunks_left = omega (arith, room.chunks_left, length-put_chunk piece c.chunks);
}

append_loop-AddsAll :
    (fuel : ℕ) (c : Container) (buf : Bytes) (r appended : ℕ)
    → length buf ≤ fuel
    → HasRoom c (length buf + r)
    → AddsAll c buf r (appended + length buf) (append_loop fuel false c buf appended)
unfolding append_loop
append_loop-AddsAll fuel c [] r appended enough room =
    let none_more : appended ≡ appended + 0 = omega arith in
    let same : 0 + r ≡ r = omega arith in
    (
      c,
      ap (done c true) none_more,
      sym (append-nil (content c.chunks)),
      subst (HasRoom c) same room,
    )
append_loop-AddsAll zero c (b ∷ buf) r appended enough room = absurd (omega arith)
append_loop-AddsAll (suc fuel) c (b ∷ buf) r appended enough room =
    let buf' = b ∷ buf in
    let m = c.max_chunk_size in
    let piece = take m buf' in
    let rest = drop m buf' in
    let size = length-take m buf' in
    let left = length-drop m buf' in
    let (c', e, text, room') =
      append_loop-AddsAll fuel (grown false c piece) rest r (appended + length piece) (omega arith)
        (grown-HasRoom c piece (length rest + r) (omega arith)
          (subst (HasRoom c) (omega arith) room)) in
    let total : appended + length piece + length rest ≡ appended + length buf' = omega arith in
    let open_ : ltb c.max_chunks (length c.chunks + 1) ≡ false = ground arith in
    (
      c',
      rw open_ (e ∙ ap (done c' true) total),
      text
          ∙ ap (λ (xs : Bytes). xs ++ rest) (content-put_back piece c.chunks)
          ∙ append_assoc (content c.chunks) piece rest
          ∙ ap (λ (xs : Bytes). content c.chunks ++ xs) (take-drop_whole m buf'),
      room',
    )

-- `append` adds all bytes of the buffer to a container that has the room for them.
pub add-AddsAll :
    (c : Container) (buf : Bytes) (r : ℕ)
    → HasRoom c (length buf + r)
    → AddsAll c buf r (length buf) (add false buf c)
add-AddsAll c [] r room =
    let same : 0 + r ≡ r = omega arith in
    (
      c,
      add_empty [] c room.writable (omega (arith, room.small)) (omega (arith, room.fits)) refl,
      sym (append-nil (content c.chunks)),
      subst (HasRoom c) same room,
    )
add-AddsAll c (x ∷ xs) r room =
    let buf = x ∷ xs in
    let (c', e, text, room') = append_loop-AddsAll (length buf) c buf r 0 (omega arith) room in
    let count : 0 + length buf ≡ length buf = omega arith in
    let loops =
      add_loops buf c room.writable (omega (arith, room.small)) (omega (arith, room.fits))
        (ground (arith, room.memory)) (ground arith) in
    (c', loops ∙ e ∙ ap (done c' true) count, text, room')
