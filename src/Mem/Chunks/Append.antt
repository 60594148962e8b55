-- ===== src/Mem/Chunks/Append.antt =====
-- What adding bytes at the end or at the front comes to.
use cx_framework.Base.{
  ℕ, zero, suc, ◌+◌, ◌-◌, ◌^◌, ◌≤◌, ◌<◌, Bool, true, false, ◌≡◌, ◌⊎◌, inl, inr, refl, sym, ap,
  subst, ◌∙◌, List, [], ◌∷◌, ◌++◌, append_assoc, append-nil, Bytes, length, take, drop,
  length-append, length-take, length-drop, ltb, ◌==◌, ==_iff, arith, Bool-cases,
}
use cx_framework.Mem.Chunks.{
  Chunk, Container, Outcome, done, to_files, no_fuel, end_offset, put_chunk, append_loop, finish,
  append2, add,
}
use cx_framework.Mem.Chunks.Content.{content, IsCounted}
use cx_framework.Mem.Memory.{overflows}

content-append : (cs ds : List Chunk) → content (cs ++ ds) ≡ content cs ++ content ds
unfolding content
content-append [] ds = refl
content-append (c ∷ cs) ds =
    ap (λ (x : Bytes). c.bytes ++ x) (content-append cs ds)
    ∙ sym (append_assoc c.bytes (content cs) (content ds))

-- An outcome that leaves the container in memory with the first bytes of the buffer added at its end:
-- all of them if it reports success.
abbrev pub Appends : Bytes → Bytes → Outcome → Type 0
Appends old buf (done c ok n) =
    (content c.chunks ≡ old ++ take n buf)
    × IsCounted c
    × (n ≤ length buf)
    × (ok ≡ true → n ≡ length buf)
Appends old buf to_files = ⊥
Appends old buf no_fuel = ⊥

-- The same behind the first `k` bytes of the buffer.
abbrev AppendsFrom : ℕ → Bytes → Bytes → Outcome → Type 0
AppendsFrom k old buf (done c ok n) =
    (content c.chunks ≡ old ++ take (n - k) buf)
    × IsCounted c
    × (k ≤ n)
    × (n - k ≤ length buf)
    × (ok ≡ true → n - k ≡ length buf)
AppendsFrom k old buf to_files = ⊥
AppendsFrom k old buf no_fuel = ⊥

take_cut :
    (m j : ℕ) (buf : Bytes) → take m buf ++ take j (drop m buf) ≡ take (length (take m buf) + j) buf
take_cut zero j buf = ground arith
take_cut (suc m) zero [] = refl
take_cut (suc m) (suc j) [] = ground arith
take_cut (suc m) j (b ∷ buf) =
    let e : suc (length (take m buf) + j) ≡ suc (length (take m buf)) + j = omega arith in
    ap (◌∷◌ b) (take_cut m j buf) ∙ ap (λ (i : ℕ). take i (b ∷ buf)) e

-- One round, then the others.
next_AppendsFrom :
    (k m : ℕ) (old buf : Bytes) (o : Outcome)
    → AppendsFrom (k + length (take m buf)) (old ++ take m buf) (drop m buf) o
    → AppendsFrom k old buf o
next_AppendsFrom k m old buf (done c ok n) (text, counted, from, fits, full) =
    let piece = length (take m buf) in
    let sizes = length-drop m buf in
    let cut = length-take m buf in
    (
      text
          ∙ append_assoc old (take m buf) (take (n - (k + piece)) (drop m buf))
          ∙ ap (λ (x : Bytes). old ++ x)
              (take_cut m (n - (k + piece)) buf ∙ ap (λ (j : ℕ). take j buf) (omega arith)),
      counted,
      omega arith,
      omega (arith, sizes, cut),
      λ h. omega (arith, sizes, cut, full h),
    )
next_AppendsFrom k m old buf to_files h = h
next_AppendsFrom k m old buf no_fuel h = h

pub content-put_back :
    (piece : Bytes) (cs : List Chunk) → content (put_chunk false piece cs) ≡ content cs ++ piece
unfolding put_chunk content
content-put_back piece cs =
    content-append cs (record { bytes = piece; offset = end_offset cs } ∷ [])
    ∙ ap (λ (x : Bytes). content cs ++ x) (append-nil piece)

-- The container after one round at its end.
abbrev pub grown : Bool → Container → Bytes → Container
grown prepend c piece = record c {
  chunks = put_chunk prepend piece c.chunks;
  container_bytes = c.container_bytes + length piece;
}

pub grown-IsCounted :
    (c : Container) (piece : Bytes) → IsCounted c → IsCounted (grown false c piece)
grown-IsCounted c piece h = omega (
  arith,
  ap (length {0}) (content-put_back piece c.chunks),
  length-append (content c.chunks) piece,
)

nothing_done :
    (k : ℕ) (c : Container) (buf : Bytes) (ok : Bool)
    → IsCounted c
    → (ok ≡ true → 0 ≡ length buf)
    → AppendsFrom k (content c.chunks) buf (done c ok k)
nothing_done k c buf ok v full =
    let e : k - k ≡ 0 = omega arith in
    (
      rw e (sym (append-nil (content c.chunks))),
      v,
      omega arith,
      omega arith,
      λ h. omega (arith, full h),
    )

append_loop-AppendsFrom :
    (fuel k : ℕ) (c : Container) (buf : Bytes)
    → 0 < c.max_chunk_size
    → length buf ≤ fuel
    → IsCounted c
    → AppendsFrom k (content c.chunks) buf (append_loop fuel false c buf k)
unfolding append_loop
append_loop-AppendsFrom zero k c [] m h v = nothing_done k c [] true v (λ _. refl)
append_loop-AppendsFrom (suc fuel) k c [] m h v = nothing_done k c [] true v (λ _. refl)
append_loop-AppendsFrom zero k c (b ∷ buf) m h v = absurd (omega arith)
append_loop-AppendsFrom (suc fuel) k c (b ∷ buf) m h v =
    elim (Bool-cases (ltb c.max_chunks (length c.chunks + 1))) [
      | inl full ↦ rw full (nothing_done k c (b ∷ buf) false v (λ h. cc))
      | inr fits ↦
          let piece = take c.max_chunk_size (b ∷ buf) in
          let rest = drop c.max_chunk_size (b ∷ buf) in
          rw fits (
            next_AppendsFrom k c.max_chunk_size (content c.chunks) (b ∷ buf) _ (
              subst
                (λ (x : Bytes).
                  AppendsFrom (k + length piece) x rest
                    (append_loop fuel false (grown false c piece) rest (k + length piece)))
                (content-put_back piece c.chunks)
                (append_loop-AppendsFrom fuel (k + length piece) (grown false c piece) rest m
                  (omega (arith, length-drop c.max_chunk_size (b ∷ buf)))
                  (grown-IsCounted c piece v))))
    ]

from_zero : (old buf : Bytes) (o : Outcome) → AppendsFrom 0 old buf o → Appends old buf o
from_zero old buf (done c ok n) (text, counted, from, fits, full) =
    let e : n - 0 ≡ n = omega arith in
    (text ∙ ap (λ (i : ℕ). old ++ take i buf) e, counted, omega arith, λ h. omega (arith, full h))
from_zero old buf to_files h = h
from_zero old buf no_fuel h = h

module _ (buf : Bytes) (c : Container) (w : c.read_only ≡ false)
    (small : length buf + c.container_bytes < 2 ^ 64)
    (fits : length buf + c.container_bytes ≤ c.max_size) where
  pub add_empty : (length buf == 0) ≡ true → add false buf c ≡ done c true 0
  unfolding add overflows
  add_empty e = ground arith

  pub add_loops :
      (c.max_until_fs ≡ 0) ⊎ (length buf + c.container_bytes ≤ c.max_until_fs)
      → (length buf == 0) ≡ false
      → add false buf c ≡ append_loop (length buf) false c buf 0
  unfolding add append2 finish overflows
  add_loops memory e = ground arith

-- `append` of bytes that fit in the largest size, in 64 bits and in the limit for memory, of 0 for
-- none, to a container that is not read only and whose chunks may hold a byte: the container stays in
-- memory and has, behind its own bytes, the first bytes of the buffer, as many as are reported, and
-- all of them if success is; and it counts them.
pub append_content :
    (buf : Bytes) (c : Container)
    → 0 < c.max_chunk_size
    → c.read_only ≡ false
    → IsCounted c
    → length buf + c.container_bytes < 2 ^ 64
    → length buf + c.container_bytes ≤ c.max_size
    → (c.max_until_fs ≡ 0) ⊎ (length buf + c.container_bytes ≤ c.max_until_fs)
    → Appends (content c.chunks) buf (add false buf c)
append_content buf c m w v small fits memory = elim (Bool-cases (length buf == 0)) [
  | inl empty ↦ subst (Appends (content c.chunks) buf) (sym (add_empty buf c w small fits empty)) (
    sym (append-nil (content c.chunks)),
    v,
    omega arith,
    λ _. sym ((==_iff (length buf) 0).0 empty),
  )
  | inr some_ ↦
      subst (Appends (content c.chunks) buf) (sym (add_loops buf c w small fits memory some_)) (
        from_zero (content c.chunks) buf (append_loop (length buf) false c buf 0)
          (append_loop-AppendsFrom (length buf) 0 c buf m (omega arith) v))
]
