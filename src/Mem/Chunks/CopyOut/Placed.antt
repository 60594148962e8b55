-- ===== src/Mem/Chunks/CopyOut/Placed.antt =====
-- Copying out of a container whose chunks have their right offsets.
use cx_framework.Base.{
  ℕ, zero, suc, ◌+◌, ◌-◌, ◌/◌, ◌≤◌, ◌<◌, ◌&&◌, ◌≡◌, refl, ap, inl, inr, some, List, [], ◌∷◌, length,
  take, get_elem?, take_all, length-append, ltb, leb, ltb→lt, ◌==◌, ==_iff, arith, Bool-cases,
}
use cx_framework.Mem.Chunks.{Chunk, next_offset, contains_offset}
use cx_framework.Mem.Chunks.Content.{content}
use cx_framework.Mem.Chunks.CopyOut.{Place, place, middle, look, search_place, pos_for_offset}

-- Each chunk starts where the one before it ends.
abbrev pub IsPlacedFrom : ℕ → List Chunk → Type 0
IsPlacedFrom start [] = Unit {0}
IsPlacedFrom start (c ∷ cs) = (c.offset ≡ start) × IsPlacedFrom (start + length c.bytes) cs

abbrev pub IsPlaced : List Chunk → Type 0
IsPlaced = IsPlacedFrom 0

-- Where the `i`-th chunk starts.
abbrev pub start_of : List Chunk → ℕ → ℕ
start_of cs i = length (content (take i cs))

pub start_of-suc :
    (c : Chunk) (cs : List Chunk) (i : ℕ)
    → start_of (c ∷ cs) (suc i) ≡ length c.bytes + start_of cs i
unfolding content
start_of-suc c cs i = length-append c.bytes (content (take i cs))

pub start_of-zero : (cs : List Chunk) → start_of cs 0 ≡ 0
unfolding content
start_of-zero cs = refl

-- The `i`-th chunk lies from its start to that of the next.
placed_at :
    (start : ℕ) (cs : List Chunk) (i : ℕ)
    → IsPlacedFrom start cs
    → i < length cs
    → (c : Chunk) × (get_elem? cs i ≡ some c)
      × (c.offset ≡ start + start_of cs i)
      × (next_offset c ≡ start + start_of cs (suc i))
placed_at start [] i h inside = absurd (omega arith)
placed_at start (c ∷ cs) zero h inside = (
  c,
  refl,
  omega (arith, h.0, start_of-zero (c ∷ cs)),
  unfold next_offset in omega (arith, h.0, start_of-suc c cs 0, start_of-zero cs),
)
placed_at start (c ∷ cs) (suc i) h inside =
    let (d, at, from, to) = placed_at (start + length c.bytes) cs i h.1 (omega arith) in
    (d, at, omega (arith, from, start_of-suc c cs i), omega (arith, to, start_of-suc c cs (suc i)))

middle_bounds : (lo hi : ℕ) → lo ≤ hi → (lo ≤ middle lo hi) × (middle lo hi ≤ hi)
unfolding middle
middle_bounds lo hi h = ground arith

-- The search came to the chunk that holds the offset.
abbrev pub Holding : List Chunk → ℕ → Place → Type 0
Holding cs offset p =
    (i : ℕ) × (p ≡ place i)
    × (i < length cs)
    × (start_of cs i ≤ offset)
    × (offset < start_of cs (suc i))

module _ (cs : List Chunk) (placed : IsPlaced cs) (offset : ℕ) where
  -- The search in a range whose chunks hold the offset.
  abbrev Searches : ℕ → ℕ → ℕ → ℕ → Type 0
  Searches fuel curpos curmax curmin =
      curmin ≤ curpos
      → curpos ≤ curmax
      → curmax < length cs
      → curmax - curmin < fuel
      → start_of cs curmin ≤ offset
      → offset < start_of cs (suc curmax)
      → Holding cs offset (search_place fuel cs offset curpos curmax curmin)

  look_step :
      (fuel curpos curmax curmin : ℕ) (c : Chunk)
      → get_elem? cs curpos ≡ some c
      → c.offset ≡ start_of cs curpos
      → next_offset c ≡ start_of cs (suc curpos)
      → Searches fuel (middle curmin (curpos - 1)) (curpos - 1) curmin
      → Searches fuel (middle (curpos + 1) curmax) curmax (curpos + 1)
      → Searches (suc fuel) curpos curmax curmin
  unfolding search_place look contains_offset
  look_step fuel curpos curmax curmin c at from to down up a b inside enough low high =
      elim (Bool-cases (leb c.offset offset && ltb offset (next_offset c))) [
        | inl here_ ↦ (curpos, rw (at, here_) refl, omega arith, ground arith, ground arith)
        | inr elsewhere ↦ elim (Bool-cases (ltb offset c.offset)) [
          | inl below ↦
              let lt = ltb→lt offset c.offset below in
              elim (Bool-cases (curpos == curmin)) [
                | inl lowest ↦
                    absurd (omega (arith, ap (start_of cs) ((==_iff curpos curmin).0 lowest)))
                | inr more ↦
                    let fewer : curmin < curpos = ground arith in
                    let ends : suc (curpos - 1) ≡ curpos = omega arith in
                    let (p, q) = middle_bounds curmin (curpos - 1) (omega arith) in
                    rw (at, elsewhere, below, more)
                      (down p q (omega arith) (omega arith) low
                        (omega (arith, ap (start_of cs) ends)))
              ]
          | inr above ↦
              let behind : start_of cs (suc curpos) ≤ offset = ground arith in
              let succ : curpos + 1 ≡ suc curpos = omega arith in
              let next : start_of cs (curpos + 1) ≡ start_of cs (suc curpos) =
                ap (start_of cs) succ in
              elim (Bool-cases (curpos == curmax)) [
                | inl highest ↦ absurd (
                    omega (
                      arith,
                      ap (λ (i : ℕ). start_of cs (suc i)) ((==_iff curpos curmax).0 highest),
                    ))
                | inr more ↦
                    let fewer : curpos < curmax = ground arith in
                    let (p, q) = middle_bounds (curpos + 1) curmax (omega arith) in
                    rw (at, elsewhere, above, more) (up p q inside (omega arith) (omega arith) high)
              ]
        ]
      ]

  search_place-Holding : (fuel curpos curmax curmin : ℕ) → Searches fuel curpos curmax curmin
  search_place-Holding zero curpos curmax curmin a b inside enough low high = absurd (omega arith)
  search_place-Holding (suc fuel) curpos curmax curmin a b inside enough low high =
      let (c, at, from, to) = placed_at 0 cs curpos placed (omega arith) in
      look_step fuel curpos curmax curmin c at (omega (arith, from)) (omega (arith, to))
        (search_place-Holding fuel (middle curmin (curpos - 1)) (curpos - 1) curmin)
        (search_place-Holding fuel (middle (curpos + 1) curmax) curmax (curpos + 1)) a b inside
        enough low high

-- In a container whose chunks have their right offsets, the search finds the chunk that holds an
-- offset below the size.
pub pos_for_offset-Holding :
    (cs : List Chunk) (offset : ℕ)
    → IsPlaced cs
    → offset < length (content cs)
    → Holding cs offset (pos_for_offset cs offset)
unfolding pos_for_offset
pos_for_offset-Holding [] offset placed inside = absurd (omega (arith, inside, start_of-zero []))
pos_for_offset-Holding (c ∷ cs) offset placed inside =
    let n = length (c ∷ cs) in
    let all : take (suc (n - 1)) (c ∷ cs) ≡ c ∷ cs =
      take_all (suc (n - 1)) (c ∷ cs) (omega arith) in
    let high : offset < start_of (c ∷ cs) (suc (n - 1)) =
      omega (arith, inside, ap (λ (ds : List Chunk). length (content ds)) all) in
    let low : start_of (c ∷ cs) 0 ≤ offset = omega (arith, start_of-zero (c ∷ cs)) in
    elim (Bool-cases (n == 1)) [
      | inl one ↦
          let single : n - 1 ≡ 0 = ground arith in
          rw one (
            search_place-Holding (c ∷ cs) placed offset n 0 0 0 (omega arith) (omega arith)
              (omega arith) (omega arith) low
              (omega (arith, high, ap (λ (i : ℕ). start_of (c ∷ cs) (suc i)) single)))
      | inr more ↦ rw more (
          search_place-Holding (c ∷ cs) placed offset n (n / 2 - 1) (n - 1) 0 (omega arith)
            (omega arith) (omega arith) (omega arith) low high)
    ]
