-- ===== src/Mem/Search/Case.antt =====
-- A case-sensitive search for a needle that starts with an upper-case letter.
use cx_framework.Base.{
  ℕ, ◌+◌, ◌≤◌, ◌<◌, ◌^◌, true, false, ◌≡◌, refl, ap, ◌∙◌, inl, inr, Option, none, some, [], ◌∷◌,
  Bytes, length, drop, ◌==◌, bytes_eq, arith, Bool-cases,
}
use cx_framework.Mem.Memory.{block}
use cx_framework.Mem.Memory.Same.{same}
use cx_framework.Mem.Search.{missing, is_upper, to_lower, Backend, find}
use cx_framework.Mem.Chunks.{Container}
use cx_framework.Mem.Chunks.Content.{content, IsCounted}
use cx_framework.Mem.Chunks.Lookup
use cx_framework.Mem.Chunks.Lookup.Agrees as ChunksAgree
use cx_framework.Mem.Linear.{Linear}
use cx_framework.Mem.Linear
use cx_framework.Mem.Linear.Agrees.{IsInside, view}
use cx_framework.Mem.Linear.Agrees as LinearAgrees
use cx_framework.Mem.Search.First.{wanted, first_match, at_offset, Holds, find-first_match}

upper_ne_lower : (c x : ℕ) → is_upper c ≡ true → (x == to_lower c) ≡ true → (x == c) ≡ false
unfolding is_upper to_lower
upper_ne_lower c x upper e = ground arith

first_match_upper :
    (c : ℕ) (needle xs : Bytes) → is_upper c ≡ true → first_match true (c ∷ needle) xs ≡ none
unfolding first_match wanted same bytes_eq
first_match_upper c needle [] upper = refl
first_match_upper c needle (x ∷ xs) upper = elim (Bool-cases (x == to_lower c)) [
  | inr other ↦ rw (other, first_match_upper c needle xs upper) refl
  | inl lower ↦
      rw (lower, upper_ne_lower c x upper lower, first_match_upper c needle xs upper) (ground arith)
]

find_missing :
    {b : Backend} {xs : Bytes} (holds : Holds b xs) (c : ℕ) (needle : Bytes) (offset : ℕ)
    → is_upper c ≡ true
    → length (c ∷ needle) ≤ block
    → offset + length (c ∷ needle) ≤ length xs
    → find (c ∷ needle) true offset 0 b ≡ some missing
find_missing {b} {xs} holds c needle offset upper short fits =
    find-first_match holds (c ∷ needle) true offset (omega arith) short fits
    ∙ ap (λ (o : Option ℕ). some (at_offset offset o))
        (first_match_upper c needle (drop offset xs) upper)

-- A case-sensitive `find` for a needle that starts with an upper-case letter, has at most 64 KiB and
-- is not longer than what lies behind the offset finds nothing in a container of chunks, of fewer than
-- 2^64 bytes that are counted right, nor in a view of as many that lies in its memory.
pub find_upper :
    (chunks : Container) (m : Linear) (c : ℕ) (needle : Bytes) (offset : ℕ)
    → IsCounted chunks
    → chunks.container_bytes < 2 ^ 64
    → IsInside m
    → m.container_bytes < 2 ^ 64
    → is_upper c ≡ true
    → length (c ∷ needle) ≤ block
    → offset + length (c ∷ needle) ≤ length (content chunks.chunks)
    → offset + length (c ∷ needle) ≤ length (view m)
    → (find (c ∷ needle) true offset 0 (Lookup.backend chunks) ≡ some missing)
      × (find (c ∷ needle) true offset 0 (Linear.backend m) ≡ some missing)
find_upper chunks m c needle offset counted small inside small_view upper short fits fits_view = (
  find_missing (ChunksAgree.backend-Holds chunks counted small) c needle offset upper short fits,
  find_missing (LinearAgrees.backend-Holds m inside small_view) c needle offset upper short
      fits_view,
)
