-- ===== src/Mem/Linear/Tests.antt =====
-- Searches in a view of memory and in chunks that hold the same bytes, and what both give as strings.
use cx_framework.Base.{true, false, ◌≡◌, refl, some, [], ◌∷◌, Bytes, drop, arith}
use cx_framework.Mem.Search.{missing, find, is_upper}
use cx_framework.Mem.Search.First.{first_match, at_offset}
use cx_framework.Mem.Search.Occurrence.{first_occurrence, find-first_occurrence}
use cx_framework.Mem.Search.Case.{find_upper}
use cx_framework.Mem.Chunks.{Container}
use cx_framework.Mem.Chunks.Content.{content, IsCounted}
use cx_framework.Mem.Chunks.Lookup
use cx_framework.Mem.Chunks.Lookup.Agrees
use cx_framework.Mem.Chunks.CopyOut.Placed.{IsPlaced}
use cx_framework.Mem.Linear
use cx_framework.Mem.Linear.{Linear, reference}
use cx_framework.Mem.Linear.Agrees.{view, find_agrees}

abbrev text : Bytes
text = b'a' ∷ b'a' ∷ b'b' ∷ b'C' ∷ []

abbrev shown : Linear
shown = record { linear_mem = b'a' ∷ b'a' ∷ b'b' ∷ b'C' ∷ b'x' ∷ []; container_bytes = 4 }

abbrev held : Container
held = record {
  chunks =
      record { bytes = b'a' ∷ b'a' ∷ []; offset = 0 }
      ∷ record { bytes = b'b' ∷ b'C' ∷ []; offset = 2 }
      ∷ [];
  container_bytes = 4;
  max_chunks = 8;
  max_chunk_size = 2;
  max_until_fs = 0;
  max_size = 100;
  read_only = false;
}

abbrev needle : Bytes
needle = b'a' ∷ b'b' ∷ []

held-IsCounted : IsCounted held
unfolding content
held-IsCounted = refl

same_bytes : view shown ≡ content held.chunks
unfolding view content
same_bytes = refl

find_agrees_example :
    find needle true 0 0 (Linear.backend shown) ≡ find needle true 0 0 (Lookup.backend held)
find_agrees_example =
    find_agrees shown held (omega arith) held-IsCounted (omega arith) same_bytes needle true 0
      (omega arith) (omega arith) (omega arith)

small_letter : is_upper b'a' ≡ false
unfolding is_upper
small_letter = refl

find-first_occurrence_example :
    find (b'a' ∷ b'b' ∷ []) true 0 0 (Lookup.backend held)
    ≡ some (at_offset 0 (first_occurrence (b'a' ∷ b'b' ∷ []) (drop 0 (content held.chunks))))
find-first_occurrence_example =
    find-first_occurrence (Agrees.backend-Holds held held-IsCounted (omega arith)) b'a' (b'b' ∷ [])
      0 small_letter (omega arith) (omega (arith, held-IsCounted))

-- The needle starts in the first chunk and ends in the second.
across_chunks : first_match true needle text ≡ some 1
unfolding first_match
across_chunks = refl

capital : is_upper b'C' ≡ true
unfolding is_upper
capital = refl

find_upper_example :
    (find (b'C' ∷ []) true 0 0 (Lookup.backend held) ≡ some missing)
    × (find (b'C' ∷ []) true 0 0 (Linear.backend shown) ≡ some missing)
unfolding view
find_upper_example =
    find_upper held shown b'C' [] 0 held-IsCounted (omega arith) (omega arith) (omega arith) capital
      (omega arith) (omega (arith, held-IsCounted)) (omega arith)

held-IsPlaced : IsPlaced held.chunks
held-IsPlaced = omega arith
