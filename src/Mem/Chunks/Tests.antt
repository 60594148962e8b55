-- ===== src/Mem/Chunks/Tests.antt =====
-- Runs of a container of chunks of two bytes.
use cx_framework.Base.{false, ◌≡◌, inl, refl, [], ◌∷◌, length, drop, min, arith}
use cx_framework.Mem.Chunks.{Chunk, Container, add, displace}
use cx_framework.Mem.Chunks.Content.{content, IsCounted, displace-content}
use cx_framework.Mem.Chunks.Append.{Appends, append_content}

abbrev two : Chunk
two = record { bytes = 1 ∷ 2 ∷ []; offset = 0 }

abbrev small : Container
small = record {
  chunks = two ∷ record { bytes = 3 ∷ []; offset = 2 } ∷ [];
  container_bytes = 3;
  max_chunks = 8;
  max_chunk_size = 2;
  max_until_fs = 0;
  max_size = 100;
  read_only = false;
}

small-IsCounted : IsCounted small
unfolding content
small-IsCounted = refl

displace-content_example :
    (content (displace 1 small).0.chunks ≡ drop 1 (content small.chunks))
    × ((displace 1 small).1 ≡ min 1 (length (content small.chunks)))
    × IsCounted (displace 1 small).0
displace-content_example = displace-content 1 small small-IsCounted

append_content_example :
    Appends (content small.chunks) (4 ∷ 5 ∷ 6 ∷ []) (add false (4 ∷ 5 ∷ 6 ∷ []) small)
append_content_example =
    append_content (4 ∷ 5 ∷ 6 ∷ []) small (omega arith) refl small-IsCounted (omega arith)
      (omega arith) (inl refl)
