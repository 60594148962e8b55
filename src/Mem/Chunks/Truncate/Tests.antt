-- ===== src/Mem/Chunks/Truncate/Tests.antt =====
-- Three chunks of two bytes each, truncated inside the second.
use cx_framework.Base.{true, false, some, [], ◌∷◌, ◌≡◌, refl}
use cx_framework.Mem.Chunks.{Container}
use cx_framework.Mem.Chunks.Truncate.{truncate}

abbrev three_chunks : Container
three_chunks = record {
  chunks =
      record { bytes = b'a' ∷ b'b' ∷ []; offset = 0 }
      ∷ record { bytes = b'c' ∷ b'd' ∷ []; offset = 2 }
      ∷ record { bytes = b'e' ∷ b'f' ∷ []; offset = 4 }
      ∷ [];
  container_bytes = 6;
  max_chunks = 100;
  max_chunk_size = 2;
  max_until_fs = 0;
  max_size = 100;
  read_only = false;
}

-- The chunk that was cut is erased too, and the one behind it stays.
truncated_in_the_middle :
    truncate 3 three_chunks
    ≡ some (
      record three_chunks {
        chunks =
            record { bytes = b'a' ∷ b'b' ∷ []; offset = 0 }
            ∷ record { bytes = b'e' ∷ b'f' ∷ []; offset = 4 }
            ∷ [];
      },
      true,
      6,
    )
unfolding truncate
truncated_in_the_middle = refl
