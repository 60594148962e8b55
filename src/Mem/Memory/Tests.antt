-- ===== src/Mem/Memory/Tests.antt =====
-- Runs of the comparisons.
use cx_framework.Base.{
  ℕ, true, false, ◌≡◌, refl, some, [], ◌∷◌, Bytes, length, replicate, length-replicate,
}
use cx_framework.Mem.Memory.{memcmp64_loop, first_block, memcmp64, icase_loop, memicmp2}

abbrev upper : Bytes
upper = b'H' ∷ b'i' ∷ b'!' ∷ []

abbrev lower : Bytes
lower = b'h' ∷ b'I' ∷ b'!' ∷ []

case_counts : memicmp2 upper lower 3 true ≡ some false
unfolding memicmp2 memcmp64 memcmp64_loop first_block
case_counts = refl

case_does_not_count : memicmp2 upper lower 3 false ≡ some true
unfolding memicmp2 icase_loop
case_does_not_count = refl

-- One byte more than a block.
long : Bytes
long = replicate 65537 0

length-long : length long ≡ 65537
unfolding long
length-long = length-replicate {A = ℕ} 65537 0
