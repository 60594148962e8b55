-- ===== src/Mem/Memory.antt =====
-- cxMem/libcx_mem_containers/src/common.cpp: comparing memory. A pointer is the list of the bytes from
-- it to the end of its allocation; a read behind that end is none.
pub mod Same
mod Tests
use cx_framework.Base.{
  ℕ, zero, suc, ◌+◌, ◌-◌, ◌*◌, ◌%◌, ◌^◌, Bool, true, false, ◌&&◌, ◌||◌, Option, none, some, List,
  [], ◌∷◌, Bytes, length, take, drop, ltb, leb, ◌==◌, if◌then◌else◌, bytes_eq,
}

-- `CHECK_UINT_OVERFLOW_SUM` of common.h, on 64 bits.
unfoldable pub overflows : ℕ → ℕ → Bool
overflows a b = leb (2 ^ 64) (a + b)

-- `64*KB_MULT`.
abbrev pub block : ℕ
block = 64 * 1024

-- `cmpMatrix`: upper-case letters stand for lower-case ones, other bytes for themselves.
unfoldable pub cmp_matrix : ℕ → ℕ
cmp_matrix c = if leb 65 c && leb c 90 then c + 32 else c

pub icharcmp : ℕ → ℕ → Bool
unfolding cmp_matrix
icharcmp c1 c2 = cmp_matrix c1 == cmp_matrix c2

-- `memcmp(s1, s2, n) == 0` of the C library.
pub memcmp : Bytes → Bytes → ℕ → Option Bool
unfolding bytes_eq
memcmp s1 s2 n =
    if ltb (length s1) n || ltb (length s2) n then none else some (bytes_eq (take n s1) (take n s2))

-- The loop of `memcmp64`: the size of the block is set once, and `n` wraps around.
memcmp64_loop : ℕ → ℕ → Bytes → Bytes → ℕ → Option Bool
unfolding memcmp
memcmp64_loop zero cur_block s1 s2 n = none
memcmp64_loop (suc fuel) cur_block s1 s2 n =
    let rest =
      memcmp64_loop fuel cur_block (drop cur_block s1) (drop cur_block s2)
        ((n + 2 ^ 64 - cur_block) % 2 ^ 64) in
    if n == 0
    then some true
    else elim (memcmp s1 s2 cur_block) [ none ↦ none | some false ↦ some false | some true ↦ rest ]

-- `curBlock`, as the loop starts.
first_block : ℕ → ℕ
first_block n = if ltb block n then block else n

-- `memcmp64`, of which true stands for 0. Every round but the last takes at least one byte of the
-- first list, which bounds the rounds.
pub memcmp64 : Bytes → Bytes → ℕ → Option Bool
memcmp64 s1 s2 n = memcmp64_loop (suc (suc (length s1))) (first_block n) s1 s2 n

-- The loop of `memicmp2` on single bytes.
icase_loop : ℕ → Bytes → Bytes → Option Bool
unfolding icharcmp
icase_loop zero s1 s2 = some true
icase_loop (suc n) (x ∷ s1) (y ∷ s2) =
    let rest = icase_loop n s1 s2 in if icharcmp x y then rest else some false
icase_loop (suc n) _ _ = none

-- `memicmp2`, of which true stands for 0.
pub memicmp2 : Bytes → Bytes → ℕ → Bool → Option Bool
memicmp2 s1 s2 n true = memcmp64 s1 s2 n
memicmp2 s1 s2 n false = icase_loop n s1 s2
