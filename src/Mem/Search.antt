-- ===== src/Mem/Search.antt =====
-- cxMem/libcx_mem_containers/src/binarycontainer_base.cpp: `compare` and `find`, which work on every
-- kind of container through its virtual functions, and what the kinds share to find a character.
pub mod First
pub mod Case
pub mod Occurrence
pub mod Prefix
use cx_framework.Base.{
  ℕ, zero, suc, ◌+◌, ◌-◌, ◌%◌, ◌^◌, Bool, true, false, ◌&&◌, ◌||◌, not, Option, none, some, List,
  [], ◌∷◌, Bytes, length, ltb, leb, ◌==◌, if◌then◌else◌,
}
use mathlib.Core.Option
use cx_framework.Mem.Memory.{overflows}

-- The pairs that a search returns: (true, position), (false, 0), and (false, 2^64 - 1).
pub data Found : Type 0 where
  found : ℕ → Found
  missing : Found
  invalid : Found

-- `memchr` of the C library: the place of the first `c` among the first `n` bytes.
unfoldable pub memchr : Bytes → ℕ → ℕ → Option ℕ
memchr xs c zero = none
memchr [] c (suc n) = none
memchr (x ∷ xs) c (suc n) = if x == c then some 0 else Option.map suc (memchr xs c n)

unfoldable pub is_upper : ℕ → Bool
is_upper c = leb b'A' c && leb c b'Z'

unfoldable pub is_lower : ℕ → Bool
is_lower c = leb b'a' c && leb c b'z'

-- `std::toupper` and `std::tolower` of the C locale.
pub to_upper : ℕ → ℕ
unfolding is_lower
to_upper c = if is_lower c then c - 32 else c

pub to_lower : ℕ → ℕ
unfolding is_upper
to_lower c = if is_upper c then c + 32 else c

-- The place that `findChar` takes from the two for a letter: behind the tests that compare them it
-- takes the second.
take_place : Option ℕ → Option ℕ → Option ℕ
take_place pos_upper pos_lower = pos_lower

-- The search of `findChar` in one piece of memory; what is no letter is searched as it is.
pub find_in : Bool → ℕ → Bytes → ℕ → Option ℕ
unfolding is_upper is_lower take_place
find_in case_sensitive c xs n =
    if case_sensitive && (is_upper c || is_lower c)
    then take_place (memchr xs (to_upper c) n) (memchr xs (to_lower c) n)
    else memchr xs c n

-- The virtual functions of a container that the base calls. `compare2` is none if it reads memory
-- that is not the container's; of `copy_out2` the second part is what it wrote, whose length it returns.
pub record Backend : Type 0 where
  pub size : ℕ
  pub find_char : Bool → ℕ → ℕ → ℕ → Found
  pub compare2 : Bytes → Bool → ℕ → Option Bool
  pub copy_out2 : ℕ → ℕ → Bool × Bytes

-- `compare` of a piece of memory.
unfoldable pub compare : Bytes → Bool → ℕ → Backend → Option Bool
compare mem case_sensitive offset b =
    if overflows offset (length mem)
    then some false
    else if length mem == 0
    then some true
    else if ltb b.size (offset + length mem)
    then some false
    else b.compare2 mem case_sensitive offset

-- `compare` of a whole container with a string.
unfoldable pub compare_string : Bytes → Bool → ℕ → Backend → Option Bool
compare_string cmp_string case_sensitive offset b =
    if not (length cmp_string == b.size)
    then some false
    else compare cmp_string case_sensitive offset b

-- A round of `find` after the comparison at `p`, with what is left of the search space.
judged : Option Bool → ℕ → ℕ → Option Found → Option Found
judged none p left rest = none
judged (some true) p left rest = some (found p)
judged (some false) p left rest = if left == 0 then some missing else rest

-- The loop of `find`, with the position that the last search came to; `search_space` wraps around.
-- The offset grows in every round, so that one round more than there are bytes is enough.
find_loop : ℕ → Bytes → ℕ → Bool → Backend → ℕ → ℕ → Found → Option Found
unfolding judged
find_loop zero needle c case_sensitive b current search_space pos = none
find_loop (suc fuel) needle c case_sensitive b current search_space missing = some missing
find_loop (suc fuel) needle c case_sensitive b current search_space invalid = some missing
find_loop (suc fuel) needle c case_sensitive b current search_space (found p) =
    let left = (search_space + 2 ^ 64 - (p - current)) % 2 ^ 64 in
    let rest =
      find_loop fuel needle c case_sensitive b (p + 1) (left - 1)
        (b.find_char case_sensitive c (p + 1) (left - 1)) in
    judged (b.compare2 needle case_sensitive p) p left rest

-- `find` behind its checks, for a needle that starts with `c`.
find_needle : Bytes → Bool → ℕ → ℕ → Backend → Option Found
find_needle [] case_sensitive offset search_space b = some (found 0)
find_needle (c ∷ needle) case_sensitive offset search_space b =
    find_loop (suc b.size) (c ∷ needle) c case_sensitive b offset search_space
      (b.find_char case_sensitive c offset search_space)

-- `find`: a search space of 0 stands for all that lies behind the offset.
pub find : Bytes → Bool → ℕ → ℕ → Backend → Option Found
find needle case_sensitive offset search_space b =
    let space = if search_space == 0 then b.size - offset else search_space in
    if overflows offset (length needle)
    then some invalid
    else if overflows offset search_space
    then some invalid
    else if ltb b.size offset
    then some invalid
    else if space == 0
    then some missing
    else if ltb space (length needle)
    then some invalid
    else find_needle needle case_sensitive offset space b

-- `find` over a list of needles, with the one that is found: the first of the list that occurs.
pub find_any : List Bytes → Bool → ℕ → ℕ → Backend → Option (Found × Bytes)
find_any [] case_sensitive offset search_space b = some (missing, [])
find_any (needle ∷ needles) case_sensitive offset search_space b =
    let rest = find_any needles case_sensitive offset search_space b in
    elim (find needle case_sensitive offset search_space b) [
      | none ↦ none
      | some (found p) ↦ some (found p, needle)
      | some missing ↦ rest
      | some invalid ↦ rest
    ]
