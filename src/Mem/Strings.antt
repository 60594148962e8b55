-- ===== src/Mem/Strings.antt =====
-- cxMem/libcx_mem_containers/src/binarycontainer_base.cpp: `copyOut`, `copyToString` and `toString`,
-- which work on every kind of container through `copyOut2`.
pub mod Whole
pub mod Views
use cx_framework.Base.{
  ℕ, zero, suc, ◌+◌, ◌-◌, ◌^◌, Bool, true, false, ◌&&◌, List, [], ◌∷◌, ◌++◌, Bytes, length, ltb,
  ◌==◌, if◌then◌else◌,
}
use cx_framework.Mem.Memory.{overflows}
use cx_framework.Mem.Search.{Backend}

-- `std::numeric_limits<uint64_t>::max()`, which stands for all that lies behind the offset.
abbrev pub all_bytes : ℕ
all_bytes = 2 ^ 64 - 1

-- The checks that `copyOut`, `copyToString` and `toString` share, before `go` with the number of bytes:
-- those of a range, and those of all that lies behind the offset.
checked : (ℕ → Bool × Bytes) → ℕ → ℕ → Backend → Bool × Bytes
checked go n offset b =
    if overflows offset n
    then (false, [])
    else if n == 0
    then (true, [])
    else if ltb b.size (offset + n)
    then (false, [])
    else go n

ranged : (ℕ → Bool × Bytes) → ℕ → ℕ → Backend → Bool × Bytes
unfolding checked
ranged go bytes offset b =
    if bytes == all_bytes && ltb b.size offset
    then (false, [])
    else checked go (if bytes == all_bytes then b.size - offset else bytes) offset b

-- `copyOut`, with the bytes that it writes.
pub copy_out : ℕ → ℕ → Backend → Bool × Bytes
unfolding ranged
copy_out bytes offset b = ranged (λ n. b.copy_out2 n offset) bytes offset b

-- A round of the loop: what was copied is added, or the loop is left.
added : Bool × Bytes → Bytes → (Bytes → Bool × Bytes) → Bool × Bytes
added (true, piece) out rest = rest (out ++ piece)
added (false, piece) out rest = (false, out)

-- The loop of `copyToString` and of `toString` over blocks of 8192 bytes. Each round but the last
-- takes a block, so that as many rounds as there are bytes are enough.
string_loop : ℕ → ℕ → ℕ → Bytes → Backend → Bool × Bytes
unfolding added copy_out
string_loop zero bytes offset out b = (true, out)
string_loop (suc fuel) bytes offset out b =
    let n = if ltb 8192 bytes then 8192 else bytes in
    let rest =
      added (copy_out n offset b) out (λ out'. string_loop fuel (bytes - n) (offset + n) out' b) in
    if bytes == 0 then (true, out) else rest

-- `copyToString` into an empty string: `first`, and the string.
pub copy_to_string : ℕ → ℕ → Backend → Bool × Bytes
unfolding ranged string_loop
copy_to_string bytes offset b = ranged (λ n. string_loop n n offset [] b) bytes offset b

pub to_string : ℕ → ℕ → Backend → Bytes
unfolding copy_to_string
to_string bytes offset b = (copy_to_string bytes offset b).1
