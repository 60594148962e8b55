-- ===== src/Mem/Linear.antt =====
-- cxMem/libcx_mem_containers/src/binarycontainer_mem.cpp: `BinaryContainer_MEM`, a view of memory that
-- somebody else owns.
pub mod Agrees
pub mod Pieces
mod Tests
use cx_framework.Base.{
  ℕ, zero, suc, ◌+◌, ◌-◌, Bool, true, false, Option, none, some, List, [], ◌∷◌, Bytes, length, take,
  drop, ltb, leb, ◌==◌, if◌then◌else◌,
}
use cx_framework.Mem.Memory.{overflows, memicmp2, block}
use cx_framework.Mem.Search.{Found, found, missing, invalid, find_in, Backend}

-- `linearMem`, as the bytes from it to the end of the memory, and `containerBytes`.
pub record Linear : Type 0 where
  pub linear_mem : Bytes
  pub container_bytes : ℕ

-- `clear2`, of a null pointer.
pub clear : Linear
clear = record { linear_mem = []; container_bytes = 0 }

-- `reference`.
pub reference : Bytes → ℕ → Linear
reference buf len = record { linear_mem = buf; container_bytes = len }

-- What `findChar` makes of the pointer that it found.
position : ℕ → Option ℕ → Found
position offset none = missing
position offset (some p) = found (offset + p)

pub find_char : Bool → ℕ → ℕ → ℕ → Linear → Found
unfolding position
find_char case_sensitive c offset search_space m =
    let space = if search_space == 0 then m.container_bytes - offset else search_space in
    if m.container_bytes == 0
    then missing
    else if overflows offset search_space
    then invalid
    else if ltb m.container_bytes (offset + search_space)
    then invalid
    else position offset (find_in case_sensitive c (drop offset m.linear_mem) space)

-- `truncate2`, which checks nothing; and `truncate` of the base before it.
truncate2 : ℕ → Linear → Linear × Bool × ℕ
truncate2 bytes m = (record m { container_bytes = bytes }, true, bytes)

pub truncate : ℕ → Linear → Linear × Bool × ℕ
unfolding truncate2
truncate bytes m =
    if leb m.container_bytes bytes then (m, false, m.container_bytes) else truncate2 bytes m

-- `displace2`, and `displace` of the base before it.
displace2 : ℕ → Linear → Linear × Bool × ℕ
displace2 bytes m = if ltb m.container_bytes bytes then (m, false, 0) else (
  record m { linear_mem = drop bytes m.linear_mem; container_bytes = m.container_bytes - bytes },
  true,
  bytes,
)

pub displace : ℕ → Linear → Linear × Bool × ℕ
unfolding displace2
displace bytes m = displace2 (if ltb m.container_bytes bytes then m.container_bytes else bytes) m

-- The loop that cuts the memory into pieces of at most 64 KiB, which `copyToStream2` and `copyTo2`
-- share. Each takes a byte or more, so that as many rounds as there are bytes are enough.
piece_loop : ℕ → Bytes → ℕ → List Bytes
piece_loop zero mem data_to_copy = []
piece_loop (suc fuel) mem data_to_copy =
    let size = if ltb block data_to_copy then block else data_to_copy in
    let rest = take size mem ∷ piece_loop fuel (drop size mem) (data_to_copy - size) in
    if data_to_copy == 0 then [] else rest

-- `copyToStream2` and `copyTo2` up to the writes: none for an error, else the pieces to be written.
pub copy_to2 : ℕ → ℕ → Linear → Option (List Bytes)
unfolding piece_loop
copy_to2 bytes offset m =
    let left =
      if ltb m.container_bytes (offset + bytes) then m.container_bytes - offset else bytes in
    if bytes == 0
    then some []
    else if overflows offset bytes
    then none
    else if ltb m.container_bytes offset
    then none
    else some (piece_loop left (drop offset m.linear_mem) left)

-- `copyOut2`: what is returned, and the bytes that are written.
unfoldable pub copy_out2 : ℕ → ℕ → Linear → Bool × Bytes
copy_out2 bytes offset m =
    let behind = m.container_bytes - offset in
    if overflows offset bytes
    then (false, [])
    else if bytes == 0
    then (true, [])
    else if ltb m.container_bytes (offset + bytes)
    then (false, [])
    else if ltb m.container_bytes offset
    then (false, [])
    else if behind == 0
    then (true, [])
    else (false, take (if ltb behind bytes then behind else bytes) (drop offset m.linear_mem))

unfoldable pub compare2 : Bytes → Bool → ℕ → Linear → Option Bool
compare2 buf case_sensitive offset m =
    if overflows offset (length buf)
    then some false
    else if length buf == 0
    then some true
    else if ltb m.container_bytes (offset + length buf)
    then some false
    else memicmp2 (drop offset m.linear_mem) buf (length buf) case_sensitive

-- The view behind the virtual functions.
unfoldable pub backend : Linear → Backend
unfolding find_char compare2
backend m = record {
  size = m.container_bytes;
  find_char =
      λ case_sensitive c offset search_space. find_char case_sensitive c offset search_space m;
  compare2 = λ buf case_sensitive offset. compare2 buf case_sensitive offset m;
  copy_out2 = λ bytes offset. copy_out2 bytes offset m;
}
