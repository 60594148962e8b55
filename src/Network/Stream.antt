-- ===== src/Network/Stream.antt =====
-- cxNetwork/libcx_net_sockets/src/streams: `Stream_Reader` and `Stream_Writer`, integers, blocks and
-- texts over the virtual `readBlock` and `writeBlock` that a kind of socket implements.
pub mod Socket
pub mod Numbers
pub mod Texts
pub mod Mismatch
pub mod Drip
mod Tests
use cx_framework.Base.{
  ℕ, zero, suc, ◌+◌, ◌-◌, ◌*◌, ◌/◌, ◌%◌, ◌^◌, Bool, true, false, not, ◌&&◌, Option, none, some,
  List, [], ◌∷◌, ◌++◌, Bytes, length, take, replicate, ltb, leb, ◌==◌, if◌then◌else◌,
}

-- A number of `size` bytes in network order, and the bytes of one.
unfoldable pub from_network : Bytes → ℕ
from_network [] = 0
from_network (b ∷ bytes) = b * 256 ^ length bytes + from_network bytes

unfoldable pub to_network : ℕ → ℕ → Bytes
to_network zero n = []
to_network (suc size) n = n / 256 ^ size % 256 ∷ to_network size n

-- How many bytes the length of a text takes for a `sizel`.
unfoldable pub length_size : ℕ → ℕ
length_size sizel = if sizel == 8 then 1 else if sizel == 16 then 2 else 4

-- `readBlock`: the state behind the call, its result, and the bytes that were received.
module _ {S : Type 0} (read_block : S → ℕ → S × Bool × Bytes) where
  -- `readU8` to `readU64`: what was not received stays 0.
  unfoldable pub read_uint : ℕ → S → S × ℕ × Bool
  unfolding from_network
  read_uint size s =
      let (s', ok, bytes) = read_block s size in
      (s', from_network (take size (bytes ++ replicate size 0)), ok && (length bytes == size))

  -- `readBlock8`, `readBlock16` and `readBlock32` for a buffer of `datalen` bytes: the block.
  pub read_sized_block : ℕ → ℕ → Bool → S → S × Option Bytes
  unfolding read_uint
  read_sized_block size datalen keep_data_len s =
      let (s', len, read_ok) = read_uint size s in
      let (s'', ok, bytes) = read_block s' len in
      if not (len == 0) && read_ok
      then if not (len == datalen) && not keep_data_len
        then (s', none)
        else (s'', if ok && (length bytes == len) then some bytes else none)
      else (s', none)

  pub read_block8 : ℕ → Bool → S → S × Option Bytes
  unfolding read_sized_block
  read_block8 = read_sized_block 1

  pub read_block16 : ℕ → Bool → S → S × Option Bytes
  unfolding read_sized_block
  read_block16 = read_sized_block 2

  pub read_block32 : ℕ → Bool → S → S × Option Bytes
  unfolding read_sized_block
  read_block32 = read_sized_block 4

  -- `readBlock32WAlloc`.
  pub read_block32_alloc : ℕ → S → S × Option Bytes
  unfolding read_uint
  read_block32_alloc datalen s =
      let (s', len, read_ok) = read_uint 4 s in
      let (s'', ok, bytes) = read_block s' len in
      if not (len == 0) && read_ok
      then if ltb datalen len
        then (s', none)
        else (s'', if ok && (length bytes == len) then some bytes else none)
      else (s', none)

  -- `readBlockWAlloc` behind its length. The length and the byte behind the text are counted in 32
  -- bits.
  unfoldable pub alloc_sized : ℕ → S → ℕ → Bool → S × Option Bytes
  alloc_sized datalen s len read_ok =
      let received = (len + 1) % 2 ^ 32 in
      let size = (2 ^ 32 + received - 1) % 2 ^ 32 in
      let (s', ok, bytes) = read_block s size in
      if read_ok
      then if ltb datalen received
        then (s, none)
        else (s', if ok && (length bytes == size) then some bytes else none)
      else (s, none)

  -- `readBlockWAlloc`, for a `sizel` of 8, 16 or more.
  unfoldable pub read_block_alloc : ℕ → ℕ → S → S × Option Bytes
  unfolding read_uint length_size
  read_block_alloc datalen sizel s =
      let (s', len, read_ok) = read_uint (length_size sizel) s in alloc_sized datalen s' len read_ok

  -- `readString`, for a `sizel` below 32: `none` is the empty text with `*readOK` false.
  unfoldable pub read_string : ℕ → S → S × Option Bytes
  unfolding read_block_alloc
  read_string sizel s = read_block_alloc (2 ^ sizel - 1) sizel s

-- The writes of a chain of `if (!…) return false;`.
unfoldable pub and_then : {W : Type 0} → W × Bool → (W → W × Bool) → W × Bool
and_then (w, ok) next = if ok then next w else (w, false)

-- `writeBlock`: the state behind the call and its result.
module _ {W : Type 0} (write_block : W → Bytes → W × Bool) where
  -- `writeU8` to `writeU64`.
  unfoldable pub write_uint : ℕ → ℕ → W → W × Bool
  unfolding to_network
  write_uint size n w = write_block w (to_network size n)

  -- `writeBlock8` to `writeBlock32`.
  unfoldable pub write_sized_block : ℕ → Bytes → W → W × Bool
  unfolding write_uint and_then
  write_sized_block size bytes w =
      and_then (write_uint size (length bytes) w) (λ w'. write_block w' bytes)

  -- `writeString8`, `writeString16` and `writeString32`, with the largest size.
  unfoldable pub write_string : ℕ → ℕ → Bytes → W → W × Bool
  unfolding write_sized_block
  write_string size max_size text w =
      if ltb max_size (length text) then (w, false) else write_sized_block size text w
