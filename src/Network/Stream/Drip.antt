-- ===== src/Network/Stream/Drip.antt =====
-- A stream of bytes in memory that gives one of them at a time.
use cx_framework.Base.{ℕ, Bool, false, [], not, Bytes, length, take, drop, ◌==◌, refl, arith}
use cx_framework.Network.Stream.Socket.{read_block, IsStream, IsReader, read_block-IsReader}

abbrev pub is_open : Bytes → Bool
is_open s = not (length s == 0)

abbrev pub drip : Bytes → ℕ → Bytes × Bytes
drip s n = (drop 1 s, take 1 s)

abbrev pub pending : Bytes → Bytes
pending s = s

pub drip-IsStream : IsStream is_open drip pending
drip-IsStream = record {
  active = λ s some_bytes. ground arith;
  reads = λ s n some_bytes there. (1, omega arith, omega arith, refl, refl);
}

abbrev pub read_drip : Bytes → ℕ → Bytes × Bool × Bytes
read_drip = read_block is_open drip (λ s n. (s, false, []))

pub drip-IsReader : IsReader read_drip pending
drip-IsReader = read_block-IsReader is_open drip pending drip-IsStream (λ s n. (s, false, []))
