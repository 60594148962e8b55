-- ===== src/Network/Line.antt =====
-- cxNetwork/libcx_net_multiplexer/src: `Socket_Multiplexed_Line` of socket_multiplexed_line.cpp, a line
-- of the multiplexer with the window that limits what its peer may send. A call that waits on a
-- condition gives `none` until the condition holds.
pub mod System
pub mod Flow
pub mod Arrivals
pub mod Progress
mod Tests
use cx_framework.Base.{
  ℕ, suc, ◌+◌, ◌-◌, ◌*◌, ◌%◌, ◌^◌, Bool, true, false, not, ◌&&◌, Option, none, some, List, [], ◌∷◌,
  ◌++◌, Bytes, length, ltb, leb, ◌==◌, if◌then◌else◌,
}

-- The numbers that a line starts with, and its state. A buffer element is its bytes, of which an
-- empty one ends the line.
abbrev pub mux_line_sendbuf : ℕ
mux_line_sendbuf = 8192

abbrev pub mux_line_heapsize : ℕ
mux_line_heapsize = 512 * 1024

abbrev pub null_line : ℕ
null_line = 2 ^ 32 - 1

pub record LineId : Type 0 where
  pub local_line_id : ℕ
  pub remote_line_id : ℕ

pub record Line : Type 0 where
  pub local_window_size : ℕ
  pub local_window_used_buffer : ℕ
  pub remote_window_size : ℕ
  pub remote_unprocessed_bytes : ℕ
  pub remote_unprocessed_finished : Bool
  pub process_line_finished : Bool
  pub line_id : LineId
  pub data_buffer : List Bytes

abbrev pub new_line : Line
new_line = record {
  local_window_size = mux_line_heapsize;
  local_window_used_buffer = 0;
  remote_window_size = 0;
  remote_unprocessed_bytes = 0;
  remote_unprocessed_finished = false;
  process_line_finished = false;
  line_id = record { local_line_id = null_line; remote_line_id = null_line };
  data_buffer = [];
}

unfoldable pub is_valid_line : Line → Bool
is_valid_line l = not (l.line_id.local_line_id == null_line)

unfoldable pub set_line_local_id : ℕ → Line → Line
set_line_local_id value l = record l { line_id = record l.line_id { local_line_id = value } }

unfoldable pub set_line_remote_id : ℕ → Line → Line
set_line_remote_id value l = record l { line_id = record l.line_id { remote_line_id = value } }

unfoldable pub finalize_processor : Line → Line
finalize_processor l = record l { process_line_finished = true }

unfoldable pub set_remote_window_size : ℕ → Line → Line
set_remote_window_size value l = record l { remote_window_size = value }

-- The peer has taken `value` bytes from its buffer.
unfoldable pub add_processed_bytes : ℕ → Line → Line
add_processed_bytes value l =
    if l.remote_unprocessed_finished
    then record l { remote_unprocessed_bytes = 0 }
    else if ltb l.remote_unprocessed_bytes value
    then record l { remote_unprocessed_bytes = 0 }
    else record l { remote_unprocessed_bytes = l.remote_unprocessed_bytes - value }

pub get_remote_available_bytes : Line → Option ℕ
get_remote_available_bytes l =
    if leb l.remote_window_size l.remote_unprocessed_bytes
    then none
    else some (l.remote_window_size - l.remote_unprocessed_bytes)

pub reset_remote_available_bytes : Line → Line
reset_remote_available_bytes l = record l {
  remote_unprocessed_bytes = 0;
  remote_unprocessed_finished = true;
}

-- How many bytes `processLine` asks its socket for, of those that the peer has room for.
pub read_size : ℕ → ℕ
read_size av_bytes = if ltb mux_line_sendbuf av_bytes then mux_line_sendbuf else av_bytes

-- `remoteUnprocessedBytes += len` behind a read that was sent.
pub count_sent : ℕ → Line → Line
count_sent len l = record l {
  remote_unprocessed_bytes = (l.remote_unprocessed_bytes + len) % 2 ^ 32;
}

-- `addBufferElement` of a buffer.
unfoldable pub add_buffer_element : Bytes → Line → Option Line
add_buffer_element piece l =
    if leb ((l.local_window_size * 2 + 1) % 2 ^ 32)
      ((length piece + l.local_window_used_buffer) % 2 ^ 32)
    then none
    else some (record l {
      data_buffer = l.data_buffer ++ piece ∷ [];
      local_window_used_buffer = (l.local_window_used_buffer + length piece) % 2 ^ 32;
    })

-- `getBufferElement` when it blocks: the element, and the line without it.
unfoldable pub first_element : List Bytes → Line → Option (Bytes × Line)
first_element [] l = none
first_element (piece ∷ rest) l = some (
  piece,
  record l {
    data_buffer = rest;
    local_window_used_buffer = (2 ^ 32 + l.local_window_used_buffer - length piece) % 2 ^ 32;
  },
)

pub get_buffer_element : Line → Option (Bytes × Line)
unfolding first_element
get_buffer_element l = first_element l.data_buffer l

-- What it sends to the peer then: the size of an element that is not empty.
pub readen_bytes : Bytes → List ℕ
readen_bytes piece = if length piece == 0 then [] else length piece ∷ []

-- `processBuffer`: whether it is to be called again, for a `writeBlock` to the socket of the line.
pub process_buffer : (Bytes → Bool) → Line → Option (Bool × List ℕ × Line)
unfolding get_buffer_element readen_bytes
process_buffer write_block l = elim (get_buffer_element l) [
  | none ↦ none
  | some (piece, l') ↦
      some (if length piece == 0 then false else write_block piece, readen_bytes piece, l')
]
