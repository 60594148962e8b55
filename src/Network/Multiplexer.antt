-- ===== src/Network/Multiplexer.antt =====
-- cxNetwork/libcx_net_multiplexer/src: `Socket_Multiplexer_Lines` and the commands of
-- `Socket_Multiplexer` over its socket. A thread that is started is noted; what a condition makes wait
-- gives `none`.
pub mod Commands
pub mod Connect
pub mod Frames
pub mod Lines
mod Tests
use cx_framework.Base.{
  ℕ, zero, suc, ◌+◌, ◌-◌, ◌^◌, Bool, true, false, not, ◌&&◌, Option, none, some, List, [], ◌∷◌,
  ◌++◌, Bytes, length, take, drop, ◌==◌, if◌then◌else◌, lookup, insert, erase, Eq, nat_eq, ◌*◌,
}
use cx_framework.Network.Line.{
  null_line, LineId, Line, new_line, is_valid_line, set_line_local_id, finalize_processor,
}
use cx_framework.Network.Stream.{write_uint, and_then, write_string}

-- `eLineAcceptAnswerMSG` is its number; so are the reasons of a connection that has failed.
pub data Thread : Type 0 where
  accepts : LineId → ℕ → Bytes → Thread
  accepted : ℕ → Thread
  fails : ℕ → ℕ → Thread

-- The socket in both directions, the lines by their local number, whether `mtLock_OnEmptyLines` is
-- held, and the buffer that blocks are read into.
pub record Multiplexer (S W : Type 0) : Type 0 where
  pub source : S
  pub target : W
  pub lines : List (ℕ × Line)
  pub on_empty_locked : Bool
  pub no_new_connections : Bool
  pub no_send_data : Bool
  pub read_data : Bytes
  pub threads : List Thread

-- `findLocalAvailableSlot`, on what the generator draws in its rounds.
pub find_local_available_slot : List ℕ → List (ℕ × Line) → ℕ
find_local_available_slot [] lines = null_line
find_local_available_slot (ntry ∷ draws) lines =
    let rest = find_local_available_slot draws lines in
    if ntry == null_line then rest else elim (lookup ntry lines) [ none ↦ ntry | some l ↦ rest ]

is_empty : List (ℕ × Line) → Bool
is_empty [] = true
is_empty (l ∷ lines) = false

-- A line that is not there is a new one, which has no number.
abbrev pub line_or_new : Option Line → Line
line_or_new none = new_line
line_or_new (some l) = l

-- What is written, over `writeBlock`.
module _ {W : Type 0} (write_block : W → Bytes → W × Bool) where
  send_line_id : ℕ → W → W × Bool
  unfolding write_uint
  send_line_id id w = write_uint write_block 4 id w

  -- A message with the numbers of a line.
  unfoldable pub line_message : ℕ → LineId → (W → W × Bool) → W → W × Bool
  unfolding send_line_id and_then
  line_message msg id next w = and_then (write_uint write_block 1 msg w) (λ w₁.
      and_then (send_line_id id.remote_line_id w₁)
        (λ w₂. and_then (send_line_id id.local_line_id w₂) next))

  unfoldable pub line_data : LineId → Bytes → W → W × Bool
  unfolding line_message
  line_data id piece = line_message 242 id (λ w.
      and_then (write_uint write_block 2 (length piece) w)
        (λ w'. if length piece == 0 then (w', true) else write_block w' piece))

module _ {S W : Type 0} where
  -- `registerLine`: the new line, which has no number if there is no slot.
  pub register_line : List ℕ → Multiplexer S W → Multiplexer S W × Line
  unfolding find_local_available_slot is_empty set_line_local_id
  register_line draws m =
      let i = find_local_available_slot draws m.lines in
      let l = set_line_local_id i new_line in
      if m.no_new_connections
      then (m, new_line)
      else if i == null_line
      then (record m { on_empty_locked = false }, new_line)
      else (
        record m {
          lines = insert i l m.lines;
          on_empty_locked = if is_empty m.lines then true else m.on_empty_locked;
        },
        l,
      )

  -- `findLine`.
  unfoldable pub find_line : ℕ → Multiplexer S W → Line
  find_line id m = line_or_new (lookup id m.lines)

  pub remove_line : ℕ → Multiplexer S W → Multiplexer S W
  unfolding is_empty
  remove_line id m = elim (lookup id m.lines) [
    | none ↦ m
    | some l ↦
        let lines = erase id m.lines in
        record m {
          lines = lines;
          on_empty_locked = if is_empty lines then false else m.on_empty_locked;
        }
  ]

  -- `stopAndRemoveLine`: the line itself is finalized then.
  pub stop_and_remove_line : Line → Multiplexer S W → Multiplexer S W × Line
  unfolding remove_line finalize_processor
  stop_and_remove_line l m = (remove_line l.line_id.local_line_id m, finalize_processor l)

  unfoldable pub put_line : ℕ → Line → Multiplexer S W → Multiplexer S W
  put_line id l m = record m { lines = insert id l m.lines }

  -- Under the lock: nothing while `noSendData`, and the target behind the writes.
  unfoldable pub send : (W → W × Bool) → Multiplexer S W → Multiplexer S W × Bool
  send writes m =
      let (w, ok) = writes m.target in
      if m.no_send_data then (m, false) else (record m { target = w }, ok)

  -- The frames that are sent, over `writeBlock`.
  module _ (write_block : W → Bytes → W × Bool) where
    -- `multiplexedSocket_sendLineData` of at most 65535 bytes.
    unfoldable pub send_line_data : LineId → Bytes → Multiplexer S W → Multiplexer S W × Bool
    send_line_data id piece = send (line_data write_block id piece)

    unfoldable pub send_termination : LineId → Multiplexer S W → Multiplexer S W × Bool
    send_termination id = send_line_data id []

    unfoldable pub send_readen_bytes : LineId → ℕ → Multiplexer S W → Multiplexer S W × Bool
    send_readen_bytes id freed_size =
        send (line_message write_block 243 id (λ w. write_uint write_block 2 freed_size w))

    -- `multiplexedSocket_sendLineConnectionAnswer` with the text of its JSON value.
    unfoldable pub send_line_connection_answer :
        LineId → ℕ → Bytes → ℕ → Multiplexer S W → Multiplexer S W × Bool
    send_line_connection_answer id msg text window = send (
        line_message write_block 241 id (λ w. and_then (write_uint write_block 4 window w) (λ w₁.
          and_then (write_uint write_block 1 msg w₁)
            (λ w₂. write_string write_block 4 (8 * 1024 * 1024) text w₂))))

    -- `multiplexedSocket_sendCloseACK1`, `…ACK2` and `close`, which do not ask `noSendData`.
    unfoldable pub send_close : ℕ → Multiplexer S W → Multiplexer S W × Bool
    send_close msg m =
        let (w, ok) = write_uint write_block 1 msg m.target in (record m { target = w }, ok)
