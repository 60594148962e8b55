-- ===== src/Network/Multiplexer/Commands.antt =====
-- socket_multiplexer.cpp and its parts: `processMultiplexedSocket` and the commands for the data of a
-- line.
use cx_framework.Base.{
  ◌>>=◌, ℕ, Bool, true, false, not, ◌&&◌, ◌||◌, Option, none, some, [], ◌∷◌, ◌++◌, Bytes, length,
  take, drop, leb, ◌==◌, if◌then◌else◌,
}
use cx_framework.Network.Line.{
  null_line, LineId, is_valid_line, add_buffer_element, add_processed_bytes, set_line_remote_id,
  set_remote_window_size,
}
use cx_framework.Network.Stream.{read_uint, read_string}
use cx_framework.Network.Multiplexer.{
  accepts, accepted, fails, Multiplexer, find_line, put_line, send_termination,
  send_line_connection_answer, send_close,
}

-- The number of the reason for an answer, `eConnectFailedReason` as the numbers of the answers.
module _ {S W : Type 0} (read_block : S → ℕ → S × Bool × Bytes)
    (write_block : W → Bytes → W × Bool) where
  -- The line's end of the data: a line that is not there is terminated, unless it is by these data.
  unfoldable pub deliver_data : LineId → Bytes → Multiplexer S W → Option (Multiplexer S W × Bool)
  deliver_data id piece m =
      let l = find_line id.local_line_id m in
      let refused = if length piece == 0 then m else (send_termination write_block id m).0 in
      let delivered =
        add_buffer_element piece l >>= λ l'. some (put_line id.local_line_id l' m, true) in
      if is_valid_line l then delivered else some (refused, true)

  -- Behind the size: the block goes to the front of `readData`, of which as much is passed on as the
  -- size says, whatever was received.
  unfoldable pub receive_data : LineId → ℕ → Multiplexer S W → Option (Multiplexer S W × Bool)
  receive_data id size m =
      let (s, ok, bytes) = read_block m.source size in
      let m' = record m { source = s; read_data = bytes ++ drop (length bytes) m.read_data } in
      let received = deliver_data id (take size m'.read_data) m' in
      if size == 0
      then deliver_data id [] m
      else if ok && not (length bytes == 0)
      then received
      else some (m', false)

  -- `processMultiplexedSocketCommand_Line_Data`. Only the last of the reads is asked how it went.
  unfoldable pub process_line_data : Multiplexer S W → Option (Multiplexer S W × Bool)
  process_line_data m =
      let (s₁, local, _) = read_uint read_block 4 m.source in
      let (s₂, remote, _) = read_uint read_block 4 s₁ in
      let (s₃, size, readen) = read_uint read_block 2 s₂ in
      let m' = record m { source = s₃ } in
      let received =
        receive_data (record { local_line_id = local; remote_line_id = remote }) size m' in
      if readen then received else some (m', false)

  -- `processMultiplexedSocketCommand_Line_UpdateReadenBytes`.
  unfoldable pub deliver_readen : LineId → ℕ → Multiplexer S W → Multiplexer S W × Bool
  deliver_readen id processed m =
      let l = find_line id.local_line_id m in
      if is_valid_line l
      then (put_line id.local_line_id (add_processed_bytes processed l) m, true)
      else ((send_termination write_block id m).0, true)

  unfoldable pub process_line_update_readen_bytes : Multiplexer S W → Multiplexer S W × Bool
  process_line_update_readen_bytes m =
      let (s₁, local, _) = read_uint read_block 4 m.source in
      let (s₂, remote, _) = read_uint read_block 4 s₁ in
      let (s₃, processed, readen) = read_uint read_block 2 s₂ in
      let m' = record m { source = s₃ } in
      if readen
      then deliver_readen (record { local_line_id = local; remote_line_id = remote }) processed m'
      else (m', false)

  -- `processMultiplexedSocketCommand_Line_Connect`, for the text of the empty JSON value and whether a
  -- text parses as JSON: behind its reads, with the text if it was read.
  unfoldable pub connect_line :
      Bytes
      → (Bytes → Bool)
      → Bool
      → ℕ
      → ℕ
      → Option Bytes
      → Multiplexer S W
      → Multiplexer S W × Bool
  connect_line null_text parses authorized remote window none m = (m, false)
  connect_line null_text parses authorized remote window (some text) m =
      let id : LineId = record { local_line_id = null_line; remote_line_id = remote } in
      let answer = λ (msg : ℕ) (n : Multiplexer S W).
        (send_line_connection_answer write_block id msg null_text 0 n).0 in
      if authorized
      then if parses text
        then (answer 0 (record m { threads = accepts id window text ∷ m.threads }), true)
        else (answer 3 m, false)
      else (answer 8 m, false)

  unfoldable pub process_line_connect :
      Bytes → (Bytes → Bool) → Bool → Multiplexer S W → Multiplexer S W × Bool
  process_line_connect null_text parses authorized m =
      let (s₁, remote, _) = read_uint read_block 4 m.source in
      let (s₂, window, _) = read_uint read_block 4 s₁ in
      let (s₃, params) = read_string read_block 25 s₂ in
      connect_line null_text parses authorized remote window params (record m { source = s₃ })

  -- `processMultiplexedSocketCommand_Line_ConnectionAnswer` behind its reads.
  unfoldable pub connection_answer : LineId → ℕ → ℕ → Multiplexer S W → Multiplexer S W
  connection_answer id window msg m =
      let l = find_line id.local_line_id m in
      let established =
        put_line id.local_line_id
          (set_remote_window_size window (set_line_remote_id id.remote_line_id l)) m in
      if is_valid_line l
      then if msg == 1
        then record established { threads = accepted id.local_line_id ∷ established.threads }
        else if leb 2 msg && leb msg 8
        then record m { threads = fails id.local_line_id msg ∷ m.threads }
        else m
      else (send_termination write_block id m).0

  unfoldable pub connection_answered :
      LineId → ℕ → ℕ → Option Bytes → Multiplexer S W → Multiplexer S W × Bool
  connection_answered id window msg none m = (m, false)
  connection_answered id window msg (some text) m = (connection_answer id window msg m, true)

  unfoldable pub process_line_connection_answer : Multiplexer S W → Multiplexer S W × Bool
  process_line_connection_answer m =
      let (s₁, local, _) = read_uint read_block 4 m.source in
      let (s₂, remote, _) = read_uint read_block 4 s₁ in
      let (s₃, window, _) = read_uint read_block 4 s₂ in
      let (s₄, msg, _) = read_uint read_block 1 s₃ in
      let (s₅, text) = read_string read_block 25 s₄ in
      connection_answered (record { local_line_id = local; remote_line_id = remote }) window msg
        text (record m { source = s₅ })

  -- The command of a message, `processMultiplexedSocket` behind its read; the plugins are a parameter.
  unfoldable pub dispatch :
      (ℕ → Multiplexer S W → Multiplexer S W × Bool)
      → Bytes
      → (Bytes → Bool)
      → Bool
      → ℕ
      → Multiplexer S W
      → Option (Multiplexer S W × Bool)
  dispatch plugins null_text parses authorized msg m =
      if msg == 2
      then some (m, false)
      else if msg == 1
      then some ((send_close write_block 2 m).0, false)
      else if msg == 0
      then some (send_close write_block 1 m)
      else if msg == 240
      then some (process_line_connect null_text parses authorized m)
      else if msg == 16 || msg == 17
      then some (plugins msg m)
      else if msg == 241
      then some (process_line_connection_answer m)
      else if msg == 242
      then process_line_data m
      else if msg == 243
      then some (process_line_update_readen_bytes m)
      else some (m, true)

  unfoldable pub process_multiplexed_socket :
      (ℕ → Multiplexer S W → Multiplexer S W × Bool)
      → Bytes
      → (Bytes → Bool)
      → Bool
      → Multiplexer S W
      → Option (Multiplexer S W × Bool)
  process_multiplexed_socket plugins null_text parses authorized m =
      let (s, msg, readen) = read_uint read_block 1 m.source in
      let m' = record m { source = s } in
      let next = dispatch plugins null_text parses authorized msg m' in
      if readen then next else some (m', false)
