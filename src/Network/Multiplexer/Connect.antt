-- ===== src/Network/Multiplexer/Connect.antt =====
-- socket_multiplexer_a_connect.cpp and socket_multiplexer_a_server.cpp: `connect`, and what the threads
-- for an accepted, a refused and a served line do. A callback is whether it gives a socket; what
-- happens while `processLine` runs is a parameter.
use cx_framework.Base.{
  ℕ, ◌-◌, ◌^◌, Bool, not, Option, none, some, List, [], Bytes, ◌==◌, if◌then◌else◌,
}
use cx_framework.Network.Line.{
  null_line, LineId, is_valid_line, set_line_remote_id, set_remote_window_size,
}
use cx_framework.Network.Stream.{write_uint, and_then, write_string}
use cx_framework.Network.Multiplexer.{
  Multiplexer, register_line, find_line, put_line, stop_and_remove_line, send_line_data,
  send_line_connection_answer,
}

-- What `connect` writes.
module _ {W : Type 0} (write_block : W → Bytes → W × Bool) where
  connect_frame : ℕ → ℕ → Bytes → W → W × Bool
  connect_frame id window text w = and_then (write_uint write_block 1 240 w) (λ w₁.
      and_then (write_uint write_block 4 id w₁) (λ w₂.
        and_then (write_uint write_block 4 window w₂)
          (λ w₃. write_string write_block 2 (2 ^ 16 - 1) text w₃)))

module _ {S W : Type 0} (write_block : W → Bytes → W × Bool) where
  -- `connect`, for whether the lock was got in time, and the text of the parameters.
  pub connect : Bool → List ℕ → Bytes → Multiplexer S W → Multiplexer S W × ℕ
  unfolding connect_frame
  connect locked draws text m =
      let (m', l) = register_line draws m in
      let id = l.line_id.local_line_id in
      let (w, written) = connect_frame write_block id l.local_window_size text m'.target in
      let sent = record m' { target = w } in
      if not locked
      then (m, null_line)
      else if id == null_line
      then (m', null_line)
      else if written
      then (sent, id)
      else ((stop_and_remove_line l sent).0, null_line)

  -- What follows a line that was processed: its end is sent, and it is removed.
  finish_line : ℕ → Multiplexer S W → Multiplexer S W
  finish_line id m =
      let l = find_line id m in
      (stop_and_remove_line l (send_line_data write_block l.line_id [] m).0).0

  -- `client_HandlerConnection_Callback`, with or without a callback and its socket.
  pub client_handler :
      Option Bool → (ℕ → Multiplexer S W → Multiplexer S W) → ℕ → Multiplexer S W → Multiplexer S W
  unfolding finish_line
  client_handler none process_line id m = m
  client_handler (some socket) process_line id m =
      let processed = process_line id m in finish_line id (if socket then processed else m)

  -- `client_FailedConnection_Callback`.
  pub client_failed : Bool → ℕ → Multiplexer S W → Multiplexer S W
  client_failed callback id m =
      let removed = (stop_and_remove_line (find_line id m) m).0 in if callback then removed else m

  -- `server_AcceptConnection_Callback`, with the text of the empty JSON value.
  pub server_accept :
      Bytes
      → Option (ℕ → Bytes → Bool)
      → (ℕ → Multiplexer S W → Multiplexer S W)
      → List ℕ
      → LineId
      → ℕ
      → Bytes
      → Multiplexer S W
      → Multiplexer S W
  unfolding finish_line
  server_accept null_text callback process_line draws id window params m =
      let (m', l) = register_line draws m in
      let refuse = λ (msg : ℕ). (send_line_connection_answer write_block id msg null_text 0 m').0 in
      let local = l.line_id.local_line_id in
      let l' = set_line_remote_id id.remote_line_id (set_remote_window_size window l) in
      let answered =
        (send_line_connection_answer write_block l'.line_id 1 null_text l.local_window_size
          (put_line local l' m')).0 in
      let served = finish_line local (process_line local answered) in
      if not (is_valid_line l) then refuse 7 else elim callback [
        | none ↦ (stop_and_remove_line l (refuse 5)).0
        | some gives ↦ if gives local params then served else (stop_and_remove_line l (refuse 6)).0
      ]
