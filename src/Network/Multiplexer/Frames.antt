-- ===== src/Network/Multiplexer/Frames.antt =====
-- The frames of a line from one multiplexer to another.
use cx_framework.Base.{
  ℕ, ◌^◌, ◌<◌, Bool, true, false, not, some, [], ◌∷◌, ◌++◌, Bytes, length, drop, ◌==◌, ◌≡◌, refl,
  ap, ◌∙◌, arith, on_true, on_false, lookup, insert, nat_eq,
}
use cx_framework.Network.Line.{LineId, Line, is_valid_line, add_buffer_element}
use cx_framework.Network.Stream.{to_network, write_uint, and_then}
use cx_framework.Network.Stream.Socket.{IsReader}
use cx_framework.Network.Stream.Numbers.{
  from_network-byte, from_network-short, from_network-long, read_front, read_uint-to_network,
  take_prefix,
}
use cx_framework.Network.Stream.Texts.{keep_all}
use cx_framework.Network.Multiplexer.{
  Multiplexer, send, line_message, line_data, send_line_data, find_line, put_line,
}
use cx_framework.Network.Multiplexer.Commands.{
  deliver_data, receive_data, process_line_data, dispatch, process_multiplexed_socket,
}

-- The front of a message, and what stands behind it.
abbrev message : ℕ → LineId → Bytes → Bytes
message msg id rest =
    to_network 1 msg ++ (to_network 4 id.remote_line_id ++ (to_network 4 id.local_line_id ++ rest))

line_data_lem :
    (id : LineId) (b : ℕ) (piece : Bytes)
    → line_data keep_all id (b ∷ piece) []
      ≡ (message 242 id (to_network 2 (length (b ∷ piece)) ++ (b ∷ piece)), true)
unfolding line_data line_message write_uint and_then
line_data_lem id b piece = on_false (length (b ∷ piece) == 0) _ _ (ground arith)

module _ {S W : Type 0} (read_block : S → ℕ → S × Bool × Bytes) (write_block : W → Bytes → W × Bool)
    (pending : S → Bytes) (reader : IsReader read_block pending) where
  -- A block that is there goes to its line.
  receive_data-delivers :
      (id : LineId) (piece rest : Bytes) (m : Multiplexer S W)
      → 0 < length piece
      → length piece < 2 ^ 31
      → pending m.source ≡ piece ++ rest
      → (s' : S) × (receive_data read_block write_block id (length piece) m
          ≡ deliver_data read_block write_block id piece
              (record m { source = s'; read_data = piece ++ drop (length piece) m.read_data }))
        × (pending s' ≡ rest)
  unfolding receive_data
  receive_data-delivers id piece rest m some_bytes counted there =
      let (s', e, left) =
        read_front read_block pending reader m.source (length piece) piece rest some_bytes counted
          refl there in
      let m' = record m { source = s'; read_data = piece ++ drop (length piece) m.read_data } in
      (
        s',
        rw e (
            on_false (length piece == 0) _ _ (ground arith)
            ∙ on_true (not (length piece == 0)) _ _ (ground arith)
            ∙ ap (λ (t : Bytes). deliver_data read_block write_block id t m')
                (take_prefix (length piece) piece (drop (length piece) m.read_data) refl)),
        left,
      )

  find_line-found :
      (id : ℕ) (m : Multiplexer S W) (l : Line) → lookup id m.lines ≡ some l → find_line id m ≡ l
  unfolding find_line
  find_line-found id m l found = rw found refl

  deliver_data-line :
      (id : LineId) (piece : Bytes) (m : Multiplexer S W) (l l' : Line)
      → lookup id.local_line_id m.lines ≡ some l
      → is_valid_line l ≡ true
      → add_buffer_element piece l ≡ some l'
      → deliver_data read_block write_block id piece m ≡ some (put_line id.local_line_id l' m, true)
  unfolding deliver_data
  deliver_data-line id piece m l l' found valid room =
      rw (find_line-found id.local_line_id m l found, valid, room) refl

  -- The numbers in front of a message of data.
  process_line_data-reads :
      (id : LineId) (size : ℕ) (rest : Bytes) (m : Multiplexer S W)
      → id.remote_line_id < 2 ^ 32
      → id.local_line_id < 2 ^ 32
      → size < 2 ^ 16
      → pending m.source
        ≡ to_network 4 id.remote_line_id
          ++ (to_network 4 id.local_line_id ++ (to_network 2 size ++ rest))
      → (s' : S) × (process_line_data read_block write_block m
          ≡ receive_data read_block write_block
              (record { local_line_id = id.remote_line_id; remote_line_id = id.local_line_id })
              size
              (record m { source = s' }))
        × (pending s' ≡ rest)
  unfolding process_line_data
  process_line_data-reads id size rest m remote local small there =
      let (s₁, e₁, left₁) =
        read_uint-to_network read_block pending reader m.source 4 id.remote_line_id _ (omega arith)
          (omega arith) (from_network-long id.remote_line_id remote) there in
      let (s₂, e₂, left₂) =
        read_uint-to_network read_block pending reader s₁ 4 id.local_line_id _ (omega arith)
          (omega arith) (from_network-long id.local_line_id local) left₁ in
      let (s₃, e₃, left₃) =
        read_uint-to_network read_block pending reader s₂ 2 size rest (omega arith) (omega arith)
          (from_network-short size small) left₂ in
      (s₃, rw (e₁, e₂, e₃) refl, left₃)

  -- What one multiplexer sends on a line, for bytes that are not empty and at most 65535, the other
  -- takes off its socket, whatever parts it arrives in, and puts in the buffer of the line that has
  -- the remote number, if that line is there and has room: what lies behind the frame stays.
  pub process-send_line_data :
      (plugins : ℕ → Multiplexer S W → Multiplexer S W × Bool) (null_text : Bytes)
      (parses : Bytes → Bool) (authorized : Bool) (a : Multiplexer S Bytes) (m : Multiplexer S W)
      (id : LineId) (piece rest : Bytes) (l l' : Line)
      → a.no_send_data ≡ false
      → a.target ≡ []
      → 0 < length piece
      → length piece < 2 ^ 16
      → id.remote_line_id < 2 ^ 32
      → id.local_line_id < 2 ^ 32
      → pending m.source ≡ (send_line_data keep_all id piece a).0.target ++ rest
      → lookup id.remote_line_id m.lines ≡ some l
      → is_valid_line l ≡ true
      → add_buffer_element piece l ≡ some l'
      → (s' : S) × (process_multiplexed_socket read_block write_block plugins null_text parses
            authorized m
          ≡ some (
            record m {
              source = s';
              read_data = piece ++ drop (length piece) m.read_data;
              lines = insert id.remote_line_id l' m.lines;
            },
            true,
          ))
        × (pending s' ≡ rest)
  unfolding process_multiplexed_socket dispatch send_line_data put_line to_network
  process-send_line_data plugins null_text parses authorized a m id [] rest l l' sends empty
        some_bytes small remote local there found valid room =
      absurd (omega arith)
  process-send_line_data plugins null_text parses authorized a m id (b ∷ piece) rest l l' sends
        empty some_bytes small remote local there found valid room =
      let frame : (send_line_data keep_all id (b ∷ piece) a).0.target
          ≡ message 242 id (to_network 2 (length (b ∷ piece)) ++ (b ∷ piece)) =
        unfold send in
        (ap (λ (r : Multiplexer S Bytes × Bool). r.0.target) (on_false a.no_send_data _ _ sends)
          ∙ ap (λ (w : Bytes). (line_data keep_all id (b ∷ piece) w).0) empty
          ∙ ap (λ (r : Bytes × Bool). r.0) (line_data_lem id b piece)) in
      let (s₁, e₁, left₁) =
        read_uint-to_network read_block pending reader m.source 1 242 _ (omega arith) (omega arith)
          (from_network-byte 242 (omega arith)) (there ∙ ap (λ (t : Bytes). t ++ rest) frame) in
      let (s₂, e₂, left₂) =
        process_line_data-reads id (length (b ∷ piece)) ((b ∷ piece) ++ rest)
          (record m { source = s₁ }) remote local small left₁ in
      let (s₃, e₃, left₃) =
        receive_data-delivers
          (record { local_line_id = id.remote_line_id; remote_line_id = id.local_line_id })
          (b ∷ piece) rest (record m { source = s₂ }) some_bytes (omega (arith, small)) left₂ in
      (
        s₃,
        rw e₁ (
            e₂
            ∙ e₃
            ∙ deliver_data-line
                (record { local_line_id = id.remote_line_id; remote_line_id = id.local_line_id })
                (b ∷ piece) _ l l' found valid room),
        left₃,
      )
