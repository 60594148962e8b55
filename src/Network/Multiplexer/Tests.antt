-- ===== src/Network/Multiplexer/Tests.antt =====
-- Two multiplexers, of which the second has line 7.
use cx_framework.Base.{
  ℕ, Bool, true, false, some, [], ◌∷◌, ◌++◌, Bytes, length, drop, ◌==◌, ◌≡◌, refl, sym, ap, ◌∙◌,
  arith, Bool-cases, inl, inr, on_true, on_false, some_inj, ==_iff, lookup, insert, nat_eq,
}
use cx_framework.Network.Line.{LineId, Line, new_line, is_valid_line, add_buffer_element}
use cx_framework.Network.Stream.Texts.{keep_all}
use cx_framework.Network.Stream.Drip.{pending, read_drip, drip-IsReader}
use cx_framework.Network.Multiplexer.{Multiplexer, send, line_data, send_line_data}
use cx_framework.Network.Multiplexer.Commands.{process_multiplexed_socket}
use cx_framework.Network.Multiplexer.Frames.{process-send_line_data}
use cx_framework.Network.Multiplexer.Lines.{IsKeyed, process_multiplexed_socket-IsKeyed}

abbrev line_seven : Line
line_seven = record new_line { line_id = record { local_line_id = 7; remote_line_id = 3 } }

abbrev sender : Multiplexer Bytes Bytes
sender = record {
  source = [];
  target = [];
  lines = [];
  on_empty_locked = false;
  no_new_connections = false;
  no_send_data = false;
  read_data = [];
  threads = [];
}

abbrev hello : Bytes
hello = b'h' ∷ b'o' ∷ []

abbrev frame : Bytes
frame = 242 ∷ 0 ∷ 0 ∷ 0 ∷ 7 ∷ 0 ∷ 0 ∷ 0 ∷ 3 ∷ 0 ∷ 2 ∷ b'h' ∷ b'o' ∷ []

abbrev receiver : Multiplexer Bytes Bytes
receiver = record sender { source = frame; lines = (7, line_seven) ∷ [] }

abbrev to_seven : LineId
to_seven = record { local_line_id = 3; remote_line_id = 7 }

abbrev filled : Line
filled = record line_seven { data_buffer = hello ∷ []; local_window_used_buffer = 2 }

abbrev no_plugins : ℕ → Multiplexer Bytes Bytes → Multiplexer Bytes Bytes × Bool
no_plugins msg m = (m, true)

process-send_line_data_example :
    (s' : Bytes) × (process_multiplexed_socket read_drip keep_all no_plugins []
        (λ t. true)
        true
        receiver
      ≡ some (
        record receiver {
          source = s';
          read_data = hello ++ drop (length hello) [];
          lines = insert 7 filled receiver.lines;
        },
        true,
      ))
    × (pending s' ≡ [])
unfolding send_line_data send line_data lookup is_valid_line add_buffer_element
process-send_line_data_example =
    process-send_line_data read_drip keep_all pending drip-IsReader no_plugins [] (λ t. true) true
      sender receiver to_seven hello [] line_seven filled refl refl (omega arith) (omega arith)
      (omega arith) (omega arith) refl refl refl refl

seven-IsKeyed : IsKeyed receiver.lines
unfolding IsKeyed lookup
seven-IsKeyed k l found = elim (Bool-cases (7 == k)) [
  | inl same ↦
      let e : 7 ≡ k = (==_iff 7 k).0 same in
      let taken : line_seven ≡ l = some_inj (sym (on_true (7 == k) _ _ same) ∙ found) in
      (ap (λ (x : Line). x.line_id.local_line_id) (sym taken) ∙ e, omega (arith, e))
  | inr other ↦ absurd (cc (sym (on_false (7 == k) _ _ other) ∙ found))
]

run :
    (s' : Bytes) × (process_multiplexed_socket read_drip keep_all no_plugins []
        (λ t. true)
        true
        receiver
      ≡ some (
        record receiver {
          source = s';
          read_data = hello ++ drop (length hello) [];
          lines = insert 7 filled receiver.lines;
        },
        true,
      ))
    × (pending s' ≡ [])
unfolding send_line_data send line_data lookup is_valid_line add_buffer_element
run =
    process-send_line_data read_drip keep_all pending drip-IsReader no_plugins [] (λ t. true) true
      sender receiver to_seven hello [] line_seven filled refl refl (omega arith) (omega arith)
      (omega arith) (omega arith) refl refl refl refl

process_multiplexed_socket-IsKeyed_example : IsKeyed (insert 7 filled receiver.lines)
process_multiplexed_socket-IsKeyed_example =
    process_multiplexed_socket-IsKeyed read_drip keep_all no_plugins [] (λ t. true) true receiver
      (record receiver {
        source = run.0;
        read_data = hello;
        lines = insert 7 filled receiver.lines;
      })
      true (λ msg n keyed. keyed) seven-IsKeyed (run.1)
