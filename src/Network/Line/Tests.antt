-- ===== src/Network/Line/Tests.antt =====
-- A line that sends two bytes.
use cx_framework.Base.{ℕ, ◌≤◌, ◌≡◌, refl, some, [], ◌∷◌, ◌++◌, Bytes, length, arith}
use cx_framework.Mem.Chunks.Content.{joined}
use cx_framework.Network.Line.{
  mux_line_heapsize, Line, get_remote_available_bytes, read_size, set_remote_window_size,
  add_buffer_element,
}
use cx_framework.Network.Line.System.{
  asking, reading, uncounted, System, established, asks, sends, Reach, here, next,
}
use cx_framework.Network.Line.Progress.{Steps, Reach-room, Reach-in_order, Reach-wait_ends}

abbrev two_bytes : Bytes
two_bytes = b'h' ∷ b'i' ∷ []

abbrev granted : System
granted = record established { phase = reading (read_size mux_line_heapsize) }

abbrev on_the_way : System
on_the_way = record granted { phase = uncounted 2; data_frames = two_bytes ∷ []; sent = two_bytes }

granted-Reach : Reach granted
unfolding established get_remote_available_bytes set_remote_window_size
granted-Reach = next here (asks mux_line_heapsize refl refl)

on_the_way-Reach : Reach on_the_way
unfolding established read_size
on_the_way-Reach = next granted-Reach (sends 8192 two_bytes refl (omega arith) (omega arith))

Reach-room_example :
    (l : Line) × (add_buffer_element two_bytes on_the_way.receiver ≡ some l)
    × (length (joined l.data_buffer) ≤ mux_line_heapsize)
Reach-room_example = Reach-room on_the_way two_bytes [] on_the_way-Reach refl

Reach-in_order_example :
    on_the_way.sent
    ≡ on_the_way.taken ++ (joined on_the_way.receiver.data_buffer ++ joined on_the_way.data_frames)
Reach-in_order_example = Reach-in_order on_the_way on_the_way-Reach

Reach-wait_ends_example :
    (t : System) × Steps established t
    × (t.phase ≡ asking)
    × ((n : ℕ) × (get_remote_available_bytes t.sender ≡ some n))
unfolding established
Reach-wait_ends_example = Reach-wait_ends established here refl
