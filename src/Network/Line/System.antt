-- ===== src/Network/Line/System.antt =====
-- A line from one multiplexer to another: the line that sends, with the place where `processLine`
-- stands in it, the frames under way in both directions, and the line that receives.
use cx_framework.Base.{ℕ, ◌≤◌, ◌<◌, some, ◌≡◌, List, [], ◌∷◌, ◌++◌, Bytes, length}
use cx_framework.Network.Line.{
  Line, new_line, get_remote_available_bytes, read_size, set_remote_window_size, count_sent,
  add_processed_bytes, add_buffer_element, get_buffer_element, readen_bytes,
}

-- `processLine` is about to ask for room, about to read as many bytes, or has sent as many and not
-- counted them yet.
pub data Phase : Type 0 where
  asking : Phase
  reading : ℕ → Phase
  uncounted : ℕ → Phase

-- With what was sent and what was written to the socket of the receiver, from the start.
pub record System : Type 0 where
  pub sender : Line
  pub receiver : Line
  pub phase : Phase
  pub data_frames : List Bytes
  pub readen_frames : List ℕ
  pub sent : Bytes
  pub taken : Bytes

-- Both lines new, the sender with the window that the receiver has announced.
unfoldable pub established : System
unfolding set_remote_window_size
established = record {
  sender = set_remote_window_size new_line.local_window_size new_line;
  receiver = new_line;
  phase = asking;
  data_frames = [];
  readen_frames = [];
  sent = [];
  taken = [];
}

-- What the two ends do, one locked region at a time and in any order, while the sockets work. Frames
-- arrive in the order in which they were sent.
pub data Step (s : System) : System → Type 0 where
  asks :
      (av_bytes : ℕ)
      → s.phase ≡ asking
      → get_remote_available_bytes s.sender ≡ some av_bytes
      → Step s (record s { phase = reading (read_size av_bytes) })
  sends :
      (avlen : ℕ) (piece : Bytes)
      → s.phase ≡ reading avlen
      → 0 < length piece
      → length piece ≤ avlen
      → Step s (record s {
        phase = uncounted (length piece);
        data_frames = s.data_frames ++ piece ∷ [];
        sent = s.sent ++ piece;
      })
  counts :
      (len : ℕ)
      → s.phase ≡ uncounted len
      → Step s (record s { phase = asking; sender = count_sent len s.sender })
  data_arrives :
      (piece : Bytes) (frames : List Bytes) (l : Line)
      → s.data_frames ≡ piece ∷ frames
      → add_buffer_element piece s.receiver ≡ some l
      → Step s (record s { data_frames = frames; receiver = l })
  takes :
      (piece : Bytes) (l : Line)
      → get_buffer_element s.receiver ≡ some (piece, l)
      → Step s (record s {
        receiver = l;
        readen_frames = s.readen_frames ++ readen_bytes piece;
        taken = s.taken ++ piece;
      })
  readen_arrives :
      (len : ℕ) (frames : List ℕ)
      → s.readen_frames ≡ len ∷ frames
      → Step s (record s { readen_frames = frames; sender = add_processed_bytes len s.sender })

pub data Reach : System → Type 0 where
  here : Reach established
  next : {s t : System} → Reach s → Step s t → Reach t
