-- ===== src/Network/Line/Flow.antt =====
-- What the window keeps: the sender counts all bytes that the peer has not acknowledged, but for those
-- that it has not counted yet, and never has more under way than fit in the window.
use cx_framework.Base.{
  ℕ, ◌+◌, ◌*◌, ◌%◌, ◌^◌, ◌≤◌, false, some, ◌≡◌, refl, sym, ap, ◌∙◌, List, [], ◌∷◌, ◌++◌,
  append_assoc, append-nil, Bytes, length, length-append, leb, arith,
}
use cx_framework.Mem.Chunks.Content.{joined}
use cx_framework.Network.Line.{
  mux_line_sendbuf, mux_line_heapsize, get_remote_available_bytes, read_size, count_sent,
  add_buffer_element, readen_bytes,
}
use cx_framework.Network.Line.System.{Phase, asking, reading, uncounted, System, established}

pub joined-append : (xs ys : List Bytes) → joined (xs ++ ys) ≡ joined xs ++ joined ys
unfolding joined
joined-append [] ys = refl
joined-append (x ∷ xs) ys =
    ap (◌++◌ x) (joined-append xs ys) ∙ sym (append_assoc x (joined xs) (joined ys))

pub joined-last : (xs : List Bytes) (y : Bytes) → joined (xs ++ y ∷ []) ≡ joined xs ++ y
joined-last xs y = joined-append xs (y ∷ []) ∙ unfold joined in ap (◌++◌ (joined xs)) (append-nil y)

unfoldable pub sum : List ℕ → ℕ
sum [] = 0
sum (n ∷ ns) = n + sum ns

pub sum-append : (ms ns : List ℕ) → sum (ms ++ ns) ≡ sum ms + sum ns
unfolding sum
sum-append [] ns = omega arith
sum-append (m ∷ ms) ns = omega (arith, sum-append ms ns)

pub sum-readen_bytes : (piece : Bytes) → sum (readen_bytes piece) ≡ length piece
unfolding sum readen_bytes
sum-readen_bytes [] = refl
sum-readen_bytes (b ∷ piece) = ground arith

-- What the peer has not acknowledged: frames, the buffer, and acknowledgements under way.
unfoldable pub outstanding : System → ℕ
outstanding s =
    length (joined s.receiver.data_buffer) + length (joined s.data_frames) + sum s.readen_frames

-- What the sender has not counted yet, and the room that it has asked for.
abbrev pub uncounted_bytes : Phase → ℕ
uncounted_bytes asking = 0
uncounted_bytes (reading n) = 0
uncounted_bytes (uncounted n) = n

abbrev pub reserved : Phase → ℕ
reserved asking = 0
reserved (reading n) = n
reserved (uncounted n) = n

pub record Inv (s : System) : Type 0 where
  pub remote_window : s.sender.remote_window_size ≡ mux_line_heapsize
  pub running : s.sender.remote_unprocessed_finished ≡ false
  pub local_window : s.receiver.local_window_size ≡ mux_line_heapsize
  pub used : s.receiver.local_window_used_buffer ≡ length (joined s.receiver.data_buffer)
  pub covers : outstanding s ≤ s.sender.remote_unprocessed_bytes + uncounted_bytes s.phase
  pub fits : s.sender.remote_unprocessed_bytes + reserved s.phase ≤ mux_line_heapsize
  pub tight :
      s.sender.remote_unprocessed_bytes + uncounted_bytes s.phase ≤ outstanding s + mux_line_sendbuf
  pub bounded : reserved s.phase ≤ mux_line_sendbuf
  pub in_order : s.sent ≡ s.taken ++ (joined s.receiver.data_buffer ++ joined s.data_frames)

pub established-Inv : Inv established
unfolding established joined sum outstanding
established-Inv = record {
  remote_window = refl;
  running = refl;
  local_window = refl;
  used = refl;
  covers = omega arith;
  fits = omega arith;
  tight = omega arith;
  bounded = omega arith;
  in_order = refl;
}

pub asks-Inv :
    (s : System) (av_bytes : ℕ)
    → s.phase ≡ asking
    → get_remote_available_bytes s.sender ≡ some av_bytes
    → Inv s
    → Inv (record s { phase = reading (read_size av_bytes) })
unfolding outstanding get_remote_available_bytes read_size
asks-Inv s av p h v = record {
  remote_window = v.remote_window;
  running = v.running;
  local_window = v.local_window;
  used = v.used;
  covers = ground (arith, v.covers, ap uncounted_bytes p);
  fits = ground (arith, v.fits, v.remote_window, h);
  tight = ground (arith, v.tight, ap uncounted_bytes p);
  bounded = ground arith;
  in_order = v.in_order;
}

pub sends-Inv :
    (s : System) (avlen : ℕ) (piece : Bytes)
    → s.phase ≡ reading avlen
    → length piece ≤ avlen
    → Inv s
    → Inv (record s {
      phase = uncounted (length piece);
      data_frames = s.data_frames ++ piece ∷ [];
      sent = s.sent ++ piece;
    })
unfolding outstanding
sends-Inv s avlen piece p h v =
    let more : length (joined (s.data_frames ++ piece ∷ []))
        ≡ length (joined s.data_frames) + length piece =
      ap (length {0}) (joined-last s.data_frames piece)
      ∙ length-append (joined s.data_frames) piece in
    let none_before : uncounted_bytes s.phase ≡ 0 = ap uncounted_bytes p in
    let room : reserved s.phase ≡ avlen = ap reserved p in
    record {
      remote_window = v.remote_window;
      running = v.running;
      local_window = v.local_window;
      used = v.used;
      covers = omega (arith, v.covers, more, none_before);
      fits = omega (arith, v.fits, room, h);
      tight = omega (arith, v.tight, more, none_before);
      bounded = omega (arith, v.bounded, room, h);
      in_order =
          ap (λ (t : Bytes). t ++ piece) v.in_order
          ∙ append_assoc s.taken (joined s.receiver.data_buffer ++ joined s.data_frames) piece
          ∙ ap (◌++◌ s.taken) (
              append_assoc (joined s.receiver.data_buffer) (joined s.data_frames) piece
              ∙ ap (◌++◌ (joined s.receiver.data_buffer)) (sym (joined-last s.data_frames piece)));
    }

pub counts-Inv :
    (s : System) (len : ℕ)
    → s.phase ≡ uncounted len
    → Inv s
    → Inv (record s { phase = asking; sender = count_sent len s.sender })
unfolding outstanding count_sent
counts-Inv s len p v =
    let before : uncounted_bytes s.phase ≡ len = ap uncounted_bytes p in
    let room : reserved s.phase ≡ len = ap reserved p in
    let counted : (s.sender.remote_unprocessed_bytes + len) % 2 ^ 32
        ≡ s.sender.remote_unprocessed_bytes + len =
      omega (arith, v.fits, room) in
    record {
      remote_window = v.remote_window;
      running = v.running;
      local_window = v.local_window;
      used = v.used;
      covers = omega (arith, v.covers, before, counted);
      fits = omega (arith, v.fits, room, counted);
      tight = omega (arith, v.tight, before, counted);
      bounded = omega arith;
      in_order = v.in_order;
    }

pub uncounted_le_reserved : (p : Phase) → uncounted_bytes p ≤ reserved p
uncounted_le_reserved asking = omega arith
uncounted_le_reserved (reading n) = omega arith
uncounted_le_reserved (uncounted n) = omega arith

-- The buffer has the room for what arrives.
pub add_buffer_element-room :
    (s : System) (piece : Bytes) (frames : List Bytes)
    → Inv s
    → s.data_frames ≡ piece ∷ frames
    → add_buffer_element piece s.receiver
      ≡ some (record s.receiver {
        data_buffer = s.receiver.data_buffer ++ piece ∷ [];
        local_window_used_buffer = s.receiver.local_window_used_buffer + length piece;
      })
unfolding add_buffer_element outstanding joined
add_buffer_element-room s piece frames v e =
    let under_way : length (joined s.data_frames) ≡ length piece + length (joined frames) =
      ap (λ (t : List Bytes). length (joined t)) e ∙ length-append piece (joined frames) in
    let small : s.receiver.local_window_used_buffer + length piece
        ≤ mux_line_heapsize + mux_line_sendbuf =
      omega
        (arith, v.used, v.covers, v.fits, v.bounded, under_way, uncounted_le_reserved s.phase) in
    let wrapped : (s.receiver.local_window_used_buffer + length piece) % 2 ^ 32
        ≡ s.receiver.local_window_used_buffer + length piece =
      omega (arith, small) in
    let room : leb ((s.receiver.local_window_size * 2 + 1) % 2 ^ 32)
          ((length piece + s.receiver.local_window_used_buffer) % 2 ^ 32)
        ≡ false =
      rw v.local_window (ground (arith, small)) in
    rw (room, wrapped) refl
