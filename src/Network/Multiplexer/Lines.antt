-- ===== src/Network/Multiplexer/Lines.antt =====
-- The lines stand under their own numbers, whatever message is processed.
use cx_framework.Base.{
  ℕ, Bool, true, false, not, ◌&&◌, ◌||◌, Option, none, some, ◌>>=◌, Option-cases, Bool-cases, inl,
  inr, List, [], ◌∷◌, ◌++◌, Bytes, length, take, drop, leb, ◌==◌, ==_iff, if◌then◌else◌, ◌≡◌, ◌≢◌,
  refl, sym, ap, subst, ◌∙◌, arith, on_true, on_false, some_inj, lookup, insert, nat_eq,
  lookup-insert,
}
use cx_framework.Network.Line.{
  null_line, LineId, Line, is_valid_line, add_buffer_element, add_processed_bytes,
  set_line_remote_id, set_remote_window_size,
}
use cx_framework.Network.Stream.{read_uint}
use cx_framework.Network.Multiplexer.{
  Multiplexer, accepts, find_line, line_or_new, put_line, send, send_line_data, send_termination,
  send_line_connection_answer, send_close,
}
use cx_framework.Network.Multiplexer.Commands.{
  deliver_data, receive_data, process_line_data, deliver_readen, process_line_update_readen_bytes,
  connect_line, connection_answered, process_line_connect, connection_answer,
  process_line_connection_answer, dispatch, process_multiplexed_socket,
}

-- Each line has the number under which it stands, which is not that of no line.
unfoldable pub IsKeyed : List (ℕ × Line) → Type 0
IsKeyed lines =
    (k : ℕ) (l : Line) → lookup k lines ≡ some l → (l.line_id.local_line_id ≡ k) × (k ≢ null_line)

insert-IsKeyed :
    (k : ℕ) (l : Line) (lines : List (ℕ × Line))
    → l.line_id.local_line_id ≡ k
    → k ≢ null_line
    → IsKeyed lines
    → IsKeyed (insert k l lines)
unfolding IsKeyed
insert-IsKeyed k l lines own some_line keyed j m found = elim (Bool-cases (k == j)) [
  | inl same ↦
      let e : k ≡ j = (==_iff k j).0 same in
      let taken : l ≡ m =
        some_inj (sym (on_true (k == j) _ _ same) ∙ sym (lookup-insert k j l lines) ∙ found) in
      (
        ap (λ (x : Line). x.line_id.local_line_id) (sym taken) ∙ own ∙ e,
        λ zero. some_line (e ∙ zero),
      )
  | inr other ↦
      keyed j m (sym (on_false (k == j) _ _ other) ∙ sym (lookup-insert k j l lines) ∙ found)
]

add_buffer_element-number :
    (piece : Bytes) (l l' : Line)
    → add_buffer_element piece l ≡ some l'
    → l'.line_id.local_line_id ≡ l.line_id.local_line_id
unfolding add_buffer_element
add_buffer_element-number piece l l' e = ground (arith, e)

add_processed_bytes-number :
    (processed : ℕ) (l : Line)
    → (add_processed_bytes processed l).line_id.local_line_id ≡ l.line_id.local_line_id
unfolding add_processed_bytes
add_processed_bytes-number processed l = ground arith

module _ {S W : Type 0} (read_block : S → ℕ → S × Bool × Bytes)
    (write_block : W → Bytes → W × Bool) where
  -- What is sent changes no line.
  send-lines : (writes : W → W × Bool) (m : Multiplexer S W) → (send writes m).0.lines ≡ m.lines
  unfolding send
  send-lines writes m = elim (Bool-cases m.no_send_data) [
    | inl silent ↦
        ap (λ (r : Multiplexer S W × Bool). r.0.lines) (on_true m.no_send_data _ _ silent)
    | inr sends ↦ ap (λ (r : Multiplexer S W × Bool). r.0.lines) (on_false m.no_send_data _ _ sends)
  ]

  -- A valid line that is found stands there.
  found_valid :
      (id : ℕ) (m : Multiplexer S W)
      → IsKeyed m.lines
      → is_valid_line (find_line id m) ≡ true
      → ((find_line id m).line_id.local_line_id ≡ id) × (id ≢ null_line)
  unfolding find_line IsKeyed is_valid_line
  found_valid id m keyed valid = elim (Option-cases (lookup id m.lines)) [
    | inl gone ↦ absurd (cc (ap (λ (o : Option Line). is_valid_line (line_or_new o)) gone))
    | inr (l, found) ↦ rw found (keyed id l found)
  ]

  -- A result keeps the lines under their numbers.
  abbrev ResultKeyed : Option (Multiplexer S W × Bool) → Type 0
  ResultKeyed none = Unit
  ResultKeyed (some (m, _)) = IsKeyed m.lines

  keeps_either :
      (b : Bool) (x y : Option (Multiplexer S W × Bool))
      → (b ≡ true → ResultKeyed x)
      → (b ≡ false → ResultKeyed y)
      → ResultKeyed (if b then x else y)
  keeps_either true x y h h' = h refl
  keeps_either false x y h h' = h' refl

  put_line-keeps :
      (id : ℕ) (l : Line) (m : Multiplexer S W)
      → IsKeyed m.lines
      → l.line_id.local_line_id ≡ id
      → id ≢ null_line
      → IsKeyed (put_line id l m).lines
  unfolding put_line
  put_line-keeps id l m keyed own some_line = insert-IsKeyed id l m.lines own some_line keyed

  send_line_data-keeps :
      (id : LineId) (piece : Bytes) (m : Multiplexer S W)
      → IsKeyed m.lines
      → IsKeyed (send_line_data write_block id piece m).0.lines
  unfolding send_line_data
  send_line_data-keeps id piece m keyed = subst IsKeyed (sym (send-lines _ m)) keyed

  if_keeps :
      (b : Bool) (m n : Multiplexer S W)
      → IsKeyed m.lines
      → IsKeyed n.lines
      → IsKeyed (if b then m else n).lines
  if_keeps true m n h h' = h
  if_keeps false m n h h' = h'

  mux_keeps :
      (b : Bool) (m n : Multiplexer S W)
      → (b ≡ true → IsKeyed m.lines)
      → (b ≡ false → IsKeyed n.lines)
      → IsKeyed (if b then m else n).lines
  mux_keeps true m n h h' = h refl
  mux_keeps false m n h h' = h' refl

  pair_keeps :
      (b : Bool) (x y : Multiplexer S W × Bool)
      → (b ≡ true → IsKeyed x.0.lines)
      → (b ≡ false → IsKeyed y.0.lines)
      → IsKeyed (if b then x else y).0.lines
  pair_keeps true x y h h' = h refl
  pair_keeps false x y h h' = h' refl

  add_buffer_element-keeps :
      (id : ℕ) (piece : Bytes) (l : Line) (m : Multiplexer S W)
      → IsKeyed m.lines
      → l.line_id.local_line_id ≡ id
      → id ≢ null_line
      → ResultKeyed (add_buffer_element piece l >>= λ l'. some (put_line id l' m, true))
  add_buffer_element-keeps id piece l m keyed own some_line =
      elim (Option-cases (add_buffer_element piece l)) [
        | inl waits ↦ rw waits tt
        | inr (l', added) ↦ rw added (
            put_line-keeps id l' m keyed (add_buffer_element-number piece l l' added ∙ own)
              some_line)
      ]

  deliver_data-keeps :
      (id : LineId) (piece : Bytes) (m : Multiplexer S W)
      → IsKeyed m.lines
      → ResultKeyed (deliver_data read_block write_block id piece m)
  unfolding deliver_data send_termination
  deliver_data-keeps id piece m keyed =
      keeps_either (is_valid_line (find_line id.local_line_id m)) _ _
        (λ valid.
          let (own, some_line) = found_valid id.local_line_id m keyed valid in
          add_buffer_element-keeps id.local_line_id piece _ m keyed own some_line)
        (λ invalid. if_keeps (length piece == 0) m _ keyed (send_line_data-keeps id [] m keyed))

  receive_data-keeps :
      (id : LineId) (size : ℕ) (m : Multiplexer S W)
      → IsKeyed m.lines
      → ResultKeyed (receive_data read_block write_block id size m)
  unfolding receive_data
  receive_data-keeps id size m keyed =
      let r = read_block m.source size in
      let m' = record m { source = r.0; read_data = r.2 ++ drop (length (r.2)) m.read_data } in
      keeps_either (size == 0) _ _ (λ h. deliver_data-keeps id [] m keyed)
        (λ h.
          keeps_either (r.1 && not (length (r.2) == 0))
            (deliver_data read_block write_block id (take size m'.read_data) m') (some (m', false))
            (λ h'. deliver_data-keeps id (take size m'.read_data) m' keyed) (λ h'. keyed))

  deliver_readen-keeps :
      (id : LineId) (processed : ℕ) (m : Multiplexer S W)
      → IsKeyed m.lines
      → IsKeyed (deliver_readen read_block write_block id processed m).0.lines
  unfolding deliver_readen send_termination
  deliver_readen-keeps id processed m keyed =
      pair_keeps (is_valid_line (find_line id.local_line_id m)) _ _
        (λ valid.
          let (own, some_line) = found_valid id.local_line_id m keyed valid in
          put_line-keeps id.local_line_id _ m keyed
            (add_processed_bytes-number processed (find_line id.local_line_id m) ∙ own) some_line)
        (λ invalid. send_line_data-keeps id [] m keyed)

  connection_answer-keeps :
      (id : LineId) (window msg : ℕ) (m : Multiplexer S W)
      → IsKeyed m.lines
      → IsKeyed (connection_answer read_block write_block id window msg m).lines
  unfolding connection_answer send_termination set_remote_window_size set_line_remote_id
  connection_answer-keeps id window msg m keyed =
      mux_keeps (is_valid_line (find_line id.local_line_id m)) _ _
        (λ valid.
          let (own, some_line) = found_valid id.local_line_id m keyed valid in
          mux_keeps (msg == 1) _ _ (λ h. put_line-keeps id.local_line_id _ m keyed own some_line)
            (λ h. mux_keeps (leb 2 msg && leb msg 8) _ _ (λ h'. keyed) (λ h'. keyed)))
        (λ invalid. send_line_data-keeps id [] m keyed)

  send_line_connection_answer-keeps :
      (id : LineId) (msg : ℕ) (text : Bytes) (window : ℕ) (m : Multiplexer S W)
      → IsKeyed m.lines
      → IsKeyed (send_line_connection_answer write_block id msg text window m).0.lines
  unfolding send_line_connection_answer
  send_line_connection_answer-keeps id msg text window m keyed =
      subst IsKeyed (sym (send-lines _ m)) keyed

  connect_line-keeps :
      (null_text : Bytes) (parses : Bytes → Bool) (authorized : Bool) (remote window : ℕ)
      (params : Option Bytes) (m : Multiplexer S W)
      → IsKeyed m.lines
      → IsKeyed
          (connect_line read_block write_block null_text parses authorized remote window params
            m).0.lines
  unfolding connect_line
  connect_line-keeps null_text parses authorized remote window none m keyed = keyed
  connect_line-keeps null_text parses authorized remote window (some text) m keyed =
      let id : LineId = record { local_line_id = null_line; remote_line_id = remote } in
      pair_keeps authorized _ _
        (λ h.
          pair_keeps (parses text) _ _
            (λ h'.
              send_line_connection_answer-keeps id 0 null_text 0
                (record m { threads = accepts id window text ∷ m.threads }) keyed)
            (λ h'. send_line_connection_answer-keeps id 3 null_text 0 m keyed))
        (λ h. send_line_connection_answer-keeps id 8 null_text 0 m keyed)

  connection_answered-keeps :
      (id : LineId) (window msg : ℕ) (text : Option Bytes) (m : Multiplexer S W)
      → IsKeyed m.lines
      → IsKeyed (connection_answered read_block write_block id window msg text m).0.lines
  unfolding connection_answered
  connection_answered-keeps id window msg none m keyed = keyed
  connection_answered-keeps id window msg (some text) m keyed =
      connection_answer-keeps id window msg m keyed

  process_line_data-keeps :
      (m : Multiplexer S W)
      → IsKeyed m.lines
      → ResultKeyed (process_line_data read_block write_block m)
  unfolding process_line_data
  process_line_data-keeps m keyed =
      let r₁ = read_uint read_block 4 m.source in
      let r₂ = read_uint read_block 4 (r₁.0) in
      let r₃ = read_uint read_block 2 (r₂.0) in
      keeps_either (r₃.2) _ _
        (λ h.
          receive_data-keeps (record { local_line_id = r₁.1; remote_line_id = r₂.1 }) (r₃.1)
            (record m { source = r₃.0 }) keyed)
        (λ h. keyed)

  process_line_update_readen_bytes-keeps :
      (m : Multiplexer S W)
      → IsKeyed m.lines
      → IsKeyed (process_line_update_readen_bytes read_block write_block m).0.lines
  unfolding process_line_update_readen_bytes
  process_line_update_readen_bytes-keeps m keyed =
      let r₁ = read_uint read_block 4 m.source in
      let r₂ = read_uint read_block 4 (r₁.0) in
      let r₃ = read_uint read_block 2 (r₂.0) in
      pair_keeps (r₃.2) _ _
        (λ h.
          deliver_readen-keeps (record { local_line_id = r₁.1; remote_line_id = r₂.1 }) (r₃.1)
            (record m { source = r₃.0 }) keyed)
        (λ h. keyed)

  process_multiplexed_socket-keeps :
      (plugins : ℕ → Multiplexer S W → Multiplexer S W × Bool) (null_text : Bytes)
      (parses : Bytes → Bool) (authorized : Bool) (m : Multiplexer S W)
      → ((msg : ℕ) (n : Multiplexer S W) → IsKeyed n.lines → IsKeyed (plugins msg n).0.lines)
      → IsKeyed m.lines
      → ResultKeyed
          (process_multiplexed_socket read_block write_block plugins null_text parses authorized m)
  unfolding process_multiplexed_socket dispatch send_close process_line_connect
      process_line_connection_answer
  process_multiplexed_socket-keeps plugins null_text parses authorized m kept keyed =
      let r = read_uint read_block 1 m.source in
      let n = record m { source = r.0 } in
      keeps_either (r.2) _ _
        (λ h.
          keeps_either (r.1 == 2) _ _ (λ h. keyed)
            (λ h.
              keeps_either (r.1 == 1) _ _ (λ h. keyed)
                (λ h.
                  keeps_either (r.1 == 0) _ _ (λ h. keyed)
                    (λ h.
                      keeps_either (r.1 == 240) _ _
                        (λ h. connect_line-keeps null_text parses authorized _ _ _ _ keyed)
                        (λ h.
                          keeps_either (r.1 == 16 || r.1 == 17) _ _ (λ h. kept (r.1) n keyed)
                            (λ h.
                              keeps_either (r.1 == 241) _ _
                                (λ h. connection_answered-keeps _ _ _ _ _ keyed)
                                (λ h.
                                  keeps_either (r.1 == 242) _ _
                                    (λ h. process_line_data-keeps n keyed)
                                    (λ h.
                                      keeps_either (r.1 == 243) _ _
                                        (λ h. process_line_update_readen_bytes-keeps n keyed)
                                        (λ h. keyed)))))))))
        (λ h. keyed)

  -- Whatever message is processed, and whatever follows it on the socket, the lines stand under their
  -- own numbers, if they did before, and if the plugins leave them there.
  pub process_multiplexed_socket-IsKeyed :
      (plugins : ℕ → Multiplexer S W → Multiplexer S W × Bool) (null_text : Bytes)
      (parses : Bytes → Bool) (authorized : Bool) (m m' : Multiplexer S W) (goes_on : Bool)
      → ((msg : ℕ) (n : Multiplexer S W) → IsKeyed n.lines → IsKeyed (plugins msg n).0.lines)
      → IsKeyed m.lines
      → process_multiplexed_socket read_block write_block plugins null_text parses authorized m
        ≡ some (m', goes_on)
      → IsKeyed m'.lines
  process_multiplexed_socket-IsKeyed plugins null_text parses authorized m m' goes_on kept keyed e =
      subst ResultKeyed e
        (process_multiplexed_socket-keeps plugins null_text parses authorized m kept keyed)
