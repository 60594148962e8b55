-- ===== src/Network/Line/Progress.antt =====
-- What the window promises: whatever arrives is taken without waiting, in its order, and a sender that
-- waits for room gets it.
use cx_framework.Base.{
  ℕ, zero, suc, ◌+◌, ◌*◌, ◌≤◌, ◌<◌, none, some, Option-cases, inl, inr, ◌⊎◌, ◌≡◌, refl, ap, ◌∙◌,
  List, [], ◌∷◌, ◌++◌, Bytes, length, length-append, arith,
}
use cx_framework.Mem.Chunks.Content.{joined}
use cx_framework.Network.Line.{
  mux_line_heapsize, Line, get_remote_available_bytes, add_buffer_element, first_element,
  get_buffer_element, readen_bytes,
}
use cx_framework.Network.Line.System.{
  asking, System, Step, data_arrives, takes, readen_arrives, Reach,
}
use cx_framework.Network.Line.Flow.{
  sum, outstanding, uncounted_le_reserved, Inv, add_buffer_element-room, joined-last,
}
use cx_framework.Network.Line.Arrivals.{Step-Inv, Reach-Inv}

-- In every reachable state, `addBufferElement` does not wait with the frame that arrives next, and the
-- buffer then holds no more bytes than the window.
pub Reach-room :
    (s : System) (piece : Bytes) (frames : List Bytes)
    → Reach s
    → s.data_frames ≡ piece ∷ frames
    → (l : Line) × (add_buffer_element piece s.receiver ≡ some l)
      × (length (joined l.data_buffer) ≤ mux_line_heapsize)
unfolding outstanding joined
Reach-room s piece frames r e =
    let v = Reach-Inv r in
    let under_way : length (joined s.data_frames) ≡ length piece + length (joined frames) =
      ap (λ (t : List Bytes). length (joined t)) e ∙ length-append piece (joined frames) in
    let buffered : length (joined (s.receiver.data_buffer ++ piece ∷ []))
        ≡ length (joined s.receiver.data_buffer) + length piece =
      ap (length {0}) (joined-last s.receiver.data_buffer piece)
      ∙ length-append (joined s.receiver.data_buffer) piece in
    (
      _,
      add_buffer_element-room s piece frames v e,
      omega (arith, v.covers, v.fits, buffered, under_way, uncounted_le_reserved s.phase),
    )

-- In every reachable state, the bytes that were sent are, in their order, those that were taken from
-- the buffer of the receiver, those that it holds, and those that are under way.
pub Reach-in_order :
    (s : System)
    → Reach s
    → s.sent ≡ s.taken ++ (joined s.receiver.data_buffer ++ joined s.data_frames)
Reach-in_order s r = Inv.in_order (Reach-Inv r)

-- Steps of both ends one after the other.
pub data Steps : System → System → Type 0 where
  done : (s : System) → Steps s s
  step : {s t u : System} → Step s t → Steps t u → Steps s u

list_cases {ℓ} :
    {A : Type ℓ} (xs : List A) → (xs ≡ []) ⊎ ((x : A) × (rest : List A) × (xs ≡ x ∷ rest))
list_cases [] = inl refl
list_cases (x ∷ xs) = inr (x, xs, refl)

-- How many steps are left to deliver what is under way.
work : System → ℕ
work s = 3 * length s.data_frames + 2 * length s.receiver.data_buffer + length s.readen_frames

length-readen_bytes : (piece : Bytes) → length (readen_bytes piece) ≤ 1
unfolding readen_bytes
length-readen_bytes piece = ground arith

-- A step that delivers something.
abbrev MovesOn : System → Type 0
MovesOn s = (t : System) × Step s t × (t.phase ≡ s.phase) × (work t < work s)

data_delivery :
    (s : System) (piece : Bytes) (frames : List Bytes)
    → Inv s
    → s.data_frames ≡ piece ∷ frames
    → MovesOn s
unfolding work
data_delivery s piece frames v e = (
  _,
  data_arrives piece frames _ e (add_buffer_element-room s piece frames v e),
  refl,
  omega (arith, ap (length {0}) e, length-append s.receiver.data_buffer (piece ∷ [])),
)

element_delivery :
    (s : System) (piece : Bytes) (rest : List Bytes)
    → s.receiver.data_buffer ≡ piece ∷ rest
    → MovesOn s
unfolding work get_buffer_element first_element
element_delivery s piece rest e = (
  _,
  takes piece _ (ap (λ (t : List Bytes). first_element t s.receiver) e),
  refl,
  omega (
    arith,
    ap (length {0}) e,
    length-append s.readen_frames (readen_bytes piece),
    length-readen_bytes piece,
  ),
)

readen_delivery :
    (s : System) (len : ℕ) (frames : List ℕ) → s.readen_frames ≡ len ∷ frames → MovesOn s
unfolding work
readen_delivery s len frames e =
    (_, readen_arrives len frames e, refl, omega (arith, ap (length {0}) e))

-- While a sender waits, something is under way.
deliver : (s : System) → Inv s → get_remote_available_bytes s.sender ≡ none → MovesOn s
unfolding outstanding joined sum
deliver s v h = elim (list_cases s.data_frames) [
  | inr (piece, frames, e) ↦ data_delivery s piece frames v e
  | inl no_data ↦ elim (list_cases s.receiver.data_buffer) [
    | inr (piece, rest, e) ↦ element_delivery s piece rest e
    | inl no_elements ↦ elim (list_cases s.readen_frames) [
      | inr (len, frames, e) ↦ readen_delivery s len frames e
      | inl no_readen ↦
          let full : mux_line_heapsize ≤ s.sender.remote_unprocessed_bytes =
            unfold get_remote_available_bytes in ground (arith, v.remote_window, h) in
          absurd (
            omega (
              arith,
              v.tight,
              full,
              ap (λ (t : List Bytes). length (joined t)) no_data,
              ap (λ (t : List Bytes). length (joined t)) no_elements,
              ap sum no_readen,
            ))
    ]
  ]
]

wait_ends :
    (fuel : ℕ) (s : System)
    → Inv s
    → work s ≤ fuel
    → (t : System) × Steps s t
      × (t.phase ≡ s.phase)
      × ((n : ℕ) × (get_remote_available_bytes t.sender ≡ some n))
wait_ends zero s v enough = elim (Option-cases (get_remote_available_bytes s.sender)) [
  | inr granted ↦ (s, done s, refl, granted)
  | inl waits ↦ let (t, st, same, less) = deliver s v waits in absurd (omega arith)
]
wait_ends (suc fuel) s v enough = elim (Option-cases (get_remote_available_bytes s.sender)) [
  | inr granted ↦ (s, done s, refl, granted)
  | inl waits ↦
      let (t, st, same, less) = deliver s v waits in
      let (u, sts, same', granted) = wait_ends fuel t (Step-Inv st v) (omega arith) in
      (u, step st sts, same' ∙ same, granted)
]

-- From every reachable state in which the sender is about to ask for room, steps lead to one in which
-- it is so still and gets room: a sender that waits never waits for a peer that has nothing to do.
pub Reach-wait_ends :
    (s : System)
    → Reach s
    → s.phase ≡ asking
    → (t : System) × Steps s t
      × (t.phase ≡ asking)
      × ((n : ℕ) × (get_remote_available_bytes t.sender ≡ some n))
Reach-wait_ends s r p =
    let (t, sts, same, granted) = wait_ends (work s) s (Reach-Inv r) (omega arith) in
    (t, sts, same ∙ p, granted)
