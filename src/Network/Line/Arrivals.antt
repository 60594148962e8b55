-- ===== src/Network/Line/Arrivals.antt =====
-- The steps at the other end keep the window too: what arrives has room, and stays in its order.
use cx_framework.Base.{
  on_true, on_false, some_inj, ℕ, ◌+◌, ◌-◌, ◌%◌, ◌^◌, false, some, Bool-cases, inl, inr, ◌≡◌, sym,
  ap, subst, ◌∙◌, List, [], ◌∷◌, ◌++◌, append_assoc, Bytes, length, length-append, ltb, arith,
}
use cx_framework.Mem.Chunks.Content.{joined}
use cx_framework.Network.Line.{
  Line, add_processed_bytes, add_buffer_element, first_element, get_buffer_element, readen_bytes,
}
use cx_framework.Network.Line.System.{
  System, Step, asks, sends, counts, data_arrives, takes, readen_arrives, Reach, here, next,
}
use cx_framework.Network.Line.Flow.{
  joined-last, sum, sum-append, sum-readen_bytes, outstanding, Inv, established-Inv, asks-Inv,
  sends-Inv, counts-Inv, uncounted_le_reserved, add_buffer_element-room,
}

data_arrives-Inv :
    (s : System) (piece : Bytes) (frames : List Bytes) (l : Line)
    → s.data_frames ≡ piece ∷ frames
    → add_buffer_element piece s.receiver ≡ some l
    → Inv s
    → Inv (record s { data_frames = frames; receiver = l })
unfolding outstanding joined
data_arrives-Inv s piece frames l e h v =
    let under_way : length (joined s.data_frames) ≡ length piece + length (joined frames) =
      ap (λ (t : List Bytes). length (joined t)) e ∙ length-append piece (joined frames) in
    let buffered : length (joined (s.receiver.data_buffer ++ piece ∷ []))
        ≡ length (joined s.receiver.data_buffer) + length piece =
      ap (length {0}) (joined-last s.receiver.data_buffer piece)
      ∙ length-append (joined s.receiver.data_buffer) piece in
    subst (λ (r : Line). Inv (record s { data_frames = frames; receiver = r }))
      (some_inj (sym (add_buffer_element-room s piece frames v e) ∙ h))
      (record {
        remote_window = v.remote_window;
        running = v.running;
        local_window = v.local_window;
        used = omega (arith, v.used, buffered);
        covers = omega (arith, v.covers, under_way, buffered);
        fits = v.fits;
        tight = omega (arith, v.tight, under_way, buffered);
        bounded = v.bounded;
        in_order =
            v.in_order
            ∙ ap (◌++◌ s.taken) (
                ap (λ (t : List Bytes). joined s.receiver.data_buffer ++ joined t) e
                ∙ sym (append_assoc (joined s.receiver.data_buffer) piece (joined frames))
                ∙ ap (λ (t : Bytes). t ++ joined frames)
                    (sym (joined-last s.receiver.data_buffer piece)));
      })

-- What `getBufferElement` takes was the first element.
first_element-inv :
    (pieces : List Bytes) (l m : Line) (piece : Bytes)
    → first_element pieces l ≡ some (piece, m)
    → (rest : List Bytes) × (pieces ≡ piece ∷ rest)
      × (m ≡ record l {
        data_buffer = rest;
        local_window_used_buffer = (2 ^ 32 + l.local_window_used_buffer - length piece) % 2 ^ 32;
      })
unfolding first_element
first_element-inv [] l m piece h = absurd (cc h)
first_element-inv (b ∷ rest) l m piece h =
    let same : b ≡ piece = ap (λ (z : Bytes × Line). z.0) (some_inj h) in
    (
      rest,
      ap (λ (t : Bytes). t ∷ rest) same,
      sym (ap (λ (z : Bytes × Line). z.1) (some_inj h))
          ∙ ap
              (λ (t : Bytes). record l {
                data_buffer = rest;
                local_window_used_buffer =
                    (2 ^ 32 + l.local_window_used_buffer - length t) % 2 ^ 32;
              })
              same,
    )

takes-Inv :
    (s : System) (piece : Bytes) (l : Line)
    → get_buffer_element s.receiver ≡ some (piece, l)
    → Inv s
    → Inv (record s {
      receiver = l;
      readen_frames = s.readen_frames ++ readen_bytes piece;
      taken = s.taken ++ piece;
    })
unfolding outstanding joined get_buffer_element
takes-Inv s piece l h v =
    let (rest, e, same) = first_element-inv s.receiver.data_buffer s.receiver l piece h in
    let buffered : length (joined s.receiver.data_buffer) ≡ length piece + length (joined rest) =
      ap (λ (t : List Bytes). length (joined t)) e ∙ length-append piece (joined rest) in
    let acknowledged : sum (s.readen_frames ++ readen_bytes piece)
        ≡ sum s.readen_frames + length piece =
      omega (arith, sum-append s.readen_frames (readen_bytes piece), sum-readen_bytes piece) in
    let left : (2 ^ 32 + s.receiver.local_window_used_buffer - length piece) % 2 ^ 32
        ≡ length (joined rest) =
      omega (arith, v.used, buffered, v.covers, v.fits, uncounted_le_reserved s.phase) in
    subst
      (λ (r : Line). Inv (record s {
        receiver = r;
        readen_frames = s.readen_frames ++ readen_bytes piece;
        taken = s.taken ++ piece;
      }))
      (sym same)
      (record {
        remote_window = v.remote_window;
        running = v.running;
        local_window = v.local_window;
        used = left;
        covers = omega (arith, v.covers, buffered, acknowledged);
        fits = v.fits;
        tight = omega (arith, v.tight, buffered, acknowledged);
        bounded = v.bounded;
        in_order =
            v.in_order
            ∙ ap (λ (t : List Bytes). s.taken ++ (joined t ++ joined s.data_frames)) e
            ∙ ap (◌++◌ s.taken) (append_assoc piece (joined rest) (joined s.data_frames))
            ∙ sym (append_assoc s.taken piece (joined rest ++ joined s.data_frames));
      })

-- Bytes that are not all counted are taken off as far as they are.
add_processed_bytes-counts :
    (l : Line) (len : ℕ)
    → l.remote_unprocessed_finished ≡ false
    → add_processed_bytes len l
      ≡ record l { remote_unprocessed_bytes = l.remote_unprocessed_bytes - len }
unfolding add_processed_bytes
add_processed_bytes-counts l len h =
    on_false l.remote_unprocessed_finished _ _ h
    ∙ elim (Bool-cases (ltb l.remote_unprocessed_bytes len)) [
      | inl more ↦
          let gone : 0 ≡ l.remote_unprocessed_bytes - len = ground arith in
          on_true (ltb l.remote_unprocessed_bytes len) _ _ more
          ∙ ap (λ (n : ℕ). record l { remote_unprocessed_bytes = n }) gone
      | inr less ↦ on_false (ltb l.remote_unprocessed_bytes len) _ _ less
    ]

readen_arrives-Inv :
    (s : System) (len : ℕ) (frames : List ℕ)
    → s.readen_frames ≡ len ∷ frames
    → Inv s
    → Inv (record s { readen_frames = frames; sender = add_processed_bytes len s.sender })
unfolding outstanding sum
readen_arrives-Inv s len frames e v =
    let under_way : sum s.readen_frames ≡ len + sum frames = ap sum e in
    subst (λ (r : Line). Inv (record s { readen_frames = frames; sender = r }))
      (sym (add_processed_bytes-counts s.sender len v.running))
      (record {
        remote_window = v.remote_window;
        running = v.running;
        local_window = v.local_window;
        used = v.used;
        covers = omega (arith, v.covers, under_way);
        fits = omega (arith, v.fits);
        tight = omega (arith, v.tight, under_way, v.bounded, uncounted_le_reserved s.phase);
        bounded = v.bounded;
        in_order = v.in_order;
      })

pub Step-Inv : {s t : System} → Step s t → Inv s → Inv t
Step-Inv {s} (asks av p h) v = asks-Inv s av p h v
Step-Inv {s} (sends avlen piece p some_bytes h) v = sends-Inv s avlen piece p h v
Step-Inv {s} (counts len p) v = counts-Inv s len p v
Step-Inv {s} (data_arrives piece frames l e h) v = data_arrives-Inv s piece frames l e h v
Step-Inv {s} (takes piece l h) v = takes-Inv s piece l h v
Step-Inv {s} (readen_arrives len frames e) v = readen_arrives-Inv s len frames e v

pub Reach-Inv : {s : System} → Reach s → Inv s
Reach-Inv here = established-Inv
Reach-Inv (next r st) = Step-Inv st (Reach-Inv r)
