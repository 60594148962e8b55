-- ===== src/Network/Stream/Socket.antt =====
-- cxNetwork/libcx_net_sockets/src: `readBlock` and `writeBlock` of socket_base_stream.cpp, over the
-- partial reads and writes of a kind of socket.
use cx_framework.Base.{
  ℕ, zero, suc, ◌+◌, ◌-◌, ◌^◌, ◌≤◌, ◌<◌, leb, Bool, true, false, not, [], ◌++◌, Bytes, length, take,
  drop, ◌==◌, if◌then◌else◌, ◌≡◌, refl, ap, ap₂, ◌∙◌, arith, Bool-cases, inl, inr, on_true,
  on_false, drop-drop, take_add, length-take, length-drop,
}

-- The bytes that a `partialRead` of at most so many gives, of which none is the end or an error.
module _ {S : Type 0} (is_active : S → Bool) (partial_read : S → ℕ → S × Bytes) where
  -- The loop of `readBlock`, for fewer than 2^31 bytes: it counts them in an `int`. A round that goes on has received a byte or more, so that no round is
  -- left when the fuel, the number of bytes, is used up.
  pub read_loop : ℕ → S → ℕ → S × Bytes
  read_loop zero s left = (s, [])
  read_loop (suc fuel) s left =
      let (s', received) = partial_read s left in
      let (s'', more) = read_loop fuel s' (left - length received) in
      if left == 0
      then (s, [])
      else if length received == 0
      then (s', [])
      else (s'', received ++ more)

  -- From 2^31 bytes on the `int` overflows: what happens then is `overflowed`.
  pub read_block : (S → ℕ → S × Bool × Bytes) → S → ℕ → S × Bool × Bytes
  unfolding read_loop
  read_block overflowed s datalen =
      let (s', bytes) = read_loop datalen s datalen in
      if not (is_active s)
      then (s, false, [])
      else if datalen == 0
      then (s, true, [])
      else if leb (2 ^ 31) datalen
      then overflowed s datalen
      else (s', not (length bytes == 0), bytes)

-- What a kind of socket promises: while there are bytes, a partial read gives some of them, no more
-- than asked for, from the front, and it stays active.
pub record IsStream {S : Type 0} (is_active : S → Bool) (partial_read : S → ℕ → S × Bytes)
    (pending : S → Bytes) : Type 0 where
  pub active : (s : S) → 0 < length (pending s) → is_active s ≡ true
  pub reads :
      (s : S) (n : ℕ)
      → 0 < n
      → n ≤ length (pending s)
      → (k : ℕ) × (0 < k)
        × (k ≤ n)
        × ((partial_read s n).1 ≡ take k (pending s))
        × (pending ((partial_read s n).0) ≡ drop k (pending s))

-- What the readers need of a `readBlock`: it gives the bytes that are there, where an `int` can count
-- them.
pub record IsReader {S : Type 0} (read_block : S → ℕ → S × Bool × Bytes) (pending : S → Bytes)
    : Type 0 where
  pub gives :
      (s : S) (n : ℕ)
      → 0 < n
      → n < 2 ^ 31
      → n ≤ length (pending s)
      → (s' : S) × (read_block s n ≡ (s', true, take n (pending s)))
        × (pending s' ≡ drop n (pending s))

module _ {S : Type 0} (is_active : S → Bool) (partial_read : S → ℕ → S × Bytes)
    (pending : S → Bytes) (stream : IsStream is_active partial_read pending) where
  read_loop-whole :
      (fuel : ℕ) (s : S) (left : ℕ)
      → left ≤ fuel
      → left ≤ length (pending s)
      → (s' : S) × (read_loop is_active partial_read fuel s left ≡ (s', take left (pending s)))
        × (pending s' ≡ drop left (pending s))
  unfolding read_loop
  read_loop-whole zero s left enough there =
      let e : left ≡ 0 = omega arith in (s, rw e refl, rw e refl)
  read_loop-whole (suc fuel) s left enough there = elim (Bool-cases (left == 0)) [
    | inl nothing ↦
        let e : left ≡ 0 = ground arith in
        (s, on_true (left == 0) _ _ nothing ∙ rw e refl, rw e refl)
    | inr something ↦
        let (k, some_bytes, at_most, got, rest) = stream.reads s left (ground arith) there in
        let received = (partial_read s left).1 in
        let size : length received ≡ k =
          omega (arith, ap (length {0}) got, length-take k (pending s)) in
        let still : length (pending ((partial_read s left).0)) ≡ length (pending s) - k =
          ap (length {0}) rest ∙ length-drop k (pending s) in
        let (s'', e, left_there) =
          read_loop-whole fuel ((partial_read s left).0) (left - length received)
            (omega (arith, size)) (omega (arith, size, still)) in
        let whole : k + (left - length received) ≡ left = omega (arith, size) in
        (
          s'',
          on_false (left == 0) _ _ something
              ∙ on_false (length received == 0) _ _ (ground (arith, size))
              ∙ ap (λ (r : S × Bytes). (r.0, received ++ r.1)) e
              ∙ ap (λ (t : Bytes). (s'', t))
                  (ap₂ (λ (t u : Bytes). t ++ take (left - length received) u) got rest
                    ∙ take_add k (left - length received) (pending s)
                    ∙ ap (λ (n : ℕ). take n (pending s)) whole),
          left_there
              ∙ ap (drop (left - length received)) rest
              ∙ drop-drop k (left - length received) (pending s)
              ∙ ap (λ (n : ℕ). drop n (pending s)) whole,
        )
  ]

  -- Where fewer than 2^31 bytes, and one at least, are asked for and are there, `readBlock` gives all of
  -- them, in whatever parts they are received, and leaves those behind them.
  pub read_block-IsReader :
      (overflowed : S → ℕ → S × Bool × Bytes)
      → IsReader (read_block is_active partial_read overflowed) pending
  unfolding read_block
  read_block-IsReader overflowed = record {
    gives = λ s n some_bytes counted there.
        let (s', e, left_there) = read_loop-whole n s n (omega arith) there in
        let size : length ((read_loop is_active partial_read n s n).1) ≡ n =
          omega (arith, ap (λ (r : S × Bytes). length (r.1)) e, length-take n (pending s)) in
        let some_received : not (length ((read_loop is_active partial_read n s n).1) == 0) ≡ true =
          ground (arith, size) in
        (
          s',
          on_false (not (is_active s)) _ _ (ap not (stream.active s (omega arith)))
              ∙ on_false (n == 0) _ _ (ground arith)
              ∙ on_false (leb (2 ^ 31) n) _ _ (ground arith)
              ∙ ap
                  (λ (b : Bool). (
                    (read_loop is_active partial_read n s n).0,
                    b,
                    (read_loop is_active partial_read n s n).1,
                  ))
                  some_received
              ∙ ap (λ (r : S × Bytes). (r.0, true, r.1)) e,
          left_there,
        );
  }
