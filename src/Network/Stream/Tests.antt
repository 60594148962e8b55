-- ===== src/Network/Stream/Tests.antt =====
-- A short text, written and read.
use cx_framework.Base.{
  ◌-◌, ◌*◌, ◌^◌, ◌<◌, true, false, none, some, inl, [], ◌∷◌, Bytes, length, ◌≡◌, ◌≢◌, refl, arith,
  ◌≤◌, ◌++◌, take, ℕ,
}
use cx_framework.Network.Stream.{read_string, write_string, to_network}
use cx_framework.Network.Stream.Socket.{read_block, IsReader, read_block-IsReader}
use cx_framework.Network.Stream.Texts.{keep_all, read_string-write_string}
use cx_framework.Network.Stream.Mismatch.{taken_length, read_string-write_string16}
use cx_framework.Network.Stream.Drip.{
  is_open, drip, drip-IsStream, pending, read_drip, drip-IsReader,
}

abbrev text : Bytes
text = b'h' ∷ b'i' ∷ []

abbrev framed : Bytes
framed = 2 ∷ b'h' ∷ b'i' ∷ []

read_string-write_string_example :
    ((write_string keep_all 1 (2 ^ (8 * 1) - 1) text []).1 ≡ true)
    × (length text < 2 ^ (8 * 1) - 1
        → (s' : Bytes) × (read_string read_drip (8 * 1) framed ≡ (s', some text))
          × (pending s' ≡ []))
    × (length text ≡ 2 ^ (8 * 1) - 1
        → (s' : Bytes) × (read_string read_drip (8 * 1) framed ≡ (s', none)))
    × ((long : Bytes)
        → 2 ^ (8 * 1) - 1 < length long
        → write_string keep_all 1 (2 ^ (8 * 1) - 1) long [] ≡ ([], false))
unfolding write_string to_network
read_string-write_string_example =
    read_string-write_string read_drip pending drip-IsReader framed 1 text [] (inl refl)
      (omega arith) (omega arith) refl

read_block-IsReader_example : IsReader (read_block is_open drip (λ s n. (s, false, []))) pending
read_block-IsReader_example =
    read_block-IsReader is_open drip pending drip-IsStream (λ s n. (s, false, []))

abbrev short_frame : Bytes
short_frame = 0 ∷ 2 ∷ b'h' ∷ b'i' ∷ []

read_string-write_string16_example :
    ((read_string read_drip 25 short_frame).1 ≢ some (b'h' ∷ b'i' ∷ []))
    × (2 ^ 25 - 1 ≤ taken_length b'h' b'i' [] → (read_string read_drip 25 short_frame).1 ≡ none)
    × (taken_length b'h' b'i' [] < 2 ^ 25 - 1
        → taken_length b'h' b'i' [] ≤ length (◌++◌ {A = ℕ} [] [])
        → (read_string read_drip 25 short_frame).1
          ≡ some (take (taken_length b'h' b'i' []) ([] ++ [])))
unfolding write_string to_network
read_string-write_string16_example =
    read_string-write_string16 read_drip pending drip-IsReader short_frame 25 b'h' b'i' [] []
      (omega arith) (omega arith) (omega arith) (omega arith) (omega arith) refl
