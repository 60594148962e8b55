-- ===== src/Network/Stream/Texts.antt =====
-- Texts with their length in front.
use cx_framework.Base.{
  ℕ, ◌+◌, ◌-◌, ◌*◌, ◌%◌, ◌^◌, ◌≤◌, ◌<◌, Bool, true, false, ◌&&◌, Option, none, some, [], ◌++◌,
  append_assoc, Bytes, length, ltb, ◌==◌, if◌then◌else◌, ◌≡◌, ◌⊎◌, inl, inr, refl, ap, ◌∙◌, arith,
  on_true, on_false,
}
use cx_framework.Network.Stream.{
  from_network, to_network, read_uint, alloc_sized, read_block_alloc, read_string, length_size,
  write_string,
}
use cx_framework.Network.Stream.Socket.{IsReader}
use cx_framework.Network.Stream.Numbers.{
  from_network-byte, from_network-short, read_front, read_uint-to_network,
}

-- A writer that keeps all that is written to it.
abbrev pub keep_all : Bytes → Bytes → Bytes × Bool
keep_all w bytes = (w ++ bytes, true)

module _ {S : Type 0} (read_block : S → ℕ → S × Bool × Bytes) (pending : S → Bytes)
    (reader : IsReader read_block pending) where
  -- A text that is there, with its length: it is given if there is room for one byte more.
  pub alloc_sized-given :
      (s : S) (datalen : ℕ) (text rest : Bytes)
      → 0 < length text
      → length text < datalen
      → length text < 2 ^ 31
      → pending s ≡ text ++ rest
      → (s' : S) × (alloc_sized read_block datalen s (length text) true ≡ (s', some text))
        × (pending s' ≡ rest)
  unfolding alloc_sized
  alloc_sized-given s datalen text rest some_bytes room small there =
      let size : (2 ^ 32 + (length text + 1) % 2 ^ 32 - 1) % 2 ^ 32 ≡ length text = omega arith in
      let fits : ltb datalen ((length text + 1) % 2 ^ 32) ≡ false = ground arith in
      let (s', e, left) =
        read_front read_block pending reader s (length text) text rest some_bytes small refl
          there in
      (
        s',
        on_false (ltb datalen ((length text + 1) % 2 ^ 32)) _ _ fits
            ∙ rw size (
                ap
                  (λ (r : S × Bool × Bytes).
                    (r.0, if r.1 && (length (r.2) == length text) then some (r.2) else none))
                  e
                ∙ ap (λ (t : Option Bytes). (s', t))
                    (on_true (length text == length text) _ _ (ground arith))),
        left,
      )

  pub alloc_sized-refused :
      (s : S) (datalen : ℕ) (len : ℕ)
      → datalen ≤ len
      → len < 2 ^ 32 - 1
      → alloc_sized read_block datalen s len true ≡ (s, none)
  unfolding alloc_sized
  alloc_sized-refused s datalen len no_room small =
      let refused : ltb datalen ((len + 1) % 2 ^ 32) ≡ true = ground arith in
      on_true (ltb datalen ((len + 1) % 2 ^ 32)) _ _ refused

  read_block_alloc-sized :
      (s : S) (datalen sizel size : ℕ) (text rest : Bytes)
      → length_size sizel ≡ size
      → 0 < size
      → size < 2 ^ 31
      → from_network (to_network size (length text)) ≡ length text
      → pending s ≡ (to_network size (length text) ++ text) ++ rest
      → (s' : S) × (read_block_alloc read_block datalen sizel s
          ≡ alloc_sized read_block datalen s' (length text) true)
        × (pending s' ≡ text ++ rest)
  unfolding read_block_alloc
  read_block_alloc-sized s datalen sizel size text rest sized some_size counted fits there =
      let (s', e, left) =
        read_uint-to_network read_block pending reader s size (length text) (text ++ rest) some_size
          counted fits (there ∙ append_assoc (to_network size (length text)) text rest) in
      (
        s',
        ap
              (λ (n : ℕ).
                let r = read_uint read_block n s in
                alloc_sized read_block datalen (r.0) (r.1) (r.2))
              sized
            ∙ ap (λ (r : S × ℕ × Bool). alloc_sized read_block datalen (r.0) (r.1) (r.2)) e,
        left,
      )

  read_block_alloc-write_string :
      (s : S) (sizel size limit : ℕ) (text rest : Bytes)
      → length_size sizel ≡ size
      → 0 < size
      → size < 2 ^ 31
      → from_network (to_network size (length text)) ≡ length text
      → 0 < length text
      → length text ≤ limit
      → limit ≤ 2 ^ 31
      → pending s ≡ (write_string keep_all size limit text []).0 ++ rest
      → ((write_string keep_all size limit text []).1 ≡ true)
        × (length text < limit
            → (s' : S) × (read_block_alloc read_block limit sizel s ≡ (s', some text))
              × (pending s' ≡ rest))
        × (length text ≡ limit
            → (s' : S) × (read_block_alloc read_block limit sizel s ≡ (s', none)))
  read_block_alloc-write_string s sizel size limit text rest sized some_size counted fits some_bytes
        at_most small there =
      let written : write_string keep_all size limit text []
          ≡ (to_network size (length text) ++ text, true) =
        unfold write_string in on_false (ltb limit (length text)) _ _ (ground arith) in
      let (s', e, left) =
        read_block_alloc-sized s limit sizel size text rest sized some_size counted fits
          (there ∙ ap (λ (w : Bytes × Bool). w.0 ++ rest) written) in
      (
        ap (λ (w : Bytes × Bool). w.1) written,
        λ shorter.
            let (s'', e', left') =
              alloc_sized-given s' limit text rest some_bytes shorter (omega arith) left in
            (s'', e ∙ e', left'),
        λ longest. (
          s',
          e ∙ alloc_sized-refused s' limit (length text) (omega (arith, longest)) (omega arith),
        ),
      )

  -- `writeString8` and `writeString16` refuse, without a write, each text that is longer than their
  -- length can say, and write one that is not with its length; and where that is what a reader has,
  -- `readString` reads back a text that is shorter than the longest, but not one of the largest size.
  -- For texts that are not empty.
  pub read_string-write_string :
      (s : S) (size : ℕ) (text rest : Bytes)
      → (size ≡ 1) ⊎ (size ≡ 2)
      → 0 < length text
      → length text < 2 ^ (8 * size)
      → pending s ≡ (write_string keep_all size (2 ^ (8 * size) - 1) text []).0 ++ rest
      → ((write_string keep_all size (2 ^ (8 * size) - 1) text []).1 ≡ true)
        × (length text < 2 ^ (8 * size) - 1
            → (s' : S) × (read_string read_block (8 * size) s ≡ (s', some text))
              × (pending s' ≡ rest))
        × (length text ≡ 2 ^ (8 * size) - 1
            → (s' : S) × (read_string read_block (8 * size) s ≡ (s', none)))
        × ((long : Bytes)
            → 2 ^ (8 * size) - 1 < length long
            → write_string keep_all size (2 ^ (8 * size) - 1) long [] ≡ ([], false))
  unfolding read_string write_string
  read_string-write_string s size text rest (inl e) some_bytes fits there = rw e (
      let (wrote, given, refused) =
        read_block_alloc-write_string s 8 1 255 text rest refl (omega arith) (omega arith)
          (from_network-byte (length text) (rw e at fits)) some_bytes
          (omega (arith, (rw e at fits))) (omega arith) (rw e at there) in
      (wrote, given, refused, λ long longer. on_true (ltb 255 (length long)) _ _ (ground arith)))
  read_string-write_string s size text rest (inr e) some_bytes fits there = rw e (
      let (wrote, given, refused) =
        read_block_alloc-write_string s 16 2 65535 text rest refl (omega arith) (omega arith)
          (from_network-short (length text) (rw e at fits)) some_bytes
          (omega (arith, (rw e at fits))) (omega arith) (rw e at there) in
      (wrote, given, refused, λ long longer. on_true (ltb 65535 (length long)) _ _ (ground arith)))
