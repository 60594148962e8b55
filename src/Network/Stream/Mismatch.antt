-- ===== src/Network/Stream/Mismatch.antt =====
-- A text with a length of two bytes, read with a length of four.
use cx_framework.Base.{
  ℕ, suc, ◌+◌, ◌-◌, ◌/◌, ◌%◌, ◌^◌, ◌≤◌, ◌<◌, Bool, true, false, ◌&&◌, Option, none, some, [], ◌∷◌,
  ◌++◌, Bytes, length, take, replicate, ltb, ◌==◌, if◌then◌else◌, ◌≡◌, ◌≢◌, refl, sym, ap, ◌∙◌,
  arith, on_false, ==_iff, ◌*◌, drop, length-take,
}
use native.Mathlib.Nat.{pow-le-pow_right}
use cx_framework.Network.Stream.{
  from_network, to_network, read_uint, alloc_sized, read_block_alloc, read_string, length_size,
  write_uint, and_then, write_sized_block, write_string,
}
use cx_framework.Network.Stream.Socket.{IsReader}
use cx_framework.Network.Stream.Numbers.{read_front}
use cx_framework.Network.Stream.Texts.{keep_all, alloc_sized-given, alloc_sized-refused}
use cx_framework.Mem.Chunks.Room.{take-drop_whole}

-- Where a text comes out, it came out of the one branch that gives one.
abbrev result : {S : Type 0} → S → S → Bool → Bool → Bool → Bytes → S × Option Bytes
result s s' read_ok refused received bytes =
    if read_ok
    then if refused then (s, none) else (s', if received then some bytes else none)
    else (s, none)

given_by :
    {S : Type 0} (s s' : S) (read_ok refused received : Bool) (bytes text : Bytes)
    → (result s s' read_ok refused received bytes).1 ≡ some text
    → (received ≡ true) × (bytes ≡ text)
given_by s s' true true received bytes text e = absurd (cc e)
given_by s s' true false true bytes text e = (refl, cc e)
given_by s s' true false false bytes text e = absurd (cc e)
given_by s s' false refused received bytes text e = absurd (cc e)

both : (a b : Bool) → a && b ≡ true → b ≡ true
both true b h = h
both false b h = absurd (cc h)

-- The powers that a length below 32 bits is compared with.
pow_mono : (sizel : ℕ) → sizel < 32 → 2 ^ sizel ≤ 2 ^ 31
pow_mono sizel h =
    let at_most : sizel ≤ 31 = omega (arith, h) in
    let used : 0 < 2 = omega arith in pow-le-pow_right used at_most

four_bytes : (sizel : ℕ) → 16 < sizel → length_size sizel ≡ 4
unfolding length_size
four_bytes sizel h = ground (arith, h)

below_limit : (sizel k : ℕ) → sizel < 32 → k < 2 ^ sizel - 1 → k < 2 ^ 31
below_limit sizel k h fits = omega (arith, fits, pow_mono sizel h)

taken_size : (k : ℕ) (xs : Bytes) → k ≤ length xs → length (take k xs) ≡ k
taken_size k xs h = omega (arith, length-take k xs, h)

some_taken : (k : ℕ) (xs : Bytes) → 0 < k → k ≤ length xs → 0 < length (take k xs)
some_taken k xs h enough = omega (arith, taken_size k xs enough, h)

taken_less : (k n : ℕ) (xs : Bytes) → k < n → k ≤ length xs → length (take k xs) < n
taken_less k n xs h enough = omega (arith, taken_size k xs enough, h)

-- The length that is read of a text `c ∷ d ∷ text` behind a length of two bytes.
abbrev pub taken_length : ℕ → ℕ → Bytes → ℕ
taken_length c d text = (length text + 2) * 65536 + c * 256 + d

module _ {S : Type 0} (read_block : S → ℕ → S × Bool × Bytes) (pending : S → Bytes)
    (reader : IsReader read_block pending) where
  -- A text that is read is as long as its length says.
  alloc_sized-length :
      (s : S) (datalen len : ℕ) (text : Bytes)
      → len < 2 ^ 32
      → (alloc_sized read_block datalen s len true).1 ≡ some text
      → length text ≡ len
  unfolding alloc_sized
  alloc_sized-length s datalen len text small e =
      let size = (2 ^ 32 + (len + 1) % 2 ^ 32 - 1) % 2 ^ 32 in
      let r = read_block s size in
      let (received, same) =
        given_by s (r.0) true (ltb datalen ((len + 1) % 2 ^ 32)) (r.1 && (length (r.2) == size))
          (r.2) text e in
      let sized : size ≡ len = omega arith in
      ap (length {0}) (sym same) ∙ (==_iff (length (r.2)) size).0 (both (r.1) _ received) ∙ sized

  read_string-four :
      (s : S) (sizel c d : ℕ) (text rest : Bytes)
      → 16 < sizel
      → c < 256
      → d < 256
      → length text + 2 < 2 ^ 16
      → pending s ≡ (write_string keep_all 2 (2 ^ 16 - 1) (c ∷ d ∷ text) []).0 ++ rest
      → (s' : S) × (read_string read_block sizel s
          ≡ alloc_sized read_block (2 ^ sizel - 1) s' (taken_length c d text) true)
        × (pending s' ≡ text ++ rest)
  read_string-four s sizel c d text rest wide hc hd small there =
      let n = suc (suc (length text)) in
      let front = n / 256 % 256 ∷ n / 1 % 256 ∷ c ∷ d ∷ [] in
      let written : write_string keep_all 2 (2 ^ 16 - 1) (c ∷ d ∷ text) [] ≡ (front ++ text, true) =
        unfold write_string write_sized_block write_uint and_then to_network in
        on_false (ltb (2 ^ 16 - 1) n) _ _ (ground arith) in
      let (s', block, left) =
        read_front read_block pending reader s 4 front (text ++ rest) (omega arith) (omega arith)
          refl (there ∙ ap (λ (w : Bytes × Bool). w.0 ++ rest) written) in
      let number : from_network front ≡ taken_length c d text =
        unfold from_network in omega (arith, small) in
      let len : read_uint read_block 4 s ≡ (s', taken_length c d text, true) =
        unfold read_uint in
        (ap
            (λ (r : S × Bool × Bytes).
              (r.0, from_network (take 4 (r.2 ++ replicate 4 0)), r.1 && (length (r.2) == 4)))
            block
          ∙ ap (λ (k : ℕ). (s', k, true)) number) in
      (
        s',
        unfold read_string read_block_alloc in
            (ap
                (λ (k : ℕ).
                  let r = read_uint read_block k s in
                  alloc_sized read_block (2 ^ sizel - 1) (r.0) (r.1) (r.2))
                (four_bytes sizel wide)
              ∙ ap (λ (r : S × ℕ × Bool). alloc_sized read_block (2 ^ sizel - 1) (r.0) (r.1) (r.2))
                  len),
        left,
      )

  -- A text of two bytes or more, and of 65534 at most, that `writeString16` has written does not come out
  -- of `readString` with a length of more than 16 and fewer than 32 bits. That takes the first two bytes
  -- of the text for the lower half of a length, of which the length of the text is the upper half:
  -- where it is not below the largest that is allowed, no text is read, and where it is and as many
  -- bytes stand behind, those are the text, and the two bytes are lost.
  pub read_string-write_string16 :
      (s : S) (sizel c d : ℕ) (text rest : Bytes)
      → 16 < sizel
      → sizel < 32
      → c < 256
      → d < 256
      → length text + 2 < 2 ^ 16 - 1
      → pending s ≡ (write_string keep_all 2 (2 ^ 16 - 1) (c ∷ d ∷ text) []).0 ++ rest
      → ((read_string read_block sizel s).1 ≢ some (c ∷ d ∷ text))
        × (2 ^ sizel - 1 ≤ taken_length c d text → (read_string read_block sizel s).1 ≡ none)
        × (taken_length c d text < 2 ^ sizel - 1
            → taken_length c d text ≤ length (text ++ rest)
            → (read_string read_block sizel s).1
              ≡ some (take (taken_length c d text) (text ++ rest)))
  read_string-write_string16 s sizel c d text rest wide narrow hc hd small there =
      let k = taken_length c d text in
      let (s', asked, left) =
        read_string-four s sizel c d text rest wide hc hd (omega (arith, small)) there in
      let bound : k < 2 ^ 32 - 1 = omega (arith, hc, hd, small) in
      let answer = ap (λ (r : S × Option Bytes). r.1) asked in
      (
        λ e.
            let same : length text + 2 ≡ k = omega (
              arith,
              alloc_sized-length s' (2 ^ sizel - 1) k (c ∷ d ∷ text) (omega (arith, bound))
                  (sym answer ∙ e),
            ) in
            omega (arith, same),
        λ large.
            answer
            ∙ ap (λ (r : S × Option Bytes). r.1)
                (alloc_sized-refused read_block pending reader s' (2 ^ sizel - 1) k large bound),
        λ fits enough.
            let below_ : k < 2 ^ 31 = below_limit sizel k narrow fits in
            let (s'', given, rest_left) =
              alloc_sized-given read_block pending reader s' (2 ^ sizel - 1) (take k (text ++ rest))
                (drop k (text ++ rest)) (some_taken k (text ++ rest) (omega arith) enough)
                (taken_less k (2 ^ sizel - 1) (text ++ rest) fits enough)
                (taken_less k (2 ^ 31) (text ++ rest) below_ enough)
                (left ∙ sym (take-drop_whole k (text ++ rest))) in
            answer
            ∙ ap (λ (j : ℕ). (alloc_sized read_block (2 ^ sizel - 1) s' j true).1)
                (sym (taken_size k (text ++ rest) enough))
            ∙ ap (λ (r : S × Option Bytes). r.1) given,
      )
