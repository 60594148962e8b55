-- ===== src/Mem/SubParser/Sized.antt =====
-- Parsing by size: what `parse` gets, in whatever parts the bytes arrive.
use cx_framework.Base.{
  ℕ, ◌+◌, ◌-◌, ◌≤◌, ◌<◌, true, false, ◌≡◌, refl, sym, ap, subst, ◌∙◌, Option, none, some, ◌>>=◌,
  List, [], ◌∷◌, ◌++◌, append_assoc, append-nil, Bytes, length, take, length-append, length-take,
  take_all, take-append, All, ltb, ◌==◌, if◌then◌else◌, arith,
}
use cx_framework.Mem.Chunks.{Container, done, add}
use cx_framework.Mem.Chunks.Content.{content, joined}
use cx_framework.Mem.Chunks.Room.{HasRoom, add-AddsAll}
use cx_framework.Mem.StreamParser.{ParseStatus}
use cx_framework.Mem.SubParser.{
  Parser, Written, written, outside, parsed_and_cleared, sized, parse_by_size,
}
use cx_framework.Mem.SubParser.Handed.{handed, parsed_and_cleared-handed}

module _ {S : Type 0} (parse : Parser S → Bytes → Parser S × ParseStatus) where
  -- Writes that succeed and take all their bytes.
  whole : ℕ → Written S → Option (Parser S)
  whole n (written p true m) = if m == n then some p else none
  whole n (written p false m) = none
  whole n outside = none

  unfoldable pub write_all : List Bytes → Parser S → Option (Parser S)
  unfolding whole
  write_all [] p = some p
  write_all (buf ∷ bufs) p = whole (length buf) (parse_by_size parse buf p) >>= write_all bufs

  sized_kept :
      (p : Parser S) (n : ℕ) (c : Container)
      → n < p.left_to_parse
      → sized parse p n (done c true n)
        ≡ written (record p { unparsed = c; left_to_parse = p.left_to_parse - n }) true n
  unfolding sized
  sized_kept p n c fewer =
      let counted : (n == n) ≡ true = ground arith in
      let more : (p.left_to_parse - n == 0) ≡ false = ground arith in rw (counted, more) refl

  sized_done :
      (p : Parser S) (n : ℕ) (c : Container)
      → n ≡ p.left_to_parse
      → sized parse p n (done c true n)
        ≡ written
            (parsed_and_cleared parse
              (record p { unparsed = c; left_to_parse = 0 })
              (content c.chunks))
            true
            n
  unfolding sized
  sized_done p n c e =
      let counted : (n == n) ≡ true = ground arith in
      let none_left : p.left_to_parse - n ≡ 0 = omega arith in rw (counted, none_left) refl

  -- A write of fewer bytes than are left to parse keeps them.
  kept :
      (buf : Bytes) (p : Parser S)
      → 0 < length buf
      → length buf < p.left_to_parse
      → HasRoom p.unparsed p.left_to_parse
      → (c : Container) × (parse_by_size parse buf p
          ≡ written
              (record p { unparsed = c; left_to_parse = p.left_to_parse - length buf })
              true
              (length buf))
        × (content c.chunks ≡ content (p.unparsed.chunks) ++ buf)
        × HasRoom c (p.left_to_parse - length buf)
  unfolding parse_by_size
  kept [] p used fewer room = absurd (omega arith)
  kept (x ∷ xs) p used fewer room =
      let buf = x ∷ xs in
      let n = length buf in
      let cut : (if ltb p.left_to_parse n then p.left_to_parse else n) ≡ n = ground arith in
      let split : p.left_to_parse ≡ n + (p.left_to_parse - n) = omega arith in
      let (c, e, text, room') =
        add-AddsAll (p.unparsed) buf (p.left_to_parse - n)
          (subst (HasRoom (p.unparsed)) split room) in
      (
        c,
        ap (λ (k : ℕ). sized parse p k (add false (take k buf) (p.unparsed))) cut
            ∙ ap (λ (bs : Bytes). sized parse p n (add false bs (p.unparsed)))
                (take_all n buf (omega arith))
            ∙ ap (sized parse p n) e
            ∙ sized_kept p n c fewer,
        text,
        room',
      )

  -- A write that reaches the size hands the element to `parse`.
  completed :
      (buf : Bytes) (p : Parser S)
      → 0 < p.left_to_parse
      → p.left_to_parse ≤ length buf
      → HasRoom p.unparsed p.left_to_parse
      → (c : Container) × (parse_by_size parse buf p
          ≡ written
              (parsed_and_cleared parse
                (record p { unparsed = c; left_to_parse = 0 })
                (content (p.unparsed.chunks) ++ take p.left_to_parse buf))
              true
              p.left_to_parse)
  unfolding parse_by_size
  completed [] p used reached room = absurd (omega arith)
  completed (x ∷ xs) p used reached room =
      let buf = x ∷ xs in
      let n = p.left_to_parse in
      let cut : (if ltb n (length buf) then n else length buf) ≡ n = ground arith in
      let size : length (take n buf) ≡ n = omega (arith, length-take n buf) in
      let split : n ≡ length (take n buf) + 0 = omega (arith, size) in
      let (c, e, text, room') =
        add-AddsAll (p.unparsed) (take n buf) 0 (subst (HasRoom (p.unparsed)) split room) in
      (
        c,
        ap (λ (k : ℕ). sized parse p k (add false (take k buf) (p.unparsed))) cut
            ∙ ap (sized parse p n) (e ∙ ap (done c true) size)
            ∙ sized_done p n c refl
            ∙ ap
                (λ (bs : Bytes).
                  written
                    (parsed_and_cleared parse (record p { unparsed = c; left_to_parse = 0 }) bs)
                    true n)
                text,
      )

  -- Where a parser stands after it has kept bytes.
  abbrev Keeps : List Bytes → Parser S → Type 0
  Keeps bufs p =
      (c : Container) × (write_all bufs p
        ≡ some (record p { unparsed = c; left_to_parse = p.left_to_parse - length (joined bufs) }))
      × (content c.chunks ≡ content (p.unparsed.chunks) ++ joined bufs)
      × HasRoom c (p.left_to_parse - length (joined bufs))

  next_Keeps :
      (buf : Bytes) (bufs : List Bytes) (p : Parser S) (c : Container)
      → parse_by_size parse buf p
        ≡ written
            (record p { unparsed = c; left_to_parse = p.left_to_parse - length buf })
            true
            (length buf)
      → content c.chunks ≡ content (p.unparsed.chunks) ++ buf
      → Keeps bufs (record p { unparsed = c; left_to_parse = p.left_to_parse - length buf })
      → Keeps (buf ∷ bufs) p
  unfolding write_all whole joined
  next_Keeps buf bufs p c e text (d, f, text', room) =
      let counted : (length buf == length buf) ≡ true = ground arith in
      let left : p.left_to_parse - length buf - length (joined bufs)
          ≡ p.left_to_parse - length (buf ++ joined bufs) =
        omega (arith, length-append buf (joined bufs)) in
      (
        d,
        rw (e, counted)
            (f ∙ ap (λ (k : ℕ). some (record p { unparsed = d; left_to_parse = k })) left),
        text'
            ∙ ap (λ (xs : Bytes). xs ++ joined bufs) text
            ∙ append_assoc (content (p.unparsed.chunks)) buf (joined bufs),
        subst (HasRoom d) left room,
      )

  parts_kept :
      (bufs : List Bytes) (p : Parser S)
      → All (λ (buf : Bytes). 0 < length buf) bufs
      → length (joined bufs) < p.left_to_parse
      → HasRoom p.unparsed p.left_to_parse
      → Keeps bufs p
  parts_kept [] p used fewer room =
      let left : p.left_to_parse ≡ p.left_to_parse - 0 = omega arith in
      unfold write_all joined in
      (
        p.unparsed,
        ap (λ (k : ℕ). some (record p { left_to_parse = k })) left,
        sym (append-nil (content (p.unparsed.chunks))),
        subst (HasRoom (p.unparsed)) left room,
      )
  parts_kept (buf ∷ bufs) p used fewer room =
      let size : length (joined (buf ∷ bufs)) ≡ length buf + length (joined bufs) =
        unfold joined in length-append buf (joined bufs) in
      let (c, e, text, room') = kept buf p used.0 (omega arith) room in
      next_Keeps buf bufs p c e text (parts_kept bufs _ used.1 (omega arith) room')

  -- In whatever parts the bytes arrive, the writes that do not reach the size take all their bytes,
  -- and the one that reaches it takes what was left to parse and hands to `parse` exactly the bytes
  -- that were kept before and the first of the stream, as many as were left to parse; then
  -- it keeps the status that `parse` returns and no bytes. For parts that are not empty, and a container
  -- with the room for the element.
  pub parse_by_size-parts :
      (bufs : List Bytes) (last : Bytes) (p : Parser S)
      → All (λ (buf : Bytes). 0 < length buf) bufs
      → length (joined bufs) < p.left_to_parse
      → p.left_to_parse ≤ length (joined bufs) + length last
      → HasRoom p.unparsed p.left_to_parse
      → (q : Parser S) × (write_all bufs p ≡ some q)
        × (c : Container) × (parse_by_size parse last q
            ≡ written
                (handed parse
                  (record p { unparsed = c; left_to_parse = 0 })
                  (content (p.unparsed.chunks) ++ take p.left_to_parse (joined bufs ++ last)))
                true
                (p.left_to_parse - length (joined bufs)))
  parse_by_size-parts bufs last p used fewer reached room =
      let (c, e, text, room') = parts_kept bufs p used fewer room in
      let left = p.left_to_parse - length (joined bufs) in
      let q = record p { unparsed = c; left_to_parse = left } in
      let (d, f) = completed last q (omega arith) (omega arith) room' in
      let whole_text : content c.chunks ++ take left last
          ≡ content (p.unparsed.chunks) ++ take p.left_to_parse (joined bufs ++ last) =
        ap (λ (xs : Bytes). xs ++ take left last) text
        ∙ append_assoc (content (p.unparsed.chunks)) (joined bufs) (take left last)
        ∙ ap (λ (xs : Bytes). content (p.unparsed.chunks) ++ xs)
            (sym (
              take-append p.left_to_parse (joined bufs) last
              ∙ ap (λ (xs : Bytes). xs ++ take left last)
                  (take_all p.left_to_parse (joined bufs) (omega arith)))) in
      (
        q,
        e,
        d,
        f
            ∙ ap
                (λ (bs : Bytes).
                  written
                    (parsed_and_cleared parse (record p { unparsed = d; left_to_parse = 0 }) bs)
                    true left)
                whole_text
            ∙ ap (λ (r : Parser S). written r true left) (parsed_and_cleared-handed parse _ _),
      )
