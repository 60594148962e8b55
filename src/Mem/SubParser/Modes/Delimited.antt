-- ===== src/Mem/SubParser/Modes/Delimited.antt =====
-- Parsing by a delimiter: what `parse` gets, and how many bytes of a write are taken.
use cx_framework.Base.{
  ℕ, ◌+◌, ◌-◌, ◌%◌, ◌^◌, ◌≤◌, ◌<◌, Bool, true, false, ◌||◌, ◌≡◌, ◌⊎◌, refl, sym, ap, ap₂, subst,
  ◌∙◌, inl, inr, Option, none, some, ◌∷◌, ◌++◌, Bytes, length, take, length-append, ltb, ltb→lt,
  ◌==◌, if◌then◌else◌, arith, Bool-cases, Option-cases,
}
use cx_framework.Mem.Memory.{block}
use cx_framework.Mem.Search.{Found, found, missing, invalid, find, is_upper}
use cx_framework.Mem.Search.Occurrence.{first_occurrence, first_match-first_occurrence}
use cx_framework.Mem.Search.First.{first_match, at_offset, find-first_match}
use cx_framework.Mem.Search.Prefix.{match_fits, match_in_prefix, first_match-short, find_short}
use cx_framework.Mem.Chunks.{Container, done, add}
use cx_framework.Mem.Chunks.Content.{content}
use cx_framework.Mem.Chunks.Lookup.{backend}
use cx_framework.Mem.Chunks.Lookup.Agrees.{backend-Holds}
use cx_framework.Mem.Chunks.Room.{HasRoom, add-AddsAll}
use cx_framework.Mem.StreamParser.{ParseStatus}
use cx_framework.Mem.SubParser.{Parser, Written, written, sub64, parsed, parsed_and_cleared}
use cx_framework.Mem.SubParser.Handed.{handed, parsed_and_cleared-handed}
use cx_framework.Mem.SubParser.Modes.{
  append_some, not_found, delimited, appended, ending, parse_by_delimiter,
}

-- What a search for a needle comes to over a string: the first match, or one of the two failures.
abbrev Searched : Bytes → Bytes → Option Found → Type 0
Searched needle text r =
    ((pos : ℕ) × (first_match true needle text ≡ some pos) × (r ≡ some (found pos)))
    ⊎ ((first_match true needle text ≡ none) × ((r ≡ some missing) ⊎ (r ≡ some invalid)))

find-Searched :
    (d : ℕ) (ds : Bytes) (c : Container) (n : ℕ)
    → length (d ∷ ds) ≤ block
    → HasRoom c n
    → Searched (d ∷ ds) (content c.chunks) (find (d ∷ ds) true 0 0 (backend c))
find-Searched d ds c n short room =
    let needle = d ∷ ds in
    let holds = backend-Holds c room.counted (omega (arith, room.small)) in
    let text = content c.chunks in
    elim (Bool-cases (ltb (length text) (length needle))) [
      | inl longer ↦ inr (
        first_match-short true d ds text (ltb→lt (length text) (length needle) longer),
        find_short holds needle true (omega arith) (ltb→lt (length text) (length needle) longer),
      )
      | inr fits ↦
          let e = find-first_match holds needle true 0 (omega arith) short (ground arith) in
          elim (Option-cases (first_match true needle text)) [
            | inl absent ↦
                inr (absent, inl (e ∙ ap (λ (o : Option ℕ). some (at_offset 0 o)) absent))
            | inr (pos, at) ↦
                let same : 0 + pos ≡ pos = omega arith in
                inl (
                  pos,
                  at,
                  e
                      ∙ ap (λ (o : Option ℕ). some (at_offset 0 o)) at
                      ∙ ap (λ (k : ℕ). some (found k)) same,
                )
          ]
    ]

on_false : {A : Type 0} (b : Bool) (x y : A) → b ≡ false → (if b then x else y) ≡ y
on_false b x y h = rw h refl

-- A delimiter that was not there before ends behind the old bytes.
ends_behind :
    (d : ℕ) (ds old buf : Bytes) (pos : ℕ)
    → first_match true (d ∷ ds) old ≡ none
    → first_match true (d ∷ ds) (old ++ buf) ≡ some pos
    → length old < pos + length (d ∷ ds)
ends_behind d ds old buf pos new at = elim (Bool-cases (ltb (length old) (pos + length (d ∷ ds)))) [
  | inl behind ↦ ltb→lt (length old) (pos + length (d ∷ ds)) behind
  | inr inside ↦ cc (match_in_prefix true d ds old buf pos at (ground arith))
]

module _ {S : Type 0} (parse : Parser S → Bytes → Parser S × ParseStatus) where
  -- What the search that is made comes to, in the code's terms.
  abbrev Judged : Bytes → Bytes → Bytes → Parser S → Container → Written S → Type 0
  Judged delimiter old buf p c w =
      ((pos : ℕ) × (first_match true delimiter (old ++ buf) ≡ some pos)
        × (w
            ≡ written (parsed_and_cleared parse (record p { unparsed = c }) (take pos (old ++ buf)))
                true (pos + length delimiter - length old))
        × (length old < pos + length delimiter)
        × (pos + length delimiter ≤ length old + length buf))
      ⊎ ((first_match true delimiter (old ++ buf) ≡ none)
          × (w ≡ written (record p { unparsed = c }) true (length buf)))

  -- `parse` leaves the delimiter as it is.
  abbrev pub KeepsDelimiter : Type 0
  KeepsDelimiter =
      (p : Parser S) (bytes : Bytes) → (parse p bytes).0.parse_delimiter ≡ p.parse_delimiter

  taken_bytes :
      (pos size old : ℕ)
      → old < pos + size
      → pos + size < 2 ^ 64
      → (sub64 pos old + size) % 2 ^ 64 ≡ pos + size - old
  unfolding sub64
  taken_bytes pos size old h small = omega arith

  kept_delimiter :
      KeepsDelimiter
      → (p : Parser S) (bytes : Bytes)
      → (parsed_and_cleared parse p bytes).parse_delimiter ≡ p.parse_delimiter
  unfolding parsed_and_cleared parsed
  kept_delimiter keeps p bytes = keeps p bytes

  not_found_lem :
      (p : Parser S) (n : ℕ) → p.stream_ended ≡ false → not_found parse p n ≡ written p true n
  unfolding not_found
  not_found_lem p n open_ = on_false p.stream_ended _ (written p true n) open_

  judge :
      (d : ℕ) (ds old buf : Bytes) (p : Parser S) (c : Container) (r : Option Found)
      → KeepsDelimiter
      → p.stream_ended ≡ false
      → p.parse_delimiter ≡ d ∷ ds
      → content c.chunks ≡ old ++ buf
      → length old + length buf < 2 ^ 64
      → first_match true (d ∷ ds) old ≡ none
      → Searched (d ∷ ds) (old ++ buf) r
      → Judged
          (d ∷ ds)
          old
          buf
          p
          c
          (delimited parse (record p { unparsed = c }) (length old) (length buf) r)
  unfolding delimited
  judge d ds old buf p c r keeps open_ delim text small new (inl (pos, at, e)) =
      let q = record p { unparsed = c } in
      let bytes = take pos (old ++ buf) in
      let fits : pos + length (d ∷ ds) ≤ length old + length buf =
        omega (arith, match_fits true d ds (old ++ buf) pos at, length-append old buf) in
      let behind = ends_behind d ds old buf pos new at in
      inl (
        pos,
        at,
        ap (delimited parse q (length old) (length buf)) e
            ∙ ap
                (λ (bs : Bytes). written (parsed_and_cleared parse q (take pos bs)) true (
                  (sub64 pos (length old)
                    + length (parsed_and_cleared parse q (take pos bs)).parse_delimiter)
                  % 2 ^ 64))
                text
            ∙ ap (λ (n : ℕ). written (parsed_and_cleared parse q bytes) true n)
                (ap (λ (ys : Bytes). (sub64 pos (length old) + length ys) % 2 ^ 64)
                    (kept_delimiter keeps q bytes ∙ delim)
                  ∙ taken_bytes pos (length (d ∷ ds)) (length old) behind (omega (arith, fits))),
        behind,
        fits,
      )
  judge d ds old buf p c r keeps open_ delim text small new (inr (absent, inl e)) = inr (
    absent,
    ap (delimited parse (record p { unparsed = c }) (length old) (length buf)) e
        ∙ not_found_lem (record p { unparsed = c }) (length buf) open_,
  )
  judge d ds old buf p c r keeps open_ delim text small new (inr (absent, inr e)) = inr (
    absent,
    ap (delimited parse (record p { unparsed = c }) (length old) (length buf)) e
        ∙ not_found_lem (record p { unparsed = c }) (length buf) open_,
  )

  ending_lem :
      (x : ℕ) (xs : Bytes) (p : Parser S) → p.stream_ended ≡ false → ending parse (x ∷ xs) p ≡ p
  unfolding ending
  ending_lem x xs p open_ =
      let same : p.stream_ended || length (x ∷ xs) == 0 ≡ p.stream_ended = ground arith in
      ap (λ (b : Bool). record p { stream_ended = b }) same

  appended_lem :
      (search : Parser S → ℕ → Written S) (p : Parser S) (c : Container) (n : ℕ)
      → 0 < n
      → appended parse search p false (done c true n) ≡ search (record p { unparsed = c }) n
  unfolding appended
  appended_lem search p c n used =
      let added : n == 0 || false ≡ false = ground arith in
      on_false (n == 0 || false) _ (search (record p { unparsed = c }) n) added

  -- Behind an append that added all the bytes.
  search_lem :
      (x : ℕ) (xs : Bytes) (p : Parser S) (c : Container)
      → p.stream_ended ≡ false
      → add false (x ∷ xs) (p.unparsed) ≡ done c true (length (x ∷ xs))
      → parse_by_delimiter parse (x ∷ xs) p
        ≡ delimited parse
            (record p { unparsed = c })
            (p.unparsed.container_bytes)
            (length (x ∷ xs))
            (find (p.parse_delimiter) true 0 0 (backend c))
  unfolding parse_by_delimiter append_some
  search_lem x xs p c open_ e =
      let buf = x ∷ xs in
      let search : Parser S → ℕ → Written S = λ p' n.
        delimited parse p' (p.unparsed.container_bytes) n
          (find (p'.parse_delimiter) true 0 0 (backend (p'.unparsed))) in
      let some_bytes : (length buf == 0) ≡ false = ground arith in
      ap (λ (q : Parser S). appended parse search q (length buf == 0) (add false buf (p.unparsed)))
        (ending_lem x xs p open_)
      ∙ ap₂ (appended parse search p) some_bytes e
      ∙ appended_lem search p c (length buf) (omega arith)

  -- A write that completes an element by the delimiter, or one whose bytes are kept. The container has
  -- the old bytes and the new ones, until `parse` is done with those in front of the delimiter.
  abbrev pub Delimits : Bytes → Bytes → Bytes → Parser S → Written S → Type 0
  Delimits delimiter old buf p w =
      (c : Container) × (content c.chunks ≡ old ++ buf)
      × (((pos : ℕ) × (first_occurrence delimiter (old ++ buf) ≡ some pos)
            × (w
                ≡ written (handed parse (record p { unparsed = c }) (take pos (old ++ buf))) true
                    (pos + length delimiter - length old))
            × (length old < pos + length delimiter)
            × (pos + length delimiter ≤ length old + length buf))
          ⊎ ((first_occurrence delimiter (old ++ buf) ≡ none)
              × (w ≡ written (record p { unparsed = c }) true (length buf))))

  plainly :
      (d : ℕ) (ds old buf : Bytes) (p : Parser S) (c : Container) (w : Written S)
      → is_upper d ≡ false
      → content c.chunks ≡ old ++ buf
      → Judged (d ∷ ds) old buf p c w
      → Delimits (d ∷ ds) old buf p w
  plainly d ds old buf p c w plain text (inl (pos, at, e, behind, fits)) = (
    c,
    text,
    inl (
      pos,
      sym (first_match-first_occurrence d ds (old ++ buf) plain) ∙ at,
      e
          ∙ ap (λ (q : Parser S). written q true (pos + length (d ∷ ds) - length old))
              (parsed_and_cleared-handed parse (record p { unparsed = c }) (take pos (old ++ buf))),
      behind,
      fits,
    ),
  )
  plainly d ds old buf p c w plain text (inr (absent, e)) =
      (c, text, inr (sym (first_match-first_occurrence d ds (old ++ buf) plain) ∙ absent, e))

  -- `parseByDelimiter` of bytes that are not empty, before the end of the stream, where the bytes kept
  -- so far hold no delimiter, the container has the room, `parse` leaves the delimiter as it is, and
  -- the delimiter has at most 64 KiB and does not start with an upper-case letter: where the bytes kept
  -- and the new ones hold it, `parse` gets what lies before its first occurrence, no bytes are kept
  -- behind the call, and of the new bytes those through its end are taken, at least one and at most
  -- all; otherwise all are taken, and kept behind the old ones.
  pub parse_by_delimiter-Delimits :
      (d : ℕ) (ds : Bytes) (x : ℕ) (xs : Bytes) (p : Parser S)
      → KeepsDelimiter
      → p.stream_ended ≡ false
      → p.parse_delimiter ≡ d ∷ ds
      → is_upper d ≡ false
      → length (d ∷ ds) ≤ block
      → HasRoom p.unparsed (length (x ∷ xs))
      → first_occurrence (d ∷ ds) (content (p.unparsed.chunks)) ≡ none
      → Delimits
          (d ∷ ds)
          (content (p.unparsed.chunks))
          (x ∷ xs)
          p
          (parse_by_delimiter parse (x ∷ xs) p)
  parse_by_delimiter-Delimits d ds x xs p keeps open_ delim plain short room absent =
      let buf = x ∷ xs in
      let old = content (p.unparsed.chunks) in
      let new = first_match-first_occurrence d ds old plain ∙ absent in
      let none_left : length buf ≡ length buf + 0 = omega arith in
      let (c, e, text, room') =
        add-AddsAll (p.unparsed) buf 0 (subst (HasRoom (p.unparsed)) none_left room) in
      let found_at =
        subst (λ (zs : Bytes). Searched (d ∷ ds) zs (find (d ∷ ds) true 0 0 (backend c))) text
          (find-Searched d ds c 0 short room') in
      let judged =
        judge d ds old buf p c (find (d ∷ ds) true 0 0 (backend c)) keeps open_ delim text
          (omega (arith, room.small, room.counted)) new found_at in
      let whole_step =
        search_lem x xs p c open_ e
        ∙ ap₂
            (λ (n : ℕ) (needle : Bytes).
              delimited parse (record p { unparsed = c }) n (length buf)
                (find needle true 0 0 (backend c)))
            room.counted delim in
      plainly d ds old buf p c (parse_by_delimiter parse buf p) plain text
        (subst (Judged (d ∷ ds) old buf p c) (sym whole_step) judged)
