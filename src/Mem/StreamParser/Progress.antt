-- ===== src/Mem/StreamParser/Progress.antt =====
-- What `parseData` reports, and when it does not fail.
use cx_framework.Base.{
  ℕ, zero, suc, ◌≤◌, ◌<◌, Bool, true, false, ◌≡◌, ◌≢◌, inl, inr, refl, Option, none, some, Bytes,
  length, drop, length-drop, ◌==◌, ==_iff, arith, Bool-cases,
}
use cx_framework.Mem.StreamParser.{
  parse_error, get_more_data, goto_next_subparser, Feed, refused, fed, Protocol, Parsed, fails,
  parsed, add_written, go_on, change, continue, parse_data, write,
}

shorter :
    (n ttl : ℕ) (buf : Bytes)
    → length buf ≤ suc ttl
    → n ≤ length buf
    → (0 < length buf → 0 < n)
    → n ≢ length buf
    → length (drop n buf) ≤ ttl
shorter n ttl buf h fits pos ne = ground (arith, length-drop n buf)

module _ (p : Protocol) where
  -- No sub-parser reports more bytes than it was given.
  abbrev Takes : Bytes → Feed p.State → Type 0
  Takes buf refused = Unit
  Takes buf (fed s n status) = n ≤ length buf

  abbrev pub IsHonest : Type 0
  IsHonest = (s : p.State) (buf : Bytes) → Takes buf (p.write_into_parser s buf)

  -- All bytes are taken, or the protocol has ended and some of them are.
  abbrev pub Accounts : Bytes → Parsed p.State → Type 0
  Accounts buf fails = Unit
  Accounts buf (parsed s n finished) =
      (n ≤ length buf)
      × (finished ≡ false → n ≡ length buf)
      × (finished ≡ true → p.has_parser s ≡ false)

  add_written-Accounts :
      (buf : Bytes) (n : ℕ) (r : Parsed p.State)
      → n ≤ length buf
      → Accounts (drop n buf) r
      → Accounts buf (add_written n r)
  unfolding add_written
  add_written-Accounts buf n fails h a = tt
  add_written-Accounts buf n (parsed s m f) h (fits, full, gone) =
      (omega (arith, length-drop n buf), λ e. omega (arith, length-drop n buf, full e), gone)

  go_on-Accounts :
      (again : Bytes → Parsed p.State) (s : p.State) (buf : Bytes) (n : ℕ)
      → ((b : Bytes) → Accounts b (again b))
      → n ≤ length buf
      → Accounts buf (go_on p again s buf n)
  unfolding go_on
  go_on-Accounts again s buf n ih h = elim (Bool-cases (n == length buf)) [
    | inl e ↦ rw e (h, λ _. (==_iff n (length buf)).0 e, λ bad. cc bad)
    | inr e ↦ rw e (add_written-Accounts buf n (again (drop n buf)) h (ih (drop n buf)))
  ]

  change-Accounts :
      (again : p.State → Bytes → Parsed p.State) (next : Option p.State) (buf : Bytes) (n : ℕ)
      → ((s : p.State) (b : Bytes) → Accounts b (again s b))
      → n ≤ length buf
      → Accounts buf (change p again next buf n)
  unfolding change
  change-Accounts again none buf n ih h = tt
  change-Accounts again (some s) buf n ih h = elim (Bool-cases (p.has_parser s)) [
    | inl e ↦ rw (e, change) (go_on-Accounts (again s) s buf n (ih s) h)
    | inr e ↦ rw (e, change) (h, λ bad. cc bad, λ _. e)
  ]

  continue-Accounts :
      (again : p.State → Bytes → Parsed p.State) (f : Feed p.State) (buf : Bytes)
      → ((s : p.State) (b : Bytes) → Accounts b (again s b))
      → Takes buf f
      → Accounts buf (continue p again f buf)
  unfolding continue
  continue-Accounts again refused buf ih h = tt
  continue-Accounts again (fed s n parse_error) buf ih h = tt
  continue-Accounts again (fed s n get_more_data) buf ih h =
      go_on-Accounts (again s) s buf n (ih s) h
  continue-Accounts again (fed s n goto_next_subparser) buf ih h =
      change-Accounts again (p.change_to_next_parser s) buf n ih h

  -- Where no sub-parser reports more bytes than it was given, a call of `parseData` that does not fail
  -- has taken all bytes of the buffer, unless it reports the end of the protocol; then there is no
  -- parser any more, and it has taken no more than the buffer.
  pub parse_data-Accounts :
      (ttl : ℕ) (s : p.State) (buf : Bytes) → IsHonest → Accounts buf (parse_data p ttl s buf)
  unfolding parse_data
  parse_data-Accounts zero s buf h = tt
  parse_data-Accounts (suc ttl) s buf h = elim (Bool-cases (p.has_parser s)) [
    | inl e ↦
        rw (e, parse_data)
          (continue-Accounts (parse_data p ttl) (p.write_into_parser s buf) buf
            (λ t b. parse_data-Accounts ttl t b h) (h s buf))
    | inr e ↦
        rw (e, parse_data)
          (elim (Bool-cases (length buf == 0)) [
            | inl empty ↦ rw empty tt
            | inr more ↦ rw more (
                add_written-Accounts buf 0 (parse_data p ttl s buf) (omega arith)
                  (parse_data-Accounts ttl s buf h))
          ])
  ]

  -- A parser that takes a byte at least of what is not empty and never fails.
  abbrev Proceeds : Bytes → Feed p.State → Type 0
  Proceeds buf refused = ⊥
  Proceeds buf (fed s n parse_error) = ⊥
  Proceeds buf (fed s n get_more_data) =
      (n ≤ length buf) × (0 < length buf → 0 < n) × (p.has_parser s ≡ true)
  Proceeds buf (fed s n goto_next_subparser) =
      (n ≤ length buf) × (0 < length buf → 0 < n) × (p.change_to_next_parser s ≢ none)

  abbrev pub IsEager : Type 0
  IsEager =
      (s : p.State) (buf : Bytes) → p.has_parser s ≡ true → Proceeds buf (p.write_into_parser s buf)

  abbrev pub IsParsed : Parsed p.State → Type 0
  IsParsed fails = ⊥
  IsParsed (parsed s n finished) = Unit

  add_written-IsParsed : (n : ℕ) (r : Parsed p.State) → IsParsed r → IsParsed (add_written n r)
  unfolding add_written
  add_written-IsParsed n fails h = h
  add_written-IsParsed n (parsed s m f) h = tt

  go_on-IsParsed :
      (again : Bytes → Parsed p.State) (s : p.State) (buf : Bytes) (n : ℕ)
      → (n ≢ length buf → IsParsed (again (drop n buf)))
      → IsParsed (go_on p again s buf n)
  unfolding go_on
  go_on-IsParsed again s buf n ih = elim (Bool-cases (n == length buf)) [
    | inl e ↦ rw e tt
    | inr e ↦ rw e (
        add_written-IsParsed n (again (drop n buf))
          (ih (λ same. ground (arith, e, (==_iff n (length buf)).1 same))))
  ]

  change-IsParsed :
      (again : p.State → Bytes → Parsed p.State) (next : Option p.State) (buf : Bytes) (n : ℕ)
      → next ≢ none
      → ((s : p.State) → p.has_parser s ≡ true → n ≢ length buf → IsParsed (again s (drop n buf)))
      → IsParsed (change p again next buf n)
  unfolding change
  change-IsParsed again none buf n there ih = absurd (there refl)
  change-IsParsed again (some s) buf n there ih = elim (Bool-cases (p.has_parser s)) [
    | inl e ↦ rw (e, change) (go_on-IsParsed (again s) s buf n (ih s e))
    | inr e ↦ rw (e, change) tt
  ]

  continue-IsParsed :
      (again : p.State → Bytes → Parsed p.State) (f : Feed p.State) (buf : Bytes)
      → Proceeds buf f
      → ((s : p.State) (n : ℕ)
          → p.has_parser s ≡ true
          → n ≤ length buf
          → (0 < length buf → 0 < n)
          → n ≢ length buf
          → IsParsed (again s (drop n buf)))
      → IsParsed (continue p again f buf)
  unfolding continue
  continue-IsParsed again refused buf h ih = h
  continue-IsParsed again (fed s n parse_error) buf h ih = h
  continue-IsParsed again (fed s n get_more_data) buf (fits, pos, there) ih =
      go_on-IsParsed (again s) s buf n (ih s n there fits pos)
  continue-IsParsed again (fed s n goto_next_subparser) buf (fits, pos, there) ih =
      change-IsParsed again (p.change_to_next_parser s) buf n there (λ t e. ih t n e fits pos)

  parse_data-IsParsed :
      (ttl : ℕ) (s : p.State) (buf : Bytes)
      → IsEager
      → p.has_parser s ≡ true
      → length buf ≤ ttl
      → IsParsed (parse_data p (suc ttl) s buf)
  unfolding parse_data
  parse_data-IsParsed zero s buf eager e h =
      rw (e, parse_data)
        (continue-IsParsed (parse_data p zero) (p.write_into_parser s buf) buf (eager s buf e)
          (λ t n there fits pos ne. absurd (ne (omega arith))))
  parse_data-IsParsed (suc ttl) s buf eager e h =
      rw (e, parse_data)
        (continue-IsParsed (parse_data p (suc ttl)) (p.write_into_parser s buf) buf (eager s buf e)
          (λ t n there fits pos ne.
            parse_data-IsParsed ttl t (drop n buf) eager there (shorter n ttl buf h fits pos ne)))

  write-some :
      (max_ttl : ℕ) (s : p.State) (buf : Bytes)
      → IsParsed (parse_data p (suc max_ttl) s buf)
      → (r : p.State × ℕ × Bool) × (write p max_ttl s buf ≡ some r)
  unfolding write
  write-some max_ttl s buf h = of_parsed (parse_data p (suc max_ttl) s buf) refl h
    where
      of_parsed :
          (r : Parsed p.State)
          → parse_data p (suc max_ttl) s buf ≡ r
          → IsParsed r
          → (w : p.State × ℕ × Bool) × (write p max_ttl s buf ≡ some w)
      of_parsed fails e h = absurd h
      of_parsed (parsed t n f) e h = ((t, n, f), rw (e, write) refl)

  -- Where there is a current parser, and every parser takes a byte at least of what is not empty,
  -- reports no error and has a parser after it or the end, `write` does not fail for a buffer of at
  -- most `maxTTL` bytes.
  pub write-IsParsed :
      (max_ttl : ℕ) (s : p.State) (buf : Bytes)
      → IsEager
      → p.has_parser s ≡ true
      → length buf ≤ max_ttl
      → (r : p.State × ℕ × Bool) × (write p max_ttl s buf ≡ some r)
  write-IsParsed max_ttl s buf eager there fits =
      write-some max_ttl s buf (parse_data-IsParsed max_ttl s buf eager there fits)
