-- ===== src/Mem/SubParser/Modes.antt =====
-- substreamparser.cpp: the modes that look for a delimiter or for the end of the stream, and
-- `writeIntoParser`, which chooses the mode.
pub mod Delimited
use cx_framework.Base.{
  ℕ, zero, suc, ◌+◌, ◌-◌, Bool, true, false, not, ◌&&◌, ◌||◌, Option, none, some, List, [], ◌∷◌,
  Bytes, length, take, drop, ltb, ◌==◌, ◌%◌, ◌^◌, if◌then◌else◌,
}
use cx_framework.Mem.Search.{Found, found, missing, invalid, find, find_any}
use cx_framework.Mem.Chunks.{Container, Outcome, done, to_files, no_fuel, add}
use cx_framework.Mem.Chunks.Content.{content}
use cx_framework.Mem.Chunks.Lookup.{backend}
use cx_framework.Mem.Strings.{all_bytes}
use cx_framework.Mem.StreamParser.{ParseStatus}
use cx_framework.Mem.SubParser.{
  ParseMode, mode_delimiter, mode_size, mode_validator, mode_connection_end, mode_direct,
  mode_direct_delimiter, mode_multidelimiter, mode_freeparser, Parser, Written, written, outside,
  clear, sub64, get_last_bytes_in_common, parsed, parsed_and_cleared, parse_by_size,
}

-- `unparsedBuffer.append`, which is not called for an end of the stream by the modes that say so.
append_some : Bytes → Container → Outcome
append_some [] c = done c true 0
append_some (x ∷ buf) c = add false (x ∷ buf) c

module _ {S : Type 0} (parse : Parser S → Bytes → Parser S × ParseStatus) where
  -- What is not found yet is parsed at the end of the stream, and kept before it.
  not_found : Parser S → ℕ → Written S
  unfolding parsed_and_cleared
  not_found p n =
      if p.stream_ended
      then written (parsed_and_cleared parse p (content (p.unparsed.chunks))) true n
      else written p true n

  -- `parseByDelimiter` behind the append of `n` bytes to `prev_size` others, by what `find` returned.
  delimited : Parser S → ℕ → ℕ → Option Found → Written S
  unfolding parsed_and_cleared not_found sub64
  delimited p prev_size n none = outside
  delimited p prev_size n (some missing) = not_found p n
  delimited p prev_size n (some invalid) = not_found p n
  delimited p prev_size n (some (found pos)) =
      let p' = parsed_and_cleared parse p (take pos (content (p.unparsed.chunks))) in
      written p' true ((sub64 pos prev_size + length (p'.parse_delimiter)) % 2 ^ 64)

  -- `parseByMultiDelimiter`, likewise; `find` has set `delimiterFound` before.
  multi_delimited : Parser S → ℕ → ℕ → Option (Found × Bytes) → Written S
  unfolding parsed_and_cleared not_found sub64
  multi_delimited p prev_size n none = outside
  multi_delimited p prev_size n (some (missing, needle)) =
      not_found (record p { delimiter_found = needle }) n
  multi_delimited p prev_size n (some (invalid, needle)) =
      not_found (record p { delimiter_found = needle }) n
  multi_delimited p prev_size n (some (found pos, needle)) =
      let p' =
        parsed_and_cleared parse (record p { delimiter_found = needle })
          (take pos (content (p.unparsed.chunks))) in
      written p' true (sub64 ((pos + length (p'.delimiter_found)) % 2 ^ 64) prev_size)

  -- Both modes behind the append: nothing added, or a failure, is an error.
  appended : (Parser S → ℕ → Written S) → Parser S → Bool → Outcome → Written S
  unfolding clear
  appended search p ended to_files = outside
  appended search p ended no_fuel = outside
  appended search p ended (done c ok n) =
      if not ended && (n == 0 || not ok)
      then written (record p { unparsed = clear c }) false 0
      else search (record p { unparsed = c }) n

  -- The flag that an empty write sets.
  ending : Bytes → Parser S → Parser S
  ending buf p = record p { stream_ended = p.stream_ended || length buf == 0 }

  pub parse_by_delimiter : Bytes → Parser S → Written S
  unfolding append_some appended delimited ending
  parse_by_delimiter buf p =
      appended
        (λ p' n.
          delimited p' (p.unparsed.container_bytes) n
            (find (p'.parse_delimiter) true 0 0 (backend (p'.unparsed))))
        (ending buf p) (length buf == 0) (append_some buf p.unparsed)

  pub parse_by_multi_delimiter : Bytes → Parser S → Written S
  unfolding append_some appended multi_delimited ending
  parse_by_multi_delimiter buf p =
      appended
        (λ p' n.
          multi_delimited p' (p.unparsed.container_bytes) n
            (find_any (p'.parse_multi_delimiter) true 0 0 (backend (p'.unparsed))))
        (ending buf p) (length buf == 0) (append_some buf p.unparsed)

  -- `parseByConnectionEnd`, which leaves the parsed bytes in the container.
  to_the_end : Parser S → ℕ → Outcome → Written S
  unfolding parsed
  to_the_end p count to_files = outside
  to_the_end p count no_fuel = outside
  to_the_end p count (done c false n) = written (record p { unparsed = c }) false 0
  to_the_end p count (done c true n) =
      let p' = record p { unparsed = c } in
      if not (n == count)
      then written p' false n
      else if count == 0
      then written (parsed parse p' (content c.chunks)) true 0
      else written p' true count

  pub parse_by_connection_end : Bytes → Parser S → Written S
  unfolding to_the_end
  parse_by_connection_end buf p = to_the_end p (length buf) (add false buf p.unparsed)

  -- `parseDirect`, behind the append.
  direct : Parser S → Outcome → Written S
  unfolding parsed_and_cleared
  direct p to_files = outside
  direct p no_fuel = outside
  direct p (done c false n) = written (record p { unparsed = c }) false 0
  direct p (done c true n) =
      let left =
        if p.left_to_parse == all_bytes then p.left_to_parse else sub64 (p.left_to_parse) n in
      let p' =
        parsed_and_cleared parse (record p { unparsed = c; left_to_parse = left })
          (content c.chunks) in
      let reset = record p' { left_to_parse = p'.unparsed.max_size } in
      written (if p'.left_to_parse == 0 then reset else p') true n

  pub parse_direct : Bytes → Parser S → Written S
  unfolding direct
  parse_direct buf p =
      let count = length buf in
      let n =
        if p.left_to_parse == all_bytes || ltb count p.left_to_parse
        then count
        else p.left_to_parse in
      direct p (add false (take n buf) p.unparsed)

  -- `parseDirectDelimiter` where the delimiter is not found: `common` of the last bytes may start it.
  -- The result is the delimiter's size less that of the bytes before.
  direct_not_found : Parser S → ℕ → ℕ → ℕ → Written S
  unfolding parsed_and_cleared sub64
  direct_not_found p prev_size n common =
      let bytes = content (p.unparsed.chunks) in
      let p' =
        if common == all_bytes
        then parsed_and_cleared parse p bytes
        else if common == 0
        then p
        else parsed_and_cleared parse p (take (p.unparsed.container_bytes - common) bytes) in
      let left =
        if p'.left_to_parse == all_bytes then p'.left_to_parse else sub64 (p'.left_to_parse) n in
      written (record p' { left_to_parse = left }) true
        (sub64 (length (p'.parse_delimiter)) prev_size)

  -- And where it is found at `pos`.
  direct_found : Parser S → ℕ → ℕ → Written S
  unfolding parsed_and_cleared sub64
  direct_found p prev_size pos =
      let p' =
        parsed_and_cleared parse (record p { delimiter_found = p.parse_delimiter })
          (take pos (content (p.unparsed.chunks))) in
      let left = if p'.left_to_parse == all_bytes then p'.left_to_parse else p'.unparsed.max_size in
      written (record p' { left_to_parse = left }) true
        ((sub64 pos prev_size + length (p'.parse_delimiter)) % 2 ^ 64)

  direct_delimited : Parser S → ℕ → ℕ → Option Found → Written S
  unfolding direct_not_found direct_found get_last_bytes_in_common
  direct_delimited p prev_size n none = outside
  direct_delimited p prev_size n (some missing) =
      direct_not_found p prev_size n (get_last_bytes_in_common (p.parse_delimiter) (p.unparsed))
  direct_delimited p prev_size n (some invalid) =
      direct_not_found p prev_size n (get_last_bytes_in_common (p.parse_delimiter) (p.unparsed))
  direct_delimited p prev_size n (some (found pos)) = direct_found p prev_size pos

  -- `parseDirectDelimiter` behind the append.
  direct_appended : Parser S → ℕ → Outcome → Written S
  unfolding direct_delimited
  direct_appended p prev_size to_files = outside
  direct_appended p prev_size no_fuel = outside
  direct_appended p prev_size (done c false n) = written (record p { unparsed = c }) false 0
  direct_appended p prev_size (done c true n) =
      direct_delimited (record p { unparsed = c }) prev_size n
        (find (p.parse_delimiter) true 0 0 (backend c))

  pub parse_direct_delimiter : Bytes → Parser S → Written S
  unfolding direct_appended
  parse_direct_delimiter buf p' =
      let p = record p' { delimiter_found = [] } in
      let count = length buf in
      let n =
        if not (p.left_to_parse == all_bytes) && ltb p.left_to_parse count
        then p.left_to_parse
        else count in
      if not (count == 0) && p.left_to_parse == 0
      then written p false 0
      else direct_appended p (p.unparsed.container_bytes) (add false (take n buf) (p.unparsed))

  -- `parseByValidator` is not written yet, and always fails.
  dispatch : ParseMode → Bytes → Parser S → Written S
  dispatch mode_delimiter buf p = parse_by_delimiter buf p
  dispatch mode_size buf p = parse_by_size parse buf p
  dispatch mode_validator buf p = written p false 0
  dispatch mode_direct_delimiter buf p = parse_direct_delimiter buf p
  dispatch mode_connection_end buf p = parse_by_connection_end buf p
  dispatch mode_multidelimiter buf p = parse_by_multi_delimiter buf p
  dispatch mode_direct buf p = parse_direct buf p
  dispatch mode_freeparser buf p = written p false 0

  pub write_into_parser : Bytes → Parser S → Written S
  unfolding dispatch ending
  write_into_parser buf p = dispatch p.parse_mode buf (ending buf p)
