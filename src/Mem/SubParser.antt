-- ===== src/Mem/SubParser.antt =====
-- cxMem/libcx_mem_streamparser/src/substreamparser.cpp: `SubStreamParser`, which collects the bytes of
-- a stream until a mode says that they are one element, and hands them to the subclass's `parse`. The
-- bytes are kept in a container of chunks.
pub mod Handed
pub mod Modes
pub mod Sized
mod Tests
use cx_framework.Base.{
  ℕ, zero, suc, ◌+◌, ◌-◌, ◌%◌, ◌^◌, Bool, true, false, not, ◌&&◌, ◌||◌, Option, none, some, List,
  [], ◌∷◌, Bytes, length, take, drop, ltb, ◌==◌, if◌then◌else◌, bytes_eq,
}
use cx_framework.Mem.Search.{Found, found, missing, invalid, find, find_any}
use cx_framework.Mem.Chunks.{Chunk, Container, Outcome, done, to_files, no_fuel, add}
use cx_framework.Mem.Chunks.Content.{content}
use cx_framework.Mem.Chunks.Lookup.{backend}
use cx_framework.Mem.Strings.{all_bytes, copy_out}
use cx_framework.Mem.StreamParser.{ParseStatus, parse_error, get_more_data, goto_next_subparser}

-- `ParseMode`.
pub data ParseMode : Type 0 where
  mode_delimiter mode_size mode_validator mode_connection_end mode_direct : ParseMode
  mode_direct_delimiter mode_multidelimiter mode_freeparser : ParseMode

-- The members of `SubStreamParser` and, as `sub`, those of the subclass. Of `parsedBuffer`, which
-- refers to `unparsedBuffer`, `parse` gets the bytes.
pub record Parser (S : Type 0) : Type 0 where
  pub sub : S
  pub stream_ended : Bool
  pub unparsed : Container
  pub parse_delimiter : Bytes
  pub delimiter_found : Bytes
  pub parse_multi_delimiter : List Bytes
  pub parse_mode : ParseMode
  pub parse_status : ParseStatus
  pub left_to_parse : ℕ

-- The pair that a write returns, with the parser; or a case that is not modelled: the container went
-- over to files, or a search read outside of its memory.
pub data Written (S : Type 0) : Type 0 where
  written : Parser S → Bool → ℕ → Written S
  outside : Written S

-- `clear` of the container.
pub clear : Container → Container
clear c = record c { chunks = []; container_bytes = 0 }

-- `a - b` on 64 bits.
sub64 : ℕ → ℕ → ℕ
sub64 a b = (a + 2 ^ 64 - b) % 2 ^ 64

-- `setParseDataTargetSize` and `setParseMode`.
pub set_parse_data_target_size : {S : Type 0} → ℕ → Parser S → Parser S
set_parse_data_target_size value p = record p {
  left_to_parse = value;
  unparsed = record (p.unparsed) { max_size = value };
}

pub set_parse_mode : {S : Type 0} → ParseMode → Parser S → Parser S
unfolding set_parse_data_target_size
set_parse_mode mode_direct p = record (set_parse_data_target_size all_bytes p) {
  parse_mode = mode_direct;
}
set_parse_mode mode p = record p { parse_mode = mode }

-- `getLastBytesInCommon`: how many of the last bytes, `v` at most, start the boundary. With `v` 0
-- nothing is compared, so that the loop ends there at the latest.
common_loop : ℕ → Bytes → Container → ℕ
common_loop zero boundary c = 0
common_loop (suc v) boundary c =
    let shorter = common_loop v boundary c in
    if bytes_eq (copy_out (suc v) (c.container_bytes - suc v) (backend c)).1 (take (suc v) boundary)
    then suc v
    else shorter

pub get_last_bytes_in_common : Bytes → Container → ℕ
unfolding common_loop
get_last_bytes_in_common boundary c =
    let longest = sub64 (length boundary) 1 in
    common_loop (if ltb longest c.container_bytes then longest else c.container_bytes) boundary c

-- The virtual `parse` of the subclass, which may also change the parser, on the parsed bytes.
module _ {S : Type 0} (parse : Parser S → Bytes → Parser S × ParseStatus) where
  -- `setParseStatus(parse())`.
  parsed : Parser S → Bytes → Parser S
  parsed p bytes = let (p', status) = parse p bytes in record p' { parse_status = status }

  -- The same with `unparsedBuffer.clear()` behind it.
  pub parsed_and_cleared : Parser S → Bytes → Parser S
  unfolding parsed clear
  parsed_and_cleared p bytes =
      let p' = parsed p bytes in record p' { unparsed = clear (p'.unparsed) }

  -- `parseBySize` behind the append of `n` bytes.
  sized : Parser S → ℕ → Outcome → Written S
  unfolding parsed_and_cleared
  sized p n to_files = outside
  sized p n no_fuel = outside
  sized p n (done c false m) = written (record p { unparsed = c }) false m
  sized p n (done c true m) =
      let left = p.left_to_parse - n in
      let p' = record p { unparsed = c; left_to_parse = left } in
      if not (m == n)
      then written (record p { unparsed = c }) false m
      else if left == 0
      then written (parsed_and_cleared p' (content c.chunks)) true n
      else written p' true n

  pub parse_by_size : Bytes → Parser S → Written S
  unfolding sized clear
  parse_by_size [] p =
      written
        (record p {
          stream_ended = true;
          parse_status = goto_next_subparser;
          unparsed = clear (p.unparsed);
        })
        true 0
  parse_by_size (x ∷ buf) p =
      let count = length (x ∷ buf) in
      let n = if ltb p.left_to_parse count then p.left_to_parse else count in
      sized p n (add false (take n (x ∷ buf)) p.unparsed)
