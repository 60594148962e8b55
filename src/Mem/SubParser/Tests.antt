-- ===== src/Mem/SubParser/Tests.antt =====
-- A sub-parser that collects the elements that it is given.
use cx_framework.Base.{
  bytes_eq, ℕ, ◌+◌, ◌-◌, ◌≤◌, ◌<◌, true, false, ◌≡◌, inl, refl, none, some, List, [], ◌∷◌, ◌++◌,
  Bytes, length, take, arith,
}
use cx_framework.Mem.Chunks.{Container}
use cx_framework.Mem.Chunks.Content.{content, joined}
use cx_framework.Mem.Chunks.Room.{HasRoom}
use cx_framework.Mem.StreamParser.{ParseStatus, get_more_data, goto_next_subparser}
use cx_framework.Mem.SubParser.{Parser, mode_delimiter, written, parse_by_size}
use cx_framework.Mem.Search.{is_upper}
use cx_framework.Mem.Search.Occurrence.{first_occurrence}
use cx_framework.Mem.SubParser.Handed.{handed}
use cx_framework.Mem.SubParser.Sized.{write_all, parse_by_size-parts}
use cx_framework.Mem.SubParser.Modes.{parse_by_delimiter}
use cx_framework.Mem.SubParser.Modes.Delimited.{Delimits, parse_by_delimiter-Delimits}

abbrev collect : Parser (List Bytes) → Bytes → Parser (List Bytes) × ParseStatus
collect p bytes = (record p { sub = bytes ∷ p.sub }, goto_next_subparser)

abbrev buffer : Container
buffer = record {
  chunks = record { bytes = b'a' ∷ []; offset = 0 } ∷ [];
  container_bytes = 1;
  max_chunks = 100;
  max_chunk_size = 2;
  max_until_fs = 0;
  max_size = 100;
  read_only = false;
}

abbrev crlf : Bytes
crlf = 13 ∷ 10 ∷ []

abbrev start : Parser (List Bytes)
start = record {
  sub = [];
  stream_ended = false;
  unparsed = buffer;
  parse_delimiter = crlf;
  delimiter_found = [];
  parse_multi_delimiter = [];
  parse_mode = mode_delimiter;
  parse_status = get_more_data;
  left_to_parse = 5;
}

buffer-HasRoom : (n : ℕ) → n ≤ 50 → HasRoom buffer n
unfolding content
buffer-HasRoom n h = record {
  chunked = omega arith;
  writable = refl;
  counted = refl;
  small = omega arith;
  fits = omega arith;
  memory = inl refl;
  chunks_left = omega arith;
}

abbrev parts : List Bytes
parts = (b'b' ∷ b'c' ∷ []) ∷ (b'd' ∷ []) ∷ []

abbrev last_part : Bytes
last_part = b'e' ∷ b'f' ∷ b'g' ∷ []

parts-fewer : length (joined parts) < 5
unfolding joined
parts-fewer = omega arith

parts-reached : 5 ≤ length (joined parts) + length last_part
unfolding joined
parts-reached = omega arith

parse_by_size-parts_example :
    (q : Parser (List Bytes)) × (write_all collect parts start ≡ some q)
    × (c : Container) × (parse_by_size collect last_part q
        ≡ written
            (handed collect
              (record start { unparsed = c; left_to_parse = 0 })
              (content (start.unparsed.chunks) ++ take 5 (joined parts ++ last_part)))
            true
            (5 - length (joined parts)))
parse_by_size-parts_example =
    parse_by_size-parts collect parts last_part start (omega arith) parts-fewer parts-reached
      (buffer-HasRoom 5 (omega arith))

not_there : first_occurrence crlf (content buffer.chunks) ≡ none
unfolding first_occurrence content bytes_eq
not_there = refl

abbrev line : Bytes
line = b'b' ∷ 13 ∷ 10 ∷ b'c' ∷ []

no_letter : is_upper 13 ≡ false
unfolding is_upper
no_letter = refl

parse_by_delimiter-Delimits_example :
    Delimits collect crlf (content buffer.chunks) line start (parse_by_delimiter collect line start)
parse_by_delimiter-Delimits_example =
    parse_by_delimiter-Delimits collect 13 (10 ∷ []) b'b' (13 ∷ 10 ∷ b'c' ∷ []) start
      (λ p bytes. refl) refl refl no_letter (omega arith) (buffer-HasRoom 4 (omega arith)) not_there
