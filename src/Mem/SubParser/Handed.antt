-- ===== src/Mem/SubParser/Handed.antt =====
-- substreamparser.cpp: what `parse` is called with and what is kept behind the call, written out.
use cx_framework.Base.{[], Bytes, ◌≡◌, refl}
use cx_framework.Mem.StreamParser.{ParseStatus}
use cx_framework.Mem.SubParser.{Parser, clear, parsed, parsed_and_cleared}

module _ {S : Type 0} (parse : Parser S → Bytes → Parser S × ParseStatus) where
  -- The parser that `parse` leaves for these bytes, with the status that it returns and no bytes kept.
  abbrev pub handed : Parser S → Bytes → Parser S
  handed p bytes =
      let q = (parse p bytes).0 in
      record q {
        parse_status = (parse p bytes).1;
        unparsed = record (q.unparsed) { chunks = []; container_bytes = 0 };
      }

  pub parsed_and_cleared-handed :
      (p : Parser S) (bytes : Bytes) → parsed_and_cleared parse p bytes ≡ handed p bytes
  unfolding parsed_and_cleared parsed clear
  parsed_and_cleared-handed p bytes = refl
