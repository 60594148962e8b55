-- ===== src/Mem/StreamParser.antt =====
-- cxMem/libcx_mem_streamparser/src/streamparser.cpp: how `StreamParser` hands the bytes of a stream to
-- the parsers of a protocol's elements. The protocol, a subclass with its sub-parsers, is a record.
pub mod Progress
mod Tests
use cx_framework.Base.{
  ℕ, zero, suc, ◌+◌, Bool, true, false, not, Option, none, some, List, [], ◌∷◌, Bytes, length, drop,
  ◌==◌, if◌then◌else◌,
}

-- `ParseStatus`.
pub data ParseStatus : Type 0 where
  parse_error get_more_data goto_next_subparser : ParseStatus

-- What `writeIntoParser` came to: a failure, or the bytes that it took and the status that it left.
pub data Feed (S : Type 0) : Type 0 where
  refused : Feed S
  fed : S → ℕ → ParseStatus → Feed S

-- A protocol in some state: whether `currentParser` is not null, `writeIntoParser` of the current
-- parser, and `changeToNextParser`, of which `none` is `false`.
pub record Protocol : Type 1 where
  pub State : Type 0
  pub has_parser : State → Bool
  pub write_into_parser : State → Bytes → Feed State
  pub change_to_next_parser : State → Option State

-- What `parseData` came to: a failure, or the state, the bytes taken and `*finished`.
pub data Parsed (S : Type 0) : Type 0 where
  fails : Parsed S
  parsed : S → ℕ → Bool → Parsed S

-- `make_pair(true, x.second + writtenBytes.second)`, for a recursive call that did not fail.
pub add_written : {S : Type 0} → ℕ → Parsed S → Parsed S
add_written n fails = fails
add_written n (parsed s m finished) = parsed s (m + n) finished

module _ (p : Protocol) where
  -- The rest of a call that took `n` bytes, with the call for the bytes that are left.
  go_on : (Bytes → Parsed p.State) → p.State → Bytes → ℕ → Parsed p.State
  unfolding add_written
  go_on again s buf n =
      let rest = add_written n (again (drop n buf)) in
      if n == length buf then parsed s n false else rest

  -- `case PARSE_STAT_GOTO_NEXT_SUBPARSER`.
  change : (p.State → Bytes → Parsed p.State) → Option p.State → Bytes → ℕ → Parsed p.State
  unfolding go_on
  change again none buf n = fails
  change again (some s) buf n = elim (p.has_parser s) [
    | false ↦ parsed s n true
    | true ↦ go_on (again s) s buf n
  ]

  -- The `switch` on the status.
  continue : (p.State → Bytes → Parsed p.State) → Feed p.State → Bytes → Parsed p.State
  unfolding go_on change
  continue again refused buf = fails
  continue again (fed s n parse_error) buf = fails
  continue again (fed s n get_more_data) buf = go_on (again s) s buf n
  continue again (fed s n goto_next_subparser) buf = change again (p.change_to_next_parser s) buf n

  -- `parseData`, with how often it may still be called: `maxTTL + 1 - *ttl` times. With no parser
  -- `writtenBytes` stays (false, 0), and the call repeats itself for the same bytes.
  pub parse_data : ℕ → p.State → Bytes → Parsed p.State
  unfolding continue add_written
  parse_data zero s buf = fails
  parse_data (suc ttl) s buf = elim (p.has_parser s) [
    | true ↦ continue (parse_data ttl) (p.write_into_parser s buf) buf
    | false ↦
        let again = add_written 0 (parse_data ttl s buf) in if length buf == 0 then fails else again
  ]

  -- `write`: `none` sets the failed state; and `writeEOF`, whose result is dropped.
  pub write : ℕ → p.State → Bytes → Option (p.State × ℕ × Bool)
  write max_ttl s buf = elim (parse_data (suc max_ttl) s buf) [
    | fails ↦ none
    | parsed s' n finished ↦ some (s', n, finished)
  ]
