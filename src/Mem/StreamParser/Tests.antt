-- ===== src/Mem/StreamParser/Tests.antt =====
-- A protocol of two parsers, each of which takes two bytes at most and then gives way.
use cx_framework.Base.{ℕ, Bool, ◌-◌, true, ◌≡◌, refl, some, [], ◌∷◌, length, ltb, min, arith}
use cx_framework.Mem.StreamParser.{write, goto_next_subparser, fed, Protocol, parsed, parse_data}
use cx_framework.Mem.StreamParser.Progress.{
  IsHonest, Accounts, IsEager, parse_data-Accounts, write-IsParsed,
}

abbrev pairs : Protocol
pairs = record {
  State = ℕ;
  has_parser = λ s. ltb 0 s;
  write_into_parser = λ s buf. fed s (min 2 (length buf)) goto_next_subparser;
  change_to_next_parser = λ s. some (s - 1);
}

run : parse_data pairs 5 2 (1 ∷ 2 ∷ 3 ∷ 4 ∷ 5 ∷ []) ≡ parsed 0 4 true
unfolding parse_data
run = refl

pairs-IsHonest : IsHonest pairs
pairs-IsHonest s buf = omega arith

pairs-IsEager : IsEager pairs
pairs-IsEager s buf h = (omega arith, λ pos. omega arith, λ bad. cc bad)

parse_data-Accounts_example :
    Accounts pairs (1 ∷ 2 ∷ 3 ∷ []) (parse_data pairs 5 2 (1 ∷ 2 ∷ 3 ∷ []))
parse_data-Accounts_example = parse_data-Accounts pairs 5 2 (1 ∷ 2 ∷ 3 ∷ []) pairs-IsHonest

write-IsParsed_example : (r : pairs.State × ℕ × Bool) × (write pairs 3 2 (1 ∷ 2 ∷ 3 ∷ []) ≡ some r)
write-IsParsed_example = write-IsParsed pairs 3 2 (1 ∷ 2 ∷ 3 ∷ []) pairs-IsEager refl (omega arith)
