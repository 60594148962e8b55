-- ===== src/JsonExpr/Nesting.antt =====
-- jsonexpreval.cpp: `detectSubExpr`, which takes the first group of an expression out of it.
use cx_framework.Base.{
  ℕ, zero, suc, ◌+◌, ◌-◌, ◌/◌, ◌%◌, ◌==◌, ltb, leb, Bool, true, false, ◌&&◌, ◌||◌, Option, none,
  some, [], ◌∷◌, ◌++◌, Bytes, take, drop, get_elem?, codes, if◌then◌else◌,
}
use cx_framework.JsonExpr.{Boost}

-- The end of the text, a closing bracket too many, or the places of a group's two brackets.
pub data Scan : Type 0 where
  unclosed : Scan
  bad : Scan
  group : ℕ → ℕ → Scan

-- The loop at position `i`, with its `level` and `firstByte`.
unfoldable pub scan : Bytes → ℕ → ℕ → ℕ → Scan
scan [] i level first = unclosed
scan (c ∷ cs) i level first =
    let opened = scan cs (i + 1) (level + 1) (if level == 0 then i else first) in
    let closed = scan cs (i + 1) (level - 1) first in
    let on = scan cs (i + 1) level first in
    if c == b'('
    then opened
    else if c == b')'
    then if level == 0 then bad else if level == 1 then group first i else closed
    else on

unfoldable pub is_alnum : ℕ → Bool
is_alnum c =
    (leb b'0' c && leb c b'9') || ((leb b'A' c && leb c b'Z') || (leb b'a' c && leb c b'z'))

-- `expr.at(firstByte-1)`, where there is one.
unfoldable pub char_before : Bytes → ℕ → Option ℕ
char_before expr zero = none
char_before expr (suc i) = get_elem? expr i

-- The digits of a number of 64 bits; it has at most 20.
unfoldable pub decimal : ℕ → ℕ → Bytes
decimal zero n = []
decimal (suc fuel) n =
    let front = decimal fuel (n / 10) in
    if ltb n 10 then (b'0' + n) ∷ [] else front ++ (b'0' + n % 10) ∷ []

unfoldable pub subexpr_name : ℕ → Bytes
subexpr_name pos = codes "_SUBEXPR_" ++ decimal 20 pos

-- What `detectSubExpr` returns and does: the whole size, the size and one more, a place to go on from
-- behind a function's brackets, or a changed expression with the text and the sign of a sub-expression
-- that is compiled and appended.
pub data Detected : Type 0 where
  nothing_left : Detected
  unbalanced : Detected
  go_on : ℕ → Detected
  replaced : Bytes → Bytes → Bool → Detected

module _ (boost : Boost) where
  unfoldable pub negative_group : Bytes → ℕ → Bytes → Detected
  negative_group expr pos inner =
      replaced (boost.replace_first expr (codes "!(" ++ inner ++ codes ")") (subexpr_name pos))
        inner true

  unfoldable pub positive_group : Bytes → ℕ → Bytes → Detected
  positive_group expr pos inner =
      replaced (boost.replace_first expr (codes "(" ++ inner ++ codes ")") (subexpr_name pos)) inner
        false

  unfoldable pub take_group : Bytes → ℕ → Bytes → ℕ → Option ℕ → Detected
  take_group expr pos inner last none = positive_group expr pos inner
  take_group expr pos inner last (some c) =
      if is_alnum c
      then go_on (last + 1)
      else if c == b'!'
      then negative_group expr pos inner
      else positive_group expr pos inner

  unfoldable pub of_scan : Bytes → ℕ → Scan → Detected
  of_scan expr pos unclosed = nothing_left
  of_scan expr pos bad = unbalanced
  of_scan expr pos (group first last) =
      take_group expr pos (take (last - first - 1) (drop (first + 1) expr)) last
        (char_before expr first)

  -- `pos` is the number of sub-expressions there are.
  unfoldable pub detect_sub_expr : Bytes → ℕ → ℕ → Detected
  detect_sub_expr expr start pos = of_scan expr pos (scan (drop start expr) start 0 0)
