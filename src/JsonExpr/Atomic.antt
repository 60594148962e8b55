-- ===== src/JsonExpr/Atomic.antt =====
-- atomicexpression.cpp: a test of two sides.
use cx_framework.Base.{
  Bool, true, false, not, Option, none, some, List, [], ◌∷◌, ◌++◌, Bytes, bytes_eq, drop, codes,
  if◌then◌else◌, ◌>>=◌,
}
use mathlib.Core.Option
use cx_framework.JsonExpr.{Json, Boost, some_of}
use cx_framework.JsonExpr.Side.{Mode, undefined, Side, calc_mode, set_expr, resolve, regexp}

pub data Operator : Type 0 where
  contains : Operator
  regex_match : Operator
  is_equal : Operator
  starts_with : Operator
  ends_with : Operator
  is_null : Operator
  no_operator : Operator

pub record Atomic : Type 0 where
  pub left : Side
  pub right : Side
  pub operator : Operator
  pub negative : Bool
  pub ignore_case : Bool

unfoldable pub calc_negative : Bool → Bool → Bool
calc_negative negative r = if negative then not r else r

abbrev pub is_regex : Operator → Bool
is_regex regex_match = true
is_regex _ = false

-- A pattern `^NAME\((?<LEFT_EXPR>[^,]+),(?<RIGHT_EXPR>[^\)]+)\)$`.
abbrev two_sides : Bytes → Bytes
two_sides name = codes "^" ++ name ++ codes "\\((?<LEFT_EXPR>[^,]+),(?<RIGHT_EXPR>[^\\)]+)\\)$"

-- The patterns in the order in which they are tried.
abbrev pub patterns : List (Bytes × Operator)
patterns =
    (two_sides (codes "IS_EQUAL"), is_equal)
    ∷ (two_sides (codes "REGEX_MATCH"), regex_match)
    ∷ (two_sides (codes "CONTAINS"), contains)
    ∷ (two_sides (codes "STARTS_WITH"), starts_with)
    ∷ (two_sides (codes "ENDS_WITH"), ends_with)
    ∷ (codes "^IS_NULL\\((?<RIGHT_EXPR>[^\\)]+)\\)$", is_null)
    ∷ []

-- An expression that is compiled, one that is not, and an exception of `std::stoul`.
pub data Compiled : Type 0 where
  compiled : Operator → Side → Side → Compiled
  failed : Compiled
  thrown : Compiled

module _ (json : Json) (boost : Boost) (texts : List Bytes) where
  right_expr : Operator → Bytes → Bytes
  right_expr is_null second = []
  right_expr _ second = set_expr boost second

  sides : Operator → Bytes → Option Mode → Bytes → Option Mode → Compiled
  sides op l none r right = thrown
  sides op l (some undefined) r right = failed
  sides op l (some left) r none = thrown
  sides op l (some left) r (some undefined) = failed
  sides op l (some left) r (some right) =
      compiled op (record { expr = l; mode = left }) (record { expr = r; mode = right })

  -- `substractExpressions`, behind its match.
  substract_expressions : Operator → Bytes → Bytes → Compiled
  unfolding sides right_expr
  substract_expressions op first second =
      let l = set_expr boost first in
      let r = right_expr op second in
      sides op l (calc_mode boost texts l) r (calc_mode boost texts r)

  -- One that did not match, or whose sides are not understood, goes on to the next pattern.
  or_next : Compiled → Compiled → Compiled
  or_next failed next = next
  or_next c next = c

  attempt : Operator → Option (Bytes × Bytes) → Compiled
  unfolding substract_expressions
  attempt op none = failed
  attempt op (some (first, second)) = substract_expressions op first second

  compile_with : List (Bytes × Operator) → Bytes → Compiled
  unfolding attempt or_next
  compile_with [] expr = failed
  compile_with ((pattern_text, op) ∷ rest) expr =
      or_next (attempt op (boost.search pattern_text expr)) (compile_with rest expr)

  -- `if (boost::starts_with(expr,prefix)) { flag=true; expr = expr.substr(1); }`.
  flagged : Bytes → Bytes → Bool × Bytes
  flagged prefix expr =
      if boost.starts_with false expr prefix then (true, drop 1 expr) else (false, expr)

  atomic_of : Bool → Bool → Compiled → Option (Option Atomic)
  atomic_of negative ignore_case (compiled op left right) = some (
      some (record {
        left = left;
        right = right;
        operator = op;
        negative = negative;
        ignore_case = ignore_case;
      }))
  atomic_of negative ignore_case failed = some none
  atomic_of negative ignore_case thrown = none

  -- `compile`: none where it throws, some none where it returns false.
  pub compile : Bytes → Option (Option Atomic)
  unfolding flagged compile_with atomic_of
  compile expr =
      let (negative, expr₁) = flagged (codes "!") expr in
      let (ignore_case, expr₂) = flagged (codes "i") expr₁ in
      atomic_of negative ignore_case (compile_with patterns expr₂)

  -- A pair of texts that has a property, in two loops.
  unfoldable pub some_pair : (Bytes → Bytes → Bool) → List Bytes → List Bytes → Bool
  some_pair test ls rs = some_of (λ l. some_of (λ r. test l r) rs) ls

  -- The loop of the matches, which stops at the first one.
  unfoldable pub some_match : Bool → Bytes → List Bytes → Option Bool
  some_match ignore_case r [] = some false
  some_match ignore_case r (l ∷ ls) =
      let rest = some_match ignore_case r ls in
      boost.matches ignore_case r l >>= λ m. if m then some true else rest

  unfoldable pub regex_matches : Bool → Option Bytes → List Bytes → Option Bool
  regex_matches ignore_case none ls = some false
  regex_matches ignore_case (some r) ls = some_match ignore_case r ls

  unfoldable pub equal : Bool → Bytes → Bytes → Bool
  equal ignore_case l r = if ignore_case then boost.equals true r l else bytes_eq r l

  unfoldable pub is_empty_set : List Bytes → Bool
  is_empty_set [] = true
  is_empty_set (l ∷ ls) = false

  -- The switch of `evaluate`, before the negation.
  unfoldable pub holds : Operator → Bool → Option Bytes → List Bytes → List Bytes → Option Bool
  holds contains ignore_case regex ls rs = some (some_pair (boost.contains ignore_case) ls rs)
  holds regex_match ignore_case regex ls rs = regex_matches ignore_case regex ls
  holds is_equal ignore_case regex ls rs =
      some (some_of (λ r. some_of (λ l. equal ignore_case l r) ls) rs)
  holds starts_with ignore_case regex ls rs = some (some_pair (boost.starts_with ignore_case) ls rs)
  holds ends_with ignore_case regex ls rs = some (some_pair (boost.ends_with ignore_case) ls rs)
  holds is_null ignore_case regex ls rs = some (is_empty_set ls)
  holds no_operator ignore_case regex ls rs = some false

  -- Behind the two calls of `resolve`.
  unfoldable pub evaluate_sides : Atomic → Option (List Bytes) → Option (List Bytes) → Option Bool
  evaluate_sides a none right = none
  evaluate_sides a (some ls) none = none
  evaluate_sides a (some ls) (some rs) =
      Option.map (calc_negative a.negative)
        (holds a.operator a.ignore_case (regexp texts a.right) ls rs)

  -- `evaluate`; none where it throws.
  unfoldable pub evaluate_atomic : Atomic → json.Value → Option Bool
  unfolding evaluate_sides
  evaluate_atomic a v =
      evaluate_sides a (resolve json boost texts a.left v (is_regex a.operator) a.ignore_case)
        (resolve json boost texts a.right v (is_regex a.operator) a.ignore_case)
