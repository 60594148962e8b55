-- ===== src/JsonExpr/Expression.antt =====
-- jsonexpreval.cpp: what `evaluate` makes of an expression.
use cx_framework.Base.{ℕ, zero, suc, Bool, true, false, List, [], ◌∷◌, Bytes, Option, some, none}
use mathlib.Core.Option
use cx_framework.JsonExpr.{Json, Boost}
use cx_framework.JsonExpr.Atomic.{Atomic, calc_negative, evaluate_atomic}

pub data EvalMode : Type 0 where
  eval_and : EvalMode
  eval_or : EvalMode
  eval_undefined : EvalMode

-- An element of `atomExpressions`: an atomic expression, or the index of a sub-expression.
pub data Part : Type 0 where
  atom : Atomic → Part
  sub : ℕ → Part

-- `evalMode` is not initialised where `compile` fails before it sets it: it is then any of the three,
-- of which `eval_undefined` also stands for what is no value of the enumeration.
mutual
  -- The mode, whether it is negative, its parts, and its sub-expressions.
  pub data Expression : Type 0 where
    expression : EvalMode → Bool → List Part → Expressions → Expression

  pub data Expressions : Type 0 where
    no_more : Expressions
    more : Expression → Expressions → Expressions

-- A part's value decides, or the rest does; an exception ends the loop.
abbrev pub and_rest : Option Bool → Option Bool → Option Bool
and_rest none rest = none
and_rest (some true) rest = rest
and_rest (some false) rest = some false

abbrev pub or_rest : Option Bool → Option Bool → Option Bool
or_rest none rest = none
or_rest (some true) rest = some true
or_rest (some false) rest = rest

module _ (json : Json) (boost : Boost) (texts : List Bytes) where
  -- `compile` has seen that an index is one of a sub-expression.
  unfoldable pub value_at : List (Option Bool) → ℕ → Option Bool
  value_at [] i = some false
  value_at (r ∷ rs) zero = r
  value_at (r ∷ rs) (suc i) = value_at rs i

  unfoldable pub part_value : json.Value → List (Option Bool) → Part → Option Bool
  part_value v subs (atom a) = evaluate_atomic json boost texts a v
  part_value v subs (sub i) = value_at subs i

  -- The loops, which stop at the first false part and at the first true one.
  unfoldable pub all_parts : json.Value → List (Option Bool) → List Part → Option Bool
  all_parts v subs [] = some true
  all_parts v subs (p ∷ ps) = and_rest (part_value v subs p) (all_parts v subs ps)

  unfoldable pub some_part : json.Value → List (Option Bool) → List Part → Option Bool
  some_part v subs [] = some false
  some_part v subs (p ∷ ps) = or_rest (part_value v subs p) (some_part v subs ps)

  unfoldable pub by_mode :
      EvalMode → Bool → json.Value → List (Option Bool) → List Part → Option Bool
  by_mode eval_and negative v subs parts =
      Option.map (calc_negative negative) (all_parts v subs parts)
  by_mode eval_or negative v subs parts =
      Option.map (calc_negative negative) (some_part v subs parts)
  by_mode eval_undefined negative v subs parts = some false

  -- `evaluate`; none where it throws. A sub-expression counts only where its part is reached.
  unfoldable mutual
    pub evaluate : Expression → json.Value → Option Bool
    evaluate (expression mode negative parts subs) v =
        by_mode mode negative v (evaluate_subs subs v) parts

    pub evaluate_subs : Expressions → json.Value → List (Option Bool)
    evaluate_subs no_more v = []
    evaluate_subs (more e es) v = evaluate e v ∷ evaluate_subs es v
