-- ===== src/JsonExpr/Exceptions.antt =====
-- atomicexpressionside.cpp, atomicexpression.cpp and jsonexpreval.cpp: where `evaluate` may throw.
use cx_framework.Base.{
  ℕ, zero, suc, ◌==◌, Bool, true, false, not, ◌&&◌, Option, none, some, List, [], ◌∷◌, Bytes, drop,
  ◌≡◌, ◌>>=◌, if◌then◌else◌,
}
use mathlib.Core.Option
use cx_framework.JsonExpr.{Json, Boost}
use cx_framework.JsonExpr.Side.{
  Mode, numeric, static_string, json_path, null, undefined, Side, items, only, literal, static_text,
  resolve, regexp,
}
use cx_framework.JsonExpr.Atomic.{
  Operator, contains, regex_match, is_equal, starts_with, ends_with, is_null, no_operator, Atomic,
  calc_negative, is_regex, some_match, regex_matches, holds, evaluate_sides, evaluate_atomic,
}
use cx_framework.JsonExpr.Expression.{
  EvalMode, eval_and, eval_or, eval_undefined, Part, atom, sub, Expression, expression, Expressions,
  no_more, more, and_rest, or_rest, value_at, part_value, all_parts, some_part, by_mode, evaluate,
  evaluate_subs,
}

abbrev pub Returns {ℓ} : {A : Type ℓ} → Option A → Type 0
Returns none = ⊥
Returns (some x) = Unit

then-Returns {ℓ ℓ'} :
    {A : Type ℓ} {B : Type ℓ'} (o : Option A) (f : A → Option B)
    → Returns o
    → ((x : A) → Returns (f x))
    → Returns (o >>= f)
then-Returns none f h k = h
then-Returns (some x) f h k = k x

map-Returns {ℓ ℓ'} :
    {A : Type ℓ} {B : Type ℓ'} (f : A → B) (o : Option A) → Returns o → Returns (Option.map f o)
map-Returns f none h = h
map-Returns f (some x) h = tt

if-Returns {ℓ} :
    {A : Type ℓ} (b : Bool) (x y : Option A) → Returns x → Returns y → Returns (if b then x else y)
if-Returns true x y h k = h
if-Returns false x y h k = k

and_rest-Returns : (o rest : Option Bool) → Returns o → Returns rest → Returns (and_rest o rest)
and_rest-Returns none rest h k = h
and_rest-Returns (some true) rest h k = k
and_rest-Returns (some false) rest h k = tt

or_rest-Returns : (o rest : Option Bool) → Returns o → Returns rest → Returns (or_rest o rest)
or_rest-Returns none rest h k = h
or_rest-Returns (some true) rest h k = tt
or_rest-Returns (some false) rest h k = k

-- No value is refused by `asString` or `operator[]`, and no text by the regular expressions.
abbrev pub NeverThrows : Json → Boost → Type 0
NeverThrows json boost =
    ((v : json.Value) → Returns (json.as_string v))
    × ((v : json.Value) (i : ℕ) → Returns (json.item v i))
    × ((ignore_case : Bool) (r : Bytes) → boost.is_pattern ignore_case r ≡ true)
    × ((ignore_case : Bool) (r t : Bytes) → Returns (boost.matches ignore_case r t))

module _ (json : Json) (boost : Boost) (texts : List Bytes) (never : NeverThrows json boost) where
  items-Returns : (v : json.Value) (n : ℕ) → Returns (items json v n)
  unfolding items
  items-Returns v zero = tt
  items-Returns v (suc n) = then-Returns (json.item v n) _ (never.1 v n) (λ x.
      then-Returns (json.as_string x) _ (never.0 x)
        (λ t. then-Returns (items json v n) _ (items-Returns v n) (λ xs. tt)))

  literal-Returns :
      (ignore_case resolve_regex : Bool) (t : Bytes)
      → Returns (literal boost ignore_case resolve_regex t)
  unfolding literal
  literal-Returns ignore_case false t = tt
  literal-Returns ignore_case true t =
      by_pattern (boost.is_pattern ignore_case t) (never.2 ignore_case t)
    where
      by_pattern : (b : Bool) → b ≡ true → Returns {A = List Bytes} (if b then some [] else none)
      by_pattern true h = tt
      by_pattern false h = absurd (cc h)

  resolve-Returns :
      (side : Side) (v : json.Value) (resolve_regex ignore_case : Bool)
      → Returns (resolve json boost texts side v resolve_regex ignore_case)
  unfolding resolve
  resolve-Returns side v resolve_regex ignore_case = of_mode side.mode
    where
      of_mode :
          (m : Mode)
          → Returns (
              resolve json boost texts
                (record { expr = side.expr; mode = m })
                v
                resolve_regex
                ignore_case)
      of_mode numeric = literal-Returns ignore_case resolve_regex side.expr
      of_mode static_string =
          literal-Returns ignore_case resolve_regex (static_text texts side.expr)
      of_mode json_path =
          let result = json.resolve (drop 1 side.expr) v in
          if-Returns (json.size result == 0 && not (json.is_null result))
            (json.as_string result >>= only) (items json result (json.size result))
            (then-Returns (json.as_string result) only (never.0 result) (λ t. tt))
            (items-Returns result (json.size result))
      of_mode null = tt
      of_mode undefined = tt

  some_match-Returns :
      (i : Bool) (r : Bytes) (ls : List Bytes) → Returns (some_match json boost texts i r ls)
  unfolding some_match
  some_match-Returns i r [] = tt
  some_match-Returns i r (l ∷ ls) = then-Returns (boost.matches i r l) _ (never.3 i r l) (λ m.
      if-Returns m (some true) (some_match json boost texts i r ls) tt (some_match-Returns i r ls))

  regex_matches-Returns :
      (i : Bool) (regex : Option Bytes) (ls : List Bytes)
      → Returns (regex_matches json boost texts i regex ls)
  unfolding regex_matches
  regex_matches-Returns i none ls = tt
  regex_matches-Returns i (some r) ls = some_match-Returns i r ls

  holds-Returns :
      (op : Operator) (i : Bool) (regex : Option Bytes) (ls rs : List Bytes)
      → Returns (holds json boost texts op i regex ls rs)
  unfolding holds
  holds-Returns contains i regex ls rs = tt
  holds-Returns regex_match i regex ls rs = regex_matches-Returns i regex ls
  holds-Returns is_equal i regex ls rs = tt
  holds-Returns starts_with i regex ls rs = tt
  holds-Returns ends_with i regex ls rs = tt
  holds-Returns is_null i regex ls rs = tt
  holds-Returns no_operator i regex ls rs = tt

  evaluate_sides-Returns :
      (a : Atomic) (left right : Option (List Bytes))
      → Returns left
      → Returns right
      → Returns (evaluate_sides json boost texts a left right)
  unfolding evaluate_sides
  evaluate_sides-Returns a none right h k = h
  evaluate_sides-Returns a (some ls) none h k = k
  evaluate_sides-Returns a (some ls) (some rs) h k =
      map-Returns (calc_negative a.negative)
        (holds json boost texts a.operator a.ignore_case (regexp texts a.right) ls rs)
        (holds-Returns a.operator a.ignore_case (regexp texts a.right) ls rs)

  evaluate_atomic-Returns :
      (a : Atomic) (v : json.Value) → Returns (evaluate_atomic json boost texts a v)
  unfolding evaluate_atomic
  evaluate_atomic-Returns a v =
      evaluate_sides-Returns a
        (resolve json boost texts a.left v (is_regex a.operator) a.ignore_case)
        (resolve json boost texts a.right v (is_regex a.operator) a.ignore_case)
        (resolve-Returns a.left v (is_regex a.operator) a.ignore_case)
        (resolve-Returns a.right v (is_regex a.operator) a.ignore_case)

  module _ (v : json.Value) (rs : List (Option Bool))
      (subs : (i : ℕ) → Returns (value_at json boost texts rs i)) where
    part_value-Returns : (p : Part) → Returns (part_value json boost texts v rs p)
    unfolding part_value
    part_value-Returns (atom a) = evaluate_atomic-Returns a v
    part_value-Returns (sub i) = subs i

    all_parts-Returns : (ps : List Part) → Returns (all_parts json boost texts v rs ps)
    unfolding all_parts
    all_parts-Returns [] = tt
    all_parts-Returns (p ∷ ps) =
        and_rest-Returns (part_value json boost texts v rs p) (all_parts json boost texts v rs ps)
          (part_value-Returns p) (all_parts-Returns ps)

    some_part-Returns : (ps : List Part) → Returns (some_part json boost texts v rs ps)
    unfolding some_part
    some_part-Returns [] = tt
    some_part-Returns (p ∷ ps) =
        or_rest-Returns (part_value json boost texts v rs p) (some_part json boost texts v rs ps)
          (part_value-Returns p) (some_part-Returns ps)

    by_mode-Returns :
        (mode : EvalMode) (negative : Bool) (ps : List Part)
        → Returns (by_mode json boost texts mode negative v rs ps)
    unfolding by_mode
    by_mode-Returns eval_and negative ps =
        map-Returns (calc_negative negative) (all_parts json boost texts v rs ps)
          (all_parts-Returns ps)
    by_mode-Returns eval_or negative ps =
        map-Returns (calc_negative negative) (some_part json boost texts v rs ps)
          (some_part-Returns ps)
    by_mode-Returns eval_undefined negative ps = tt

  mutual
    unfolding evaluate evaluate_subs value_at

    pub evaluate-Returns :
        (e : Expression) (v : json.Value) → Returns (evaluate json boost texts e v)
    evaluate-Returns (expression mode negative parts subs) v =
        by_mode-Returns v (evaluate_subs json boost texts subs v) (λ i. subs-Returns subs v i) mode
          negative parts

    subs-Returns :
        (es : Expressions) (v : json.Value) (i : ℕ)
        → Returns (value_at json boost texts (evaluate_subs json boost texts es v) i)
    subs-Returns no_more v i = tt
    subs-Returns (more e es) v zero = evaluate-Returns e v
    subs-Returns (more e es) v (suc i) = subs-Returns es v i
