-- ===== src/JsonExpr/Tests.antt =====
-- The theorems on expressions at concrete ones, with a json value that is a list of texts.
use cx_framework.Base.{
  ◌+◌, ◌==◌, true, false, Option, none, some, List, [], ◌∷◌, ◌++◌, Bytes, bytes_eq, length,
  get_elem?, codes, ◌≡◌, arith,
}
use cx_framework.JsonExpr.{Json, Boost}
use cx_framework.JsonExpr.Side.{numeric, json_path, null}
use cx_framework.JsonExpr.Atomic.{Atomic, is_equal, is_null}
use cx_framework.JsonExpr.Expression.{
  Expression, expression, no_more, more, eval_and, eval_or, atom, sub,
}
use cx_framework.JsonExpr.Nesting.{detect_sub_expr, unbalanced, nothing_left}
use cx_framework.JsonExpr.Groups.{Balanced, nothing, plain, brackets, detect_sub_expr-group, Taken}

text_at : Option Bytes → List Bytes
text_at none = []
text_at (some t) = t ∷ []

abbrev texts_json : Json
texts_json = record {
  Value = List Bytes;
  resolve = λ path v. v;
  size = length;
  is_null = λ v. length v == 0;
  as_string = λ v. some (first v);
  item = λ v i. some (text_at (get_elem? v i));
}
  where
    first : List Bytes → Bytes
    first [] = []
    first (t ∷ v) = t

-- Texts are compared as a whole, and nothing is replaced.
abbrev whole_texts : Boost
whole_texts = record {
  trim = λ t. t;
  starts_with = λ i l r. bytes_eq l r;
  ends_with = λ i l r. bytes_eq l r;
  contains = λ i l r. bytes_eq l r;
  equals = λ i l r. bytes_eq l r;
  search = λ pattern_text t. none;
  is_pattern = λ i r. true;
  matches = λ i r t. some (bytes_eq r t);
  replace_first = λ t l r. t;
}

-- `IS_EQUAL($a,7)`.
abbrev is_seven : Atomic
is_seven = record {
  left = record { expr = codes "$a"; mode = json_path };
  right = record { expr = codes "7"; mode = numeric };
  operator = is_equal;
  negative = false;
  ignore_case = false;
}

-- `!IS_NULL($a)`.
abbrev is_there : Atomic
is_there = record {
  left = record { expr = codes "$a"; mode = json_path };
  right = record { expr = []; mode = null };
  operator = is_null;
  negative = true;
  ignore_case = false;
}

-- `!IS_NULL($a) && !(IS_EQUAL($a,7) || IS_EQUAL($a,7))`.
abbrev there_and_not : Expression
there_and_not =
    expression eval_and false (atom is_there ∷ sub 0 ∷ [])
      (more (expression eval_or true (atom is_seven ∷ atom is_seven ∷ []) no_more) no_more)

abbrev negation : Bytes
negation = codes "b!"

abbrev inside : Bytes
inside = codes "c" ++ codes "(d)"

inside-Balanced : Balanced inside
inside-Balanced =
    plain b'c' (codes "(d)") (λ e. omega (arith, e), λ e. omega (arith, e))
      (brackets (codes "d") []
        (plain b'd' [] (λ e. omega (arith, e), λ e. omega (arith, e)) nothing) nothing)

detect_sub_expr-group_example :
    Taken whole_texts
      (negation ++ b'(' ∷ (inside ++ b')' ∷ codes "e"))
      inside
      3
      (length negation + 1 + length inside + 1)
      negation
      (detect_sub_expr whole_texts (negation ++ b'(' ∷ (inside ++ b')' ∷ codes "e")) 0 3)
    × (detect_sub_expr whole_texts (negation ++ b')' ∷ codes "e") 0 3 ≡ unbalanced)
    × (detect_sub_expr whole_texts (negation ++ b'(' ∷ inside) 0 3 ≡ nothing_left)
detect_sub_expr-group_example =
    detect_sub_expr-group whole_texts negation inside (codes "e") 3
      (
        (λ e. omega (arith, e), λ e. omega (arith, e)),
        ((λ e. omega (arith, e), λ e. omega (arith, e)), tt),
      )
      inside-Balanced
