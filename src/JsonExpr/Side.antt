-- ===== src/JsonExpr/Side.antt =====
-- atomicexpressionside.cpp: one side of an atomic expression.
use cx_framework.Base.{
  ℕ, zero, suc, ◌+◌, ◌*◌, ◌-◌, ◌%◌, ◌^◌, ◌==◌, ltb, leb, Bool, true, false, not, ◌&&◌, ◌||◌, Option,
  none, some, List, [], ◌∷◌, Bytes, bytes_eq, length, drop, codes, if◌then◌else◌, ◌>>=◌,
}
use cx_framework.JsonExpr.{Json, Boost, some_of}

pub data Mode : Type 0 where
  numeric : Mode
  static_string : Mode
  json_path : Mode
  null : Mode
  undefined : Mode

pub record Side : Type 0 where
  pub expr : Bytes
  pub mode : Mode

abbrev pub is_digit : ℕ → Bool
is_digit c = leb b'0' c && leb c b'9'

-- `std::stoul` throws where there is no digit, and where the number takes more than 64 bits.
unfoldable pub digits_value : ℕ → Bytes → ℕ
digits_value n [] = n
digits_value n (c ∷ cs) =
    let rest = digits_value (10 * n + (c - b'0')) cs in if is_digit c then rest else n

unfoldable pub unsigned : Bytes → Option ℕ
unsigned [] = none
unsigned (c ∷ cs) =
    let n = digits_value 0 (c ∷ cs) in
    if is_digit c then (if ltb n (2 ^ 64) then some n else none) else none

abbrev pub is_space : ℕ → Bool
is_space c = c == 32 || (leb 9 c && leb c 13)

abbrev negated : Option ℕ → Option ℕ
negated none = none
negated (some n) = some ((2 ^ 64 - n) % 2 ^ 64)

unfoldable pub stoul : Bytes → Option ℕ
stoul [] = none
stoul (c ∷ cs) =
    let rest = stoul cs in
    if is_space c
    then rest
    else if c == b'+'
    then unsigned cs
    else if c == b'-'
    then negated (unsigned cs)
    else unsigned (c ∷ cs)

-- `expr.find_first_not_of("0123456789") == string::npos`.
unfoldable pub all_digits : Bytes → Bool
all_digits [] = true
all_digits (c ∷ cs) = is_digit c && all_digits cs

-- `calcMode` has seen that the index is one of the texts.
unfoldable pub static_at : List Bytes → ℕ → Bytes
static_at [] i = []
static_at (t ∷ texts) zero = t
static_at (t ∷ texts) (suc i) = static_at texts i

unfoldable pub static_mode : List Bytes → Option ℕ → Option Mode
static_mode texts none = none
static_mode texts (some i) = some (if ltb i (length texts) then static_string else undefined)

-- `calcMode`, which returns false where the mode is undefined; none where it throws.
unfoldable pub calc_mode : Boost → List Bytes → Bytes → Option Mode
calc_mode boost texts [] = some null
calc_mode boost texts (c ∷ cs) =
    if c == b'$'
    then some json_path
    else if all_digits (c ∷ cs)
    then some numeric
    else if boost.starts_with false (c ∷ cs) (codes "_STATIC_")
    then static_mode texts (stoul (drop 8 (c ∷ cs)))
    else some undefined

unfoldable pub set_expr : Boost → Bytes → Bytes
set_expr boost value = boost.trim value

-- A set as the list of its elements; of what is read only an exception of a regular expression, which
-- another element comes before or behind, depends on their order.
abbrev insert_text : Bytes → List Bytes → List Bytes
insert_text x xs = if some_of (bytes_eq x) xs then xs else x ∷ xs

unfoldable pub items : (json : Json) → json.Value → ℕ → Option (List Bytes)
items json v zero = some []
items json v (suc n) = json.item v n >>= λ x.
    json.as_string x >>= λ t. items json v n >>= λ xs. some (insert_text t xs)

unfoldable pub static_text : List Bytes → Bytes → Bytes
static_text texts expr = at_index (stoul (drop 8 expr))
  where
    at_index : Option ℕ → Bytes
    at_index none = []
    at_index (some i) = static_at texts i

abbrev pub only : Bytes → Option (List Bytes)
only t = some (t ∷ [])

-- A literal: it is compiled for a match, and has no value then.
unfoldable pub literal : Boost → Bool → Bool → Bytes → Option (List Bytes)
literal boost ignore_case resolve_regex t =
    if resolve_regex then (if boost.is_pattern ignore_case t then some [] else none) else only t

-- `resolve`; none where it throws.
unfoldable pub resolve :
    (json : Json) → Boost → List Bytes → Side → json.Value → Bool → Bool → Option (List Bytes)
resolve json boost texts side v resolve_regex ignore_case = by_mode side.mode
  where
    by_mode : Mode → Option (List Bytes)
    by_mode json_path =
        let result = json.resolve (drop 1 side.expr) v in
        if json.size result == 0 && not (json.is_null result)
        then json.as_string result >>= only
        else items json result (json.size result)
    by_mode static_string = literal boost ignore_case resolve_regex (static_text texts side.expr)
    by_mode numeric = literal boost ignore_case resolve_regex side.expr
    by_mode null = some []
    by_mode undefined = some []

-- The text that `resolve` has made a regular expression of, for a match.
unfoldable pub regexp : List Bytes → Side → Option Bytes
regexp texts side = by_mode side.mode
  where
    by_mode : Mode → Option Bytes
    by_mode static_string = some (static_text texts side.expr)
    by_mode numeric = some side.expr
    by_mode _ = none
