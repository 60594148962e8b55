-- ===== src/JsonExpr.antt =====
-- cxScripts/libcx_scripts_jsonexpreval/src: Boolean expressions on JSON values. boost's text algorithms,
-- its regular expressions, and jsoncpp are parameters.
pub mod Side
pub mod Atomic
pub mod Expression
pub mod Exceptions
pub mod Nesting
pub mod Meaning
pub mod Groups
mod Tests
use cx_framework.Base.{ℕ, Bool, true, false, ◌||◌, List, [], ◌∷◌, Bytes, Option}

-- What the code calls of jsoncpp: the value at a path, its size, and its text and its elements, for
-- which a value of another kind throws: none.
pub record Json : Type 1 where
  pub Value : Type 0
  pub resolve : Bytes → Value → Value
  pub size : Value → ℕ
  pub is_null : Value → Bool
  pub as_string : Value → Option Bytes
  pub item : Value → ℕ → Option Value

-- What it calls of boost. The tests take first whether case is ignored; `search` gives the first two
-- captures of the first match of a pattern; `is_pattern` tells whether a text can be made an extended
-- regular expression, which throws otherwise, and `matches` whether a text is one of it, or none for an
-- exception.
pub record Boost : Type 0 where
  pub trim : Bytes → Bytes
  pub starts_with : Bool → Bytes → Bytes → Bool
  pub ends_with : Bool → Bytes → Bytes → Bool
  pub contains : Bool → Bytes → Bytes → Bool
  pub equals : Bool → Bytes → Bytes → Bool
  pub search : Bytes → Bytes → Option (Bytes × Bytes)
  pub is_pattern : Bool → Bytes → Bool
  pub matches : Bool → Bytes → Bytes → Option Bool
  pub replace_first : Bytes → Bytes → Bytes → Bytes

-- A loop that returns at the first element with a property.
unfoldable pub some_of {ℓ} : {A : Type ℓ} → (A → Bool) → List A → Bool
some_of p [] = false
some_of p (x ∷ xs) = p x || some_of p xs
