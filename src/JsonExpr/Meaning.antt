-- ===== src/JsonExpr/Meaning.antt =====
-- atomicexpression.cpp and jsonexpreval.cpp: what the loops of `evaluate` decide.
use cx_framework.Base.{
  ℕ, zero, suc, Bool, true, false, Option, none, some, List, [], ◌∷◌, Bytes, bytes_eq_iff, All, ◌≡◌,
  ◌↔◌, ◌⊎◌, refl, if◌then◌else◌, arith, ◌>>=◌, inl, inr,
}
use mathlib.Core.Option
use cx_framework.JsonExpr.{Json, Boost, some_of}
use cx_framework.JsonExpr.Side.{resolve, regexp}
use cx_framework.JsonExpr.Atomic.{
  Operator, contains, regex_match, is_equal, starts_with, ends_with, is_null, no_operator, Atomic,
  calc_negative, is_regex, some_pair, some_match, regex_matches, equal, is_empty_set, holds,
  evaluate_sides, evaluate_atomic,
}
use cx_framework.JsonExpr.Expression.{
  and_rest, or_rest, EvalMode, eval_and, eval_or, eval_undefined, Part, atom, sub, Expression,
  expression, Expressions, no_more, more, value_at, part_value, all_parts, some_part, by_mode,
  evaluate, evaluate_subs,
}

abbrev pub Any {ℓ} : {A : Type ℓ} → (A → Type 0) → List A → Type 0
Any P [] = ⊥
Any P (x ∷ xs) = P x ⊎ Any P xs

some_of-Any {ℓ} :
    {A : Type ℓ}
    → (p : A → Bool) (P : A → Type 0) → ((x : A) → (p x ≡ true) ↔ P x)
    → (xs : List A) → (some_of p xs ≡ true) ↔ Any P xs
unfolding some_of
some_of-Any p P h [] = ground arith
some_of-Any p P h (x ∷ xs) = ground (arith, h x, some_of-Any p P h xs)

abbrev pub Negated : Bool → Type 0 → Type 0
Negated negative P = if negative then ¬ P else P

-- What was decided is right, and an exception decides nothing.
abbrev pub Decides : Option Bool → Type 0 → Type 0
Decides none P = Unit
Decides (some true) P = P
Decides (some false) P = ¬ P

decided : (b : Bool) (P : Type 0) → (b ≡ true) ↔ P → Decides (some b) P
decided true P h = h.0 refl
decided false P h = λ p. cc (h.1 p)

calc_negative-Decides :
    (negative : Bool) (o : Option Bool) (P : Type 0)
    → Decides o P
    → Decides (Option.map (calc_negative negative) o) (Negated negative P)
unfolding calc_negative
calc_negative-Decides negative none P h = tt
calc_negative-Decides true (some true) P h = λ n. n h
calc_negative-Decides true (some false) P h = h
calc_negative-Decides false (some true) P h = h
calc_negative-Decides false (some false) P h = h

module _ (json : Json) (boost : Boost) (texts : List Bytes) where
  abbrev pub SamePair : Bool → Bytes → Bytes → Type 0
  SamePair ignore_case l r = if ignore_case then boost.equals true r l ≡ true else r ≡ l

  equal-SamePair :
      (ignore_case : Bool) (l r : Bytes)
      → (equal json boost texts ignore_case l r ≡ true) ↔ SamePair ignore_case l r
  unfolding equal
  equal-SamePair true l r = (λ e. e, λ e. e)
  equal-SamePair false l r = bytes_eq_iff r l

  abbrev pub Pairs : (Bytes → Bytes → Type 0) → List Bytes → List Bytes → Type 0
  Pairs P ls rs = Any (λ l. Any (λ r. P l r) rs) ls

  some_pair-Pairs :
      (test : Bytes → Bytes → Bool) (ls rs : List Bytes)
      → (some_pair json boost texts test ls rs ≡ true) ↔ Pairs (λ l r. test l r ≡ true) ls rs
  unfolding some_pair
  some_pair-Pairs test ls rs =
      some_of-Any (λ l. some_of (λ r. test l r) rs) (λ l. Any (λ r. test l r ≡ true) rs)
        (λ l. some_of-Any (λ r. test l r) (λ r. test l r ≡ true) (λ r. (λ e. e, λ e. e)) rs) ls

  abbrev pub RegexMatches : Bool → Option Bytes → List Bytes → Type 0
  RegexMatches ignore_case none ls = ⊥
  RegexMatches ignore_case (some r) ls = Any (λ l. boost.matches ignore_case r l ≡ some true) ls

  -- What an operator asks of the values of the two sides.
  abbrev pub Holds : Operator → Bool → Option Bytes → List Bytes → List Bytes → Type 0
  Holds contains i regex ls rs = Pairs (λ l r. boost.contains i l r ≡ true) ls rs
  Holds regex_match i regex ls rs = RegexMatches i regex ls
  Holds is_equal i regex ls rs = Any (λ r. Any (λ l. SamePair i l r) ls) rs
  Holds starts_with i regex ls rs = Pairs (λ l r. boost.starts_with i l r ≡ true) ls rs
  Holds ends_with i regex ls rs = Pairs (λ l r. boost.ends_with i l r ≡ true) ls rs
  Holds is_null i regex ls rs = ls ≡ []
  Holds no_operator i regex ls rs = ⊥

  next_match :
      (o : Option Bool) (rest : Option Bool) (P : Type 0)
      → Decides rest P
      → Decides (o >>= λ m. if m then some true else rest) ((o ≡ some true) ⊎ P)
  next_match none rest P h = tt
  next_match (some true) rest P h = inl refl
  next_match (some false) none P h = tt
  next_match (some false) (some true) P h = inr h
  next_match (some false) (some false) P h = λ e. elim e [ inl bad ↦ cc bad | inr p ↦ h p ]

  some_match-Any :
      (i : Bool) (r : Bytes) (ls : List Bytes)
      → Decides (some_match json boost texts i r ls) (Any (λ l. boost.matches i r l ≡ some true) ls)
  unfolding some_match
  some_match-Any i r [] = λ e. e
  some_match-Any i r (l ∷ ls) =
      next_match (boost.matches i r l) (some_match json boost texts i r ls)
        (Any (λ k. boost.matches i r k ≡ some true) ls) (some_match-Any i r ls)

  regex_matches-RegexMatches :
      (i : Bool) (regex : Option Bytes) (ls : List Bytes)
      → Decides (regex_matches json boost texts i regex ls) (RegexMatches i regex ls)
  unfolding regex_matches
  regex_matches-RegexMatches i none ls = λ e. e
  regex_matches-RegexMatches i (some r) ls = some_match-Any i r ls

  empty_set_iff : (ls : List Bytes) → (is_empty_set json boost texts ls ≡ true) ↔ (ls ≡ [])
  unfolding is_empty_set
  empty_set_iff [] = (λ e. refl, λ e. refl)
  empty_set_iff (l ∷ ls) = (λ e. absurd (cc e), λ e. absurd (cc e))

  some_pair-Decides :
      (test : Bytes → Bytes → Bool) (ls rs : List Bytes)
      → Decides
          (some (some_pair json boost texts test ls rs))
          (Pairs (λ l r. test l r ≡ true) ls rs)
  some_pair-Decides test ls rs =
      decided (some_pair json boost texts test ls rs) (Pairs (λ l r. test l r ≡ true) ls rs)
        (some_pair-Pairs test ls rs)

  holds-Holds :
      (op : Operator) (i : Bool) (regex : Option Bytes) (ls rs : List Bytes)
      → Decides (holds json boost texts op i regex ls rs) (Holds op i regex ls rs)
  unfolding holds
  holds-Holds contains i regex ls rs = some_pair-Decides (boost.contains i) ls rs
  holds-Holds regex_match i regex ls rs = regex_matches-RegexMatches i regex ls
  holds-Holds is_equal i regex ls rs =
      decided (some_of (λ r. some_of (λ l. equal json boost texts i l r) ls) rs)
        (Any (λ r. Any (λ l. SamePair i l r) ls) rs)
        (some_of-Any (λ r. some_of (λ l. equal json boost texts i l r) ls)
          (λ r. Any (λ l. SamePair i l r) ls)
          (λ r.
            some_of-Any (λ l. equal json boost texts i l r) (λ l. SamePair i l r)
              (λ l. equal-SamePair i l r) ls)
          rs)
  holds-Holds starts_with i regex ls rs = some_pair-Decides (boost.starts_with i) ls rs
  holds-Holds ends_with i regex ls rs = some_pair-Decides (boost.ends_with i) ls rs
  holds-Holds is_null i regex ls rs =
      decided (is_empty_set json boost texts ls) (ls ≡ []) (empty_set_iff ls)
  holds-Holds no_operator i regex ls rs = λ e. e

  -- Both sides have values, and what is asked of them holds, or not.
  abbrev pub SidesHold : Atomic → Option (List Bytes) → Option (List Bytes) → Type 0
  SidesHold a (some ls) (some rs) =
      Negated a.negative (Holds a.operator a.ignore_case (regexp texts a.right) ls rs)
  SidesHold a _ _ = ⊥

  abbrev pub AtomHolds : Atomic → json.Value → Type 0
  AtomHolds a v =
      SidesHold a (resolve json boost texts a.left v (is_regex a.operator) a.ignore_case)
        (resolve json boost texts a.right v (is_regex a.operator) a.ignore_case)

  evaluate_sides-SidesHold :
      (a : Atomic) (left right : Option (List Bytes))
      → Decides (evaluate_sides json boost texts a left right) (SidesHold a left right)
  unfolding evaluate_sides
  evaluate_sides-SidesHold a none right = tt
  evaluate_sides-SidesHold a (some ls) none = tt
  evaluate_sides-SidesHold a (some ls) (some rs) =
      calc_negative-Decides a.negative
        (holds json boost texts a.operator a.ignore_case (regexp texts a.right) ls rs)
        (Holds a.operator a.ignore_case (regexp texts a.right) ls rs)
        (holds-Holds a.operator a.ignore_case (regexp texts a.right) ls rs)

  evaluate_atomic-AtomHolds :
      (a : Atomic) (v : json.Value) → Decides (evaluate_atomic json boost texts a v) (AtomHolds a v)
  unfolding evaluate_atomic
  evaluate_atomic-AtomHolds a v =
      evaluate_sides-SidesHold a
        (resolve json boost texts a.left v (is_regex a.operator) a.ignore_case)
        (resolve json boost texts a.right v (is_regex a.operator) a.ignore_case)

  abbrev pub PartHolds : json.Value → (ℕ → Type 0) → Part → Type 0
  PartHolds v Subs (atom a) = AtomHolds a v
  PartHolds v Subs (sub i) = Subs i

  abbrev pub ModeHolds : EvalMode → Bool → json.Value → (ℕ → Type 0) → List Part → Type 0
  ModeHolds eval_and negative v Subs parts = Negated negative (All (PartHolds v Subs) parts)
  ModeHolds eval_or negative v Subs parts = Negated negative (Any (PartHolds v Subs) parts)
  ModeHolds eval_undefined negative v Subs parts = ⊥

  -- All or some of an expression's parts hold, or not; one without a mode never holds.
  unfoldable mutual
    pub ExpressionHolds : Expression → json.Value → Type 0
    ExpressionHolds (expression mode negative parts subs) v =
        ModeHolds mode negative v (SubHolds subs v) parts

    pub SubHolds : Expressions → json.Value → ℕ → Type 0
    SubHolds no_more v i = ⊥
    SubHolds (more e es) v zero = ExpressionHolds e v
    SubHolds (more e es) v (suc i) = SubHolds es v i

  and_rest-Decides :
      (o rest : Option Bool) (P Q : Type 0)
      → Decides o P
      → Decides rest Q
      → Decides (and_rest o rest) (P × Q)
  and_rest-Decides none rest P Q h k = tt
  and_rest-Decides (some true) none P Q h k = tt
  and_rest-Decides (some true) (some true) P Q h k = (h, k)
  and_rest-Decides (some true) (some false) P Q h k = λ pq. k (pq.1)
  and_rest-Decides (some false) rest P Q h k = λ pq. h (pq.0)

  or_rest-Decides :
      (o rest : Option Bool) (P Q : Type 0)
      → Decides o P
      → Decides rest Q
      → Decides (or_rest o rest) (P ⊎ Q)
  or_rest-Decides none rest P Q h k = tt
  or_rest-Decides (some true) rest P Q h k = inl h
  or_rest-Decides (some false) none P Q h k = tt
  or_rest-Decides (some false) (some true) P Q h k = inr k
  or_rest-Decides (some false) (some false) P Q h k = λ e. elim e [ inl p ↦ h p | inr q ↦ k q ]

  module _ (v : json.Value) (rs : List (Option Bool)) (Subs : ℕ → Type 0)
      (subs : (i : ℕ) → Decides (value_at json boost texts rs i) (Subs i)) where
    part_value-PartHolds :
        (p : Part) → Decides (part_value json boost texts v rs p) (PartHolds v Subs p)
    unfolding part_value
    part_value-PartHolds (atom a) = evaluate_atomic-AtomHolds a v
    part_value-PartHolds (sub i) = subs i

    all_parts-All :
        (ps : List Part) → Decides (all_parts json boost texts v rs ps) (All (PartHolds v Subs) ps)
    unfolding all_parts
    all_parts-All [] = tt
    all_parts-All (p ∷ ps) =
        and_rest-Decides (part_value json boost texts v rs p) (all_parts json boost texts v rs ps)
          (PartHolds v Subs p) (All (PartHolds v Subs) ps) (part_value-PartHolds p)
          (all_parts-All ps)

    some_part-Any :
        (ps : List Part) → Decides (some_part json boost texts v rs ps) (Any (PartHolds v Subs) ps)
    unfolding some_part
    some_part-Any [] = λ e. e
    some_part-Any (p ∷ ps) =
        or_rest-Decides (part_value json boost texts v rs p) (some_part json boost texts v rs ps)
          (PartHolds v Subs p) (Any (PartHolds v Subs) ps) (part_value-PartHolds p)
          (some_part-Any ps)

    by_mode-ModeHolds :
        (mode : EvalMode) (negative : Bool) (ps : List Part)
        → Decides
            (by_mode json boost texts mode negative v rs ps)
            (ModeHolds mode negative v Subs ps)
    unfolding by_mode
    by_mode-ModeHolds eval_and negative ps =
        calc_negative-Decides negative (all_parts json boost texts v rs ps)
          (All (PartHolds v Subs) ps) (all_parts-All ps)
    by_mode-ModeHolds eval_or negative ps =
        calc_negative-Decides negative (some_part json boost texts v rs ps)
          (Any (PartHolds v Subs) ps) (some_part-Any ps)
    by_mode-ModeHolds eval_undefined negative ps = λ e. e

  mutual
    unfolding evaluate evaluate_subs value_at ExpressionHolds SubHolds

    evaluated :
        (e : Expression) (v : json.Value)
        → Decides (evaluate json boost texts e v) (ExpressionHolds e v)
    evaluated (expression mode negative parts subs) v =
        by_mode-ModeHolds v (evaluate_subs json boost texts subs v) (SubHolds subs v)
          (λ i. subs_evaluated subs v i) mode negative parts

    subs_evaluated :
        (es : Expressions) (v : json.Value) (i : ℕ)
        → Decides
            (value_at json boost texts (evaluate_subs json boost texts es v) i)
            (SubHolds es v i)
    subs_evaluated no_more v i = λ e. e
    subs_evaluated (more e es) v zero = evaluated e v
    subs_evaluated (more e es) v (suc i) = subs_evaluated es v i
