-- ===== src/Threads/MutexMap/Invariant.antt =====
-- What holds of the map and its users between two locked regions.
use cx_framework.Base.{
  ℕ, ◌≤◌, ◌<◌, true, ◌≡◌, refl, ◌∙◌, sym, subst, List, [], ◌∷◌, Option, none, some, Eq, ◌is◌,
  lookup, length, inl, inr, arith,
}
use cx_framework.Threads.MutexMap.{MapElement, readers_at}
use cx_framework.Threads.MutexMap.System.{System, IsDeleted, Holds, held, owner, initial}

-- The pointer of an entry, where there is one.
abbrev pub slot : Option MapElement → Option (Option ℕ)
slot none = none
slot (some m) = some m.rd_element

module _ {κ} {K : Type κ} ⦃e : Eq K⦄ where
  pub record Inv (s : System K) : Type κ where
    pub counted : (j : K) → readers_at j s.x_map ≡ held j s.handles
    pub live : (j : K) (p : ℕ) → Holds j p s.handles → owner s j ≡ some p
    pub unique : (j k : K) (p : ℕ) → owner s j ≡ some p → owner s k ≡ some p → (j is k) ≡ true
    pub kept : (j : K) (p : ℕ) → owner s j ≡ some p → ¬ IsDeleted p s.deleted
    pub closing :
        (j : K) (p : ℕ) → lookup j s.destroyers ≡ some p → slot (lookup j s.x_map) ≡ some none

  pub initial-Inv : Inv initial
  unfolding held readers_at owner lookup
  initial-Inv = record {
    counted = λ j. refl;
    live = λ j p h. absurd h;
    unique = λ j k p h h'. cc;
    kept = λ j p h d. d;
    closing = λ j p h. cc;
  }

  pub held-le-length : (j : K) (hs : List (K × ℕ)) → held j hs ≤ length hs
  unfolding held
  held-le-length j [] = omega arith
  held-le-length j ((i, q) ∷ hs) = ground (arith, held-le-length j hs)

  pub held_pos : (j : K) (p : ℕ) (hs : List (K × ℕ)) → Holds j p hs → 0 < held j hs
  unfolding held
  held_pos j p [] h = absurd h
  held_pos j p ((i, q) ∷ hs) (inl h) = ground arith
  held_pos j p ((i, q) ∷ hs) (inr h) = ground (arith, held_pos j p hs h)

  -- A step after which every key stands for the element it stood for, and nothing new is deleted.
  pub same_owner-Inv :
      (s t : System K)
      → Inv s
      → ((j : K) → owner t j ≡ owner s j)
      → t.deleted ≡ s.deleted
      → ((j : K) → readers_at j t.x_map ≡ held j t.handles)
      → ((j : K) (p : ℕ) → Holds j p t.handles → owner s j ≡ some p)
      → ((j : K) (p : ℕ) → lookup j t.destroyers ≡ some p → slot (lookup j t.x_map) ≡ some none)
      → Inv t
  same_owner-Inv s t v same dead counted live closing = record {
    counted = counted;
    live = λ j p h. same j ∙ live j p h;
    unique = λ j k p h h'. v.unique j k p (sym (same j) ∙ h) (sym (same k) ∙ h');
    kept = λ j p h d. v.kept j p (sym (same j) ∙ h) (subst (IsDeleted p) dead d);
    closing = closing;
  }
