-- ===== src/Auth/Methods/Requirements.antt =====
-- Which password indexes and attributes a method requires.
use cx_framework.Base.{
  ℕ, Bool, true, false, ◌||◌, ◌≡◌, ◌↔◌, ◌⊎◌, inl, inr, refl, ap, List, [], ◌∷◌, String, nat_eq,
  string_eq, str_eq, str_eq_iff, ◌is◌, arith, Bool-cases,
}
use cx_framework.Auth.Methods.{
  Methods, has, put_all, get_attrib_pass_indexes, get_method_attribs, get_method_pass_indexes,
  collect_indexes,
}
use cx_framework.Auth.Methods.Sets.{bound, has-put_all, has-values_of}

module _ (m : Methods) where
  has-get_attrib_pass_indexes :
      (i : ℕ) (a : String)
      → has i (get_attrib_pass_indexes m a) ≡ (bound a i m.attrib_pass_indexes || 0 is i)
  unfolding get_attrib_pass_indexes has
  has-get_attrib_pass_indexes i a = ground (arith, has-values_of a i m.attrib_pass_indexes (0 ∷ []))

  pub has-get_method_attribs :
      (a method : String) → has a (get_method_attribs m method) ≡ bound method a m.method_attribs
  unfolding get_method_attribs has
  has-get_method_attribs a method = ground (arith, has-values_of method a m.method_attribs [])

  -- Some attribute of a list needs the index.
  any_needs : ℕ → List String → Bool
  any_needs i [] = false
  any_needs i (a ∷ attribs) = bound a i m.attrib_pass_indexes || 0 is i || any_needs i attribs

  has-collect_indexes :
      (i : ℕ) (attribs : List String) (r : List ℕ)
      → has i (collect_indexes m attribs r) ≡ (any_needs i attribs || has i r)
  unfolding collect_indexes any_needs
  has-collect_indexes i [] r = refl
  has-collect_indexes i (a ∷ attribs) r = ground (
    arith,
    has-collect_indexes i attribs (put_all (get_attrib_pass_indexes m a) r),
    has-put_all i (get_attrib_pass_indexes m a) r,
    has-get_attrib_pass_indexes i a,
  )

  -- An index that an attribute needs: the main password, or one that was added for it.
  abbrev pub Needs : String → ℕ → Type 0
  Needs a i = (i ≡ 0) ⊎ (bound a i m.attrib_pass_indexes ≡ true)

  any_needs_intro :
      (i : ℕ) (a : String) (attribs : List String)
      → has a attribs ≡ true
      → Needs a i
      → any_needs i attribs ≡ true
  unfolding any_needs has
  any_needs_intro i a [] h n = cc
  any_needs_intro i a (c ∷ attribs) h n = elim (Bool-cases (str_eq c a)) [
    | inl same ↦
        let eq : c ≡ a = (str_eq_iff c a).0 same in
        ground (arith, ap (λ (x : String). bound x i m.attrib_pass_indexes) eq)
    | inr other ↦ ground (arith, any_needs_intro i a attribs)
  ]

  any_needs_elim :
      (i : ℕ) (attribs : List String)
      → any_needs i attribs ≡ true
      → (a : String) × (has a attribs ≡ true) × Needs a i
  unfolding any_needs has
  any_needs_elim i [] h = cc
  any_needs_elim i (c ∷ attribs) h = elim (Bool-cases (bound c i m.attrib_pass_indexes || 0 is i)) [
    | inl here_ ↦ (c, ground (arith, str_eq_iff c c), ground arith)
    | inr later ↦ let (a, p, n) = any_needs_elim i attribs (ground arith) in (a, ground arith, n)
  ]

  -- The index is required for a method: an attribute of the method needs it.
  pub required_iff :
      (method : String) (i : ℕ)
      → (has i (get_method_pass_indexes m method) ≡ true)
        ↔ ((a : String) × (bound method a m.method_attribs ≡ true) × Needs a i)
  unfolding get_method_pass_indexes has
  required_iff method i =
      let attribs = get_method_attribs m method in
      (
        λ h.
            let (a, p, n) =
              any_needs_elim i attribs (ground (arith, has-collect_indexes i attribs [])) in
            (a, ground (arith, has-get_method_attribs a method), n),
        λ (a, p, n). ground (
          arith,
          has-collect_indexes i attribs [],
          any_needs_intro i a attribs (ground (arith, has-get_method_attribs a method)) n,
        ),
      )
