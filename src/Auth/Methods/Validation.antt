-- ===== src/Auth/Methods/Validation.antt =====
-- When a session meets what a method requires, and what of it is left.
use cx_framework.Base.{
  ℕ, Bool, true, false, not, ◌&&◌, ◌||◌, ◌≡◌, ◌↔◌, ◌⊎◌, inl, inr, ap, List, [], ◌∷◌, String, nat_eq,
  string_eq, ◌is◌, if◌then◌else◌, arith, Bool-cases,
}
use cx_framework.Auth.Reason.{authenticated, is_authenticated_reason, is_authenticated_reason_iff}
use cx_framework.Auth.Account.{Backend, account_validate_attribute}
use cx_framework.Auth.Session.{Session, is_authenticated}
use cx_framework.Auth.Methods.{
  Methods, has, remove, get_method_attribs, get_method_pass_indexes, strike_index, indexes_left,
  attribs_left, is_empty, validate_method,
}
use cx_framework.Auth.Methods.Sets.{bound, has-remove, is_empty_iff}
use cx_framework.Auth.Methods.Requirements.{has-get_method_attribs, Needs, required_iff}

module _ (now : ℕ) (s : Session) (extra : List ℕ) where
  abbrev pub IsMet : ℕ → Type 0
  IsMet i = (is_authenticated s i now ≡ authenticated) ⊎ (has i extra ≡ true)

  abbrev pub met : ℕ → Bool
  met i = is_authenticated_reason (is_authenticated s i now) || has i extra

  has-strike_index :
      (i j : ℕ) (left : List ℕ)
      → has j (strike_index now s extra i left) ≡ (has j left && not (i is j && met i))
  unfolding strike_index
  has-strike_index i j left = ground (arith, has-remove i j left, has-remove i j (remove i left))

  has-indexes_left :
      (j : ℕ) (required left : List ℕ)
      → has j (indexes_left now s extra required left)
        ≡ (has j left && not (has j required && met j))
  unfolding indexes_left has
  has-indexes_left j [] left = ground arith
  has-indexes_left j (i ∷ required) left = elim (Bool-cases (i is j)) [
    | inl same ↦
        let eq : i ≡ j = (nat_eq.beq_iff i j).0 same in
        ground (
          arith,
          ap (λ (k : ℕ). met k) eq,
          has-indexes_left j required (strike_index now s extra i left),
          has-strike_index i j left,
        )
    | inr other ↦ ground (
      arith,
      has-indexes_left j required (strike_index now s extra i left),
      has-strike_index i j left,
    )
  ]

module _ (b : Backend) (user : String) where
  has-attribs_left :
      (a : String) (required left : List String)
      → has a (attribs_left b user required left)
        ≡ (has a left && not (has a required && account_validate_attribute b user a ""))
  unfolding attribs_left has
  has-attribs_left a [] left = ground arith
  has-attribs_left a (c ∷ required) left =
      let struck = if account_validate_attribute b user c "" then remove c left else left in
      elim (Bool-cases (c is a)) [
        | inl same ↦
            let eq : c ≡ a = (string_eq.beq_iff c a).0 same in
            ground (
              arith,
              ap (λ (k : String). account_validate_attribute b user k "") eq,
              has-attribs_left a required struck,
              has-remove c a left,
            )
        | inr other ↦ ground (arith, has-attribs_left a required struck, has-remove c a left)
      ]

-- What `validateMethod` leaves: of the required indexes those that the session has not
-- authenticated at and that are not among the extra ones, and of the required attributes those that
-- the user's account does not validate in the default domain.
pub left_iff :
    (m : Methods) (b : Backend) (now : ℕ) (s : Session) (method : String) (extra : List ℕ)
    → ((i : ℕ)
        → has i (validate_method m b now s method extra).1
          ≡ (has i (get_method_pass_indexes m method) && not (met now s extra i)))
      × ((a : String)
          → has a (validate_method m b now s method extra).2 ≡ (
              bound method a m.method_attribs
              && not (account_validate_attribute b s.auth_user a "")))
unfolding validate_method
left_iff m b now s method extra =
    let indexes = get_method_pass_indexes m method in
    let attribs = get_method_attribs m method in
    (
      λ i. ground (arith, has-indexes_left now s extra i indexes indexes),
      λ a. ground (
        arith,
        has-attribs_left b s.auth_user a attribs attribs,
        has-get_method_attribs m a method,
      ),
    )

met_iff :
    (now : ℕ) (s : Session) (extra : List ℕ) (i : ℕ)
    → (met now s extra i ≡ true) ↔ IsMet now s extra i
met_iff now s extra i = ground (arith, is_authenticated_reason_iff (is_authenticated s i now))

module _ (m : Methods) (b : Backend) (now : ℕ) (s : Session) (method : String)
    (extra : List ℕ) where
  abbrev lefts : Bool × List ℕ × List String
  lefts = validate_method m b now s method extra

  -- The condition for one attribute, and for all of the method.
  abbrev pub Grants : String → Type 0
  Grants a =
      (account_validate_attribute b s.auth_user a "" ≡ true)
      × ((i : ℕ) → Needs m a i → IsMet now s extra i)

  Grants-of_empty :
      (a : String)
      → bound method a m.method_attribs ≡ true
      → ((i : ℕ) → has i lefts.1 ≡ false)
      → ((c : String) → has c lefts.2 ≡ false)
      → Grants a
  Grants-of_empty a p no_index no_attrib =
      let (l, r) = left_iff m b now s method extra in
      (
        ground (arith, no_attrib a, r a),
        λ i n.
            (met_iff now s extra i).0
              (ground (arith, no_index i, l i, (required_iff m method i).1 (a, p, n))),
      )

  no_index_left :
      ((a : String) → bound method a m.method_attribs ≡ true → Grants a)
      → (i : ℕ) → has i lefts.1 ≡ false
  no_index_left h i = elim (Bool-cases (has i (get_method_pass_indexes m method))) [
    | inr e ↦ ground (arith, (left_iff m b now s method extra).0 i)
    | inl e ↦
        let (a, p, n) = (required_iff m method i).0 e in
        ground
          (arith, (left_iff m b now s method extra).0 i, (met_iff now s extra i).1 ((h a p).1 i n))
  ]

  no_attrib_left :
      ((a : String) → bound method a m.method_attribs ≡ true → Grants a)
      → (a : String) → has a lefts.2 ≡ false
  no_attrib_left h a = elim (Bool-cases (bound method a m.method_attribs)) [
    | inr e ↦ ground (arith, (left_iff m b now s method extra).1 a)
    | inl e ↦ ground (arith, (left_iff m b now s method extra).1 a, (h a e).0)
  ]

  result_iff : (lefts.0 ≡ true) ↔ ((is_empty lefts.1 ≡ true) × (is_empty lefts.2 ≡ true))
  unfolding validate_method
  result_iff = ground arith

-- `validateMethod` holds exactly when, for each attribute that the method requires, the account of
-- the session's user validates it in the default domain, and the session is authenticated, or the
-- index is among the extra ones, at index 0 and at each index that was added for the attribute.
pub validate_method_iff :
    (m : Methods) (b : Backend) (now : ℕ) (s : Session) (method : String) (extra : List ℕ)
    → ((validate_method m b now s method extra).0 ≡ true) ↔ (
        (a : String)
        → bound method a m.method_attribs ≡ true
        → (account_validate_attribute b s.auth_user a "" ≡ true)
          × ((i : ℕ) → Needs m a i → IsMet now s extra i))
validate_method_iff m b now s method extra =
    let (_, indexes, attribs) = validate_method m b now s method extra in
    (
      λ h a p.
          let (x, y) = (result_iff m b now s method extra).0 h in
          Grants-of_empty m b now s method extra a p ((is_empty_iff indexes).0 x)
            ((is_empty_iff attribs).0 y),
      λ h. (result_iff m b now s method extra).1 (
        (is_empty_iff indexes).1 (no_index_left m b now s method extra h),
        (is_empty_iff attribs).1 (no_attrib_left m b now s method extra h),
      ),
    )
