-- ===== src/Auth/Account/Attributes.antt =====
-- The attributes of an account: its own and those of its groups.
use cx_framework.Base.{true, ◌≡◌, ◌↔◌, ◌⊎◌, inl, inr, List, [], ◌∷◌, String, arith, str_eq_iff}
use cx_framework.Auth.Account.{
  Backend, domain_of, set_insert, insert_all, add_groups, account_usable_attribs,
  any_group_validates, account_validate_attribute,
}

abbrev pub In : String → List String → Type 0
In a [] = ⊥
In a (b ∷ bs) = (b ≡ a) ⊎ In a bs

In-set_insert : (a c : String) (set : List String) → In a (set_insert c set) → (c ≡ a) ⊎ In a set
unfolding set_insert
In-set_insert a c [] h = h
In-set_insert a c (b ∷ set) h = ground (arith, str_eq_iff b c, In-set_insert a c set)

set_insert-In : (a c : String) (set : List String) → (c ≡ a) ⊎ In a set → In a (set_insert c set)
unfolding set_insert
set_insert-In a c [] h = h
set_insert-In a c (b ∷ set) h = ground (arith, str_eq_iff b c, set_insert-In a c set)

insert_all_iff :
    (a : String) (attribs set : List String)
    → In a (insert_all attribs set) ↔ (In a attribs ⊎ In a set)
unfolding insert_all
insert_all_iff a [] set = (λ h. inr h, λ h. elim h [ inl e ↦ absurd e | inr e ↦ e ])
insert_all_iff a (c ∷ attribs) set = ground (
  arith,
  insert_all_iff a attribs (set_insert c set),
  In-set_insert a c set,
  set_insert-In a c set,
)

module _ (b : Backend) where
  -- Some group of a list has the attribute.
  abbrev pub InGroups : String → String → List String → Type 0
  InGroups a domain [] = ⊥
  InGroups a domain (g ∷ groups) = In a (b.group_attribs g domain) ⊎ InGroups a domain groups

  add_groups_iff :
      (a domain : String) (groups set : List String)
      → In a (add_groups b domain groups set) ↔ (InGroups a domain groups ⊎ In a set)
  unfolding add_groups
  add_groups_iff a domain [] set = (λ h. inr h, λ h. elim h [ inl e ↦ absurd e | inr e ↦ e ])
  add_groups_iff a domain (g ∷ groups) set = ground (
    arith,
    add_groups_iff a domain groups (insert_all (b.group_attribs g domain) set),
    insert_all_iff a (b.group_attribs g domain) set,
  )

  -- `accountUsableAttribs` holds exactly the attributes that the account has itself or that a group
  -- which it belongs to has.
  pub account_usable_attribs_iff :
      (account domain a : String)
      → In a (account_usable_attribs b account domain) ↔ (
          In a (b.account_direct_attribs account domain)
          ⊎ InGroups a domain (b.account_groups account domain))
  unfolding account_usable_attribs
  account_usable_attribs_iff account domain a = ground (
    arith,
    add_groups_iff a domain (b.account_groups account domain)
        (insert_all (b.account_direct_attribs account domain) []),
    insert_all_iff a (b.account_direct_attribs account domain) [],
  )

  -- What a subclass's tests are for: membership in its lists, by name and domain.
  pub record IsConsistent : Type 0 where
    pub direct_iff :
        (account attrib domain : String)
        → (b.account_validate_direct_attribute account attrib domain ≡ true)
          ↔ In attrib (b.account_direct_attribs account domain)
    pub group_iff :
        (group attrib domain : String)
        → (b.group_validate_attribute group attrib domain ≡ true)
          ↔ In attrib (b.group_attribs group domain)

  any_group_iff :
      IsConsistent
      → (attrib domain : String) (groups : List String)
      → (any_group_validates b attrib domain groups ≡ true) ↔ InGroups domain attrib groups
  unfolding any_group_validates
  any_group_iff c attrib domain [] = ground arith
  any_group_iff c attrib domain (g ∷ groups) =
      ground (arith, c.group_iff g domain attrib, any_group_iff c attrib domain groups)

  -- Where a subclass's tests are membership in its lists, `accountValidateAttribute` accepts an
  -- attribute exactly when the account has it itself, or when a group of the account has, in a
  -- domain named as the attribute is, an attribute named as the account's
  -- domain is. The empty domain is the default one.
  pub account_validate_attribute_iff :
      IsConsistent
      → (account attrib domain : String)
      → (account_validate_attribute b account attrib domain ≡ true) ↔ (
          In attrib (b.account_direct_attribs account (domain_of domain))
          ⊎ InGroups (domain_of domain) attrib (b.account_groups account (domain_of domain)))
  unfolding account_validate_attribute
  account_validate_attribute_iff c account attrib domain =
      let d = domain_of domain in
      ground (
        arith,
        c.direct_iff account attrib d,
        any_group_iff c attrib d (b.account_groups account d),
      )
