-- ===== src/Auth/Account.antt =====
-- cxAuth/libcx_auth/src/iauth.cpp: what `IAuth` does with the accounts that a subclass keeps. The
-- pure virtual functions that it calls are the fields of a record, which the subclass fills.
pub mod Policy
pub mod Attributes
mod Tests
use cx_framework.Base.{
  ℕ, Bool, true, false, not, ◌&&◌, ◌||◌, Option, none, some, List, [], ◌∷◌, String, Bytes, str_eq,
  ltb, ◌==◌, if◌then◌else◌,
}
use cx_framework.Auth.Reason.{
  AuthReason, unconfirmed_account, disabled_account, expired_account, bad_account, mode_notfound,
  AuthMode,
}
use cx_framework.Auth.Password.{
  PasswordData, PasswordBasicData, Digests, get_basic_data, validate_password, max_time,
  empty_password,
}

-- Accounts, groups and attributes as a subclass of `IAuth` answers for them. The domain stands
-- last but in `retrieve_password`, as in the declarations.
pub record Backend : Type 0 where
  pub retrieve_password : String → String → ℕ → Option PasswordData
  pub is_account_confirmed : String → String → Bool
  pub is_account_disabled : String → String → Bool
  pub account_expiration_date : String → String → ℕ
  pub account_direct_attribs : String → String → List String
  pub account_groups : String → String → List String
  pub group_attribs : String → String → List String
  pub group_validate_attribute : String → String → String → Bool
  pub account_validate_direct_attribute : String → String → String → Bool

-- `std::set::insert`, for a set as a list with no element twice.
unfoldable pub set_insert : String → List String → List String
set_insert a [] = a ∷ []
set_insert a (b ∷ set) = if str_eq b a then b ∷ set else b ∷ set_insert a set

-- `for (attrib : attribs) x.insert(attrib);`
unfoldable pub insert_all : List String → List String → List String
insert_all [] set = set
insert_all (a ∷ attribs) set = insert_all attribs (set_insert a set)

-- `if (domainName == "") domainName = "default";`
abbrev pub domain_of : String → String
domain_of domain_name = if str_eq domain_name "" then "default" else domain_name

module _ (b : Backend) where
  pub is_account_expired : ℕ → String → String → Bool
  is_account_expired now account domain =
      let date = b.account_expiration_date account domain in
      if date == 0 then false else ltb date now

  -- The clock is read at the test of the account and then, later, at that of the password.
  pub authenticate : Digests → ℕ → ℕ → String → String → Bytes → ℕ → AuthMode → Bytes → AuthReason
  authenticate d now later account domain password index mode cram_salt =
      elim (b.retrieve_password account domain index) [
        | none ↦ bad_account
        | some stored ↦
            if not (b.is_account_confirmed account domain)
            then unconfirmed_account
            else if b.is_account_disabled account domain
            then disabled_account
            else if is_account_expired now account domain
            then expired_account
            else validate_password d later stored password cram_salt mode
      ]

  -- The record that is returned, and `*found`.
  pub account_password_basic_data : String → ℕ → String → PasswordBasicData × Bool
  account_password_basic_data account index domain =
      elim (b.retrieve_password account domain index) [
        | none ↦ (
          record {
            basic_mode = mode_notfound;
            basic_ssalt = 0 ∷ 0 ∷ 0 ∷ 0 ∷ [];
            basic_expiration = 0;
            basic_force = false;
          },
          false,
        )
        | some stored ↦ (get_basic_data stored, true)
      ]

  -- The two loops over the groups of the account.
  add_groups : String → List String → List String → List String
  add_groups domain [] set = set
  add_groups domain (g ∷ groups) set =
      add_groups domain groups (insert_all (b.group_attribs g domain) set)

  pub account_usable_attribs : String → String → List String
  account_usable_attribs account domain =
      add_groups domain (b.account_groups account domain)
        (insert_all (b.account_direct_attribs account domain) [])

  -- The loop that asks each group. The domain stands where `groupValidateAttribute` takes the
  -- attribute, and the attribute where it takes the domain, as in the call.
  any_group_validates : String → String → List String → Bool
  any_group_validates attrib domain [] = false
  any_group_validates attrib domain (g ∷ groups) =
      b.group_validate_attribute g domain attrib || any_group_validates attrib domain groups

  pub account_validate_attribute : String → String → String → Bool
  account_validate_attribute account attrib domain_name =
      let domain = domain_of domain_name in
      b.account_validate_direct_attribute account attrib domain
      || any_group_validates attrib domain (b.account_groups account domain)
