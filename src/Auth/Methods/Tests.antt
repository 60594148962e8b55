-- ===== src/Auth/Methods/Tests.antt =====
-- Runs of a method that requires the attribute `pay`, which requires a second password.
use cx_framework.Base.{
  ℕ, true, false, ◌≡◌, ◌↔◌, refl, none, some, [], ◌∷◌, String, nat_eq, string_eq, str_eq,
}
use cx_framework.Auth.Reason.{authenticated}
use cx_framework.Auth.Account.{Backend, account_validate_attribute}
use cx_framework.Auth.Session.{Session, new_session}
use cx_framework.Auth.Methods.{
  Methods, insert_pairs, has, put, put_all, values_of, add_method_attributes,
  add_attrib_pass_indexes, get_attrib_pass_indexes, get_method_attribs, get_method_pass_indexes,
  validate_method,
}
use cx_framework.Auth.Methods.Sets.{bound}
use cx_framework.Auth.Methods.Requirements.{Needs}
use cx_framework.Auth.Methods.Validation.{IsMet, validate_method_iff}

abbrev configured : Methods
configured = add_attrib_pass_indexes "pay" (1 ∷ []) (
    add_method_attributes "transfer" ("pay" ∷ [])
      (record { attrib_pass_indexes = []; method_attribs = [] }))

abbrev store : Backend
store = record {
  retrieve_password = λ account d i. none;
  is_account_confirmed = λ _ _. true;
  is_account_disabled = λ _ _. false;
  account_expiration_date = λ _ _. 0;
  account_direct_attribs = λ _ _. "pay" ∷ [];
  account_groups = λ _ _. [];
  group_attribs = λ _ _. [];
  group_validate_attribute = λ g a d. false;
  account_validate_direct_attribute = λ account a d. str_eq a "pay";
}

abbrev session : Session
session = record (new_session "id" 0 0) {
  authenticator = some 0;
  auth_user = "ann";
  auth_matrix = (0, record { last_auth_reason = authenticated; auth_time = 3 }) ∷ [];
}

required : get_method_pass_indexes configured "transfer" ≡ 0 ∷ 1 ∷ []
unfolding get_method_pass_indexes get_method_attribs get_attrib_pass_indexes values_of put put_all
    has insert_pairs add_method_attributes add_attrib_pass_indexes
required = refl

validate_method_iff_example :
    ((validate_method configured store 5 session "transfer" []).0 ≡ true) ↔ (
      (a : String)
      → bound "transfer" a configured.method_attribs ≡ true
      → (account_validate_attribute store session.auth_user a "" ≡ true)
        × ((i : ℕ) → Needs configured a i → IsMet 5 session [] i))
validate_method_iff_example = validate_method_iff configured store 5 session "transfer" []
