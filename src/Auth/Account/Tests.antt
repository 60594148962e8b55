-- ===== src/Auth/Account/Tests.antt =====
-- Runs at one store of accounts: `ann` is in the group `staff`, whose attribute is `login`.
use cx_framework.Base.{
  ◌≤◌, Bool, true, false, ◌&&◌, ◌≡◌, ◌↔◌, ◌⊎◌, refl, none, some, List, [], ◌∷◌, String, arith,
  str_eq, str_eq_iff, codes, if◌then◌else◌,
}
use cx_framework.Auth.Reason.{authenticated, bad_account, mode_plain, plain}
use cx_framework.Auth.Password.{Digests, PasswordData, gen_password}
use cx_framework.Auth.Password.Matching.{Matches}
use cx_framework.Auth.Account.{
  Backend, domain_of, set_insert, insert_all, authenticate, account_usable_attribs, add_groups,
  account_validate_attribute, any_group_validates,
}
use cx_framework.Auth.Account.Policy.{IsUsable, Verdict, authenticate-Verdict, authenticate_iff}
use cx_framework.Auth.Account.Attributes.{
  In, InGroups, IsConsistent, account_validate_attribute_iff,
}

abbrev tagged : Digests
tagged = record { sha256 = λ b. 25 ∷ b; sha512 = λ b. 51 ∷ b }

abbrev secret : PasswordData
secret = gen_password tagged (codes "pw") mode_plain false 1000 0 []

abbrev contains : String → List String → Bool
contains a [] = false
contains a (b ∷ bs) = if str_eq b a then true else contains a bs

contains_iff : (a : String) (bs : List String) → (contains a bs ≡ true) ↔ In a bs
contains_iff a [] = ground arith
contains_iff a (b ∷ bs) = ground (arith, str_eq_iff b a, contains_iff a bs)

abbrev group_attribs : String → String → List String
group_attribs g d = if str_eq g "staff" && str_eq d "default" then "login" ∷ [] else []

abbrev store : Backend
store = record {
  retrieve_password = λ account d i. if str_eq account "ann" then some secret else none;
  is_account_confirmed = λ _ _. true;
  is_account_disabled = λ _ _. false;
  account_expiration_date = λ _ _. 0;
  account_direct_attribs = λ _ _. "read" ∷ [];
  account_groups = λ _ _. "staff" ∷ [];
  group_attribs = group_attribs;
  group_validate_attribute = λ g a d. contains a (group_attribs g d);
  account_validate_direct_attribute = λ account a d. contains a ("read" ∷ []);
}

store-IsConsistent : IsConsistent store
store-IsConsistent = record {
  direct_iff = λ account a d. contains_iff a ("read" ∷ []);
  group_iff = λ g a d. contains_iff a (group_attribs g d);
}

usable : account_usable_attribs store "ann" "default" ≡ "read" ∷ "login" ∷ []
unfolding account_usable_attribs add_groups insert_all set_insert
usable = refl

-- An attribute that the group has is not validated.
not_validated : account_validate_attribute store "ann" "login" "default" ≡ false
unfolding account_validate_attribute any_group_validates
not_validated = refl

unknown : authenticate store tagged 5 5 "bob" "default" (codes "pw") 0 plain [] ≡ bad_account
unfolding authenticate
unknown = refl

authenticate-Verdict_example :
    ((store.retrieve_password "ann" "default" 0 ≡ none)
      × (authenticate store tagged 5 6 "ann" "default" (codes "pw") 0 plain [] ≡ bad_account))
    ⊎ ((stored : PasswordData) × (store.retrieve_password "ann" "default" 0 ≡ some stored)
        × Verdict store tagged 5 6 "ann" "default"
            (codes "pw")
            0
            plain
            []
            stored
            (authenticate store tagged 5 6 "ann" "default" (codes "pw") 0 plain []))
authenticate-Verdict_example =
    authenticate-Verdict store tagged 5 6 "ann" "default" (codes "pw") 0 plain []

authenticate_iff_example :
    (authenticate store tagged 5 6 "ann" "default" (codes "pw") 0 plain [] ≡ authenticated) ↔ (
      (stored : PasswordData) × (store.retrieve_password "ann" "default" 0 ≡ some stored)
      × IsUsable store "ann" "default" 5
      × (◌≡◌ plain plain)
      × (6 ≤ stored.expiration)
      × (stored.force_expiration ≡ false)
      × Matches tagged stored (codes "pw") stored.password_mode)
authenticate_iff_example = authenticate_iff store tagged 5 6 "ann" "default" (codes "pw") 0 plain []

account_validate_attribute_iff_example :
    (account_validate_attribute store "ann" "login" "default" ≡ true) ↔ (
      In "login" (store.account_direct_attribs "ann" (domain_of "default"))
      ⊎ InGroups store
          (domain_of "default")
          "login"
          (store.account_groups "ann" (domain_of "default")))
account_validate_attribute_iff_example =
    account_validate_attribute_iff store store-IsConsistent "ann" "login" "default"
