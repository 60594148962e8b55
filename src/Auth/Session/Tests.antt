-- ===== src/Auth/Session/Tests.antt =====
-- Runs of a session over a store in which the password of every account is "pw".
use cx_framework.Base.{true, false, ◌≡◌, some, List, [], ◌∷◌, codes}
use cx_framework.Auth.Reason.{plain}
use cx_framework.Auth.Password.{Digests, empty_password}
use cx_framework.Auth.Account.{Backend}
use cx_framework.Auth.Session.{Request, Times, is_authenticated}
use cx_framework.Auth.Session.History.{
  Call, authenticates, sets_authenticator, sets_policy, updates_activity, last_attempt, validity,
  verdict, after, is_authenticated-session_after,
}

abbrev tagged : Digests
tagged = record { sha256 = λ b. 25 ∷ b; sha512 = λ b. 51 ∷ b }

abbrev store : Backend
store = record {
  retrieve_password = λ account d i. some (record empty_password { hash = codes "pw" });
  is_account_confirmed = λ _ _. true;
  is_account_disabled = λ _ _. false;
  account_expiration_date = λ _ _. 0;
  account_direct_attribs = λ _ _. [];
  account_groups = λ _ _. [];
  group_attribs = λ _ _. [];
  group_validate_attribute = λ g a d. false;
  account_validate_direct_attribute = λ account a d. false;
}

abbrev login : Request
login = record {
  account = "ann";
  domain = "default";
  password = codes "pw";
  index = 0;
  mode = plain;
  cram_salt = [];
}

abbrev at_ten : Times
at_ten = record { at_account = 10; at_password = 10; at_matrix = 10; at_activity = 10 }

abbrev calls : List Call
calls =
    updates_activity 12
    ∷ authenticates (λ _. store) login at_ten
    ∷ sets_policy 0 (record { valid_time = 5 })
    ∷ sets_authenticator (some 1)
    ∷ []

is_authenticated-session_after_example :
    is_authenticated (after tagged "id" 0 0 calls) 0 16
    ≡ verdict tagged (last_attempt tagged 0 calls) (validity tagged 0 calls) 16
is_authenticated-session_after_example = is_authenticated-session_after tagged "id" 0 0 0 16 calls
