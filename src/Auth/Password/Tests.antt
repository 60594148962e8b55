-- ===== src/Auth/Password/Tests.antt =====
-- Runs at concrete inputs, with digests that put a tag before what they read.
use cx_framework.Base.{◌≤◌, ◌≡◌, ◌↔◌, refl, false, ◌∷◌, [], Bytes, bytes_eq, codes}
use cx_framework.Auth.Reason.{authenticated, bad_password, expired_password, mode_ssha256, plain}
use cx_framework.AuthStrings.{str_to_hex}
use cx_framework.Auth.Password.{
  Digests, PasswordData, gen_password, validate_password, validate_by, compare_by,
  is_password_expired,
}
use cx_framework.Auth.Password.Matching.{Matches, validate_password_iff}

abbrev tagged : Digests
tagged = record { sha256 = λ b. 25 ∷ b; sha512 = λ b. 51 ∷ b }

abbrev secret : Bytes
secret = codes "secret"

abbrev salt : Bytes
salt = 1 ∷ 2 ∷ 3 ∷ 4 ∷ []

abbrev stored : PasswordData
stored = gen_password tagged secret mode_ssha256 false 1000 0 salt

accepts : validate_password tagged 999 stored secret [] plain ≡ authenticated
unfolding validate_password is_password_expired validate_by compare_by gen_password str_to_hex
    bytes_eq
accepts = refl

refuses : validate_password tagged 999 stored (codes "Secret") [] plain ≡ bad_password
unfolding validate_password is_password_expired validate_by compare_by gen_password str_to_hex
    bytes_eq
refuses = refl

too_late : validate_password tagged 1001 stored secret [] plain ≡ expired_password
unfolding validate_password is_password_expired gen_password str_to_hex bytes_eq
too_late = refl

validate_password_iff_example :
    (validate_password tagged 999 stored secret [] plain ≡ authenticated) ↔ (
      (◌≡◌ plain plain)
      × (999 ≤ stored.expiration)
      × (stored.force_expiration ≡ false)
      × Matches tagged stored secret stored.password_mode)
validate_password_iff_example = validate_password_iff tagged 999 stored secret [] plain
