-- ===== src/Auth/Password.antt =====
-- cxAuth/libcx_auth/src/iauth_validation_account.cpp and datastructs/ds_auth_passworddata.h: stored
-- passwords, and the test of a password against one. A `time_t` is a number of seconds. The digests
-- of OpenSSL are parameters; a digest over two updates is that of the bytes one after the other.
pub mod Matching
mod Tests
use cx_framework.Base.{
  ℕ, Bool, true, false, ◌||◌, List, [], ◌∷◌, ◌++◌, Bytes, ltb, bytes_eq, if◌then◌else◌,
}
use cx_framework.Auth.Reason.{
  AuthReason, authenticated, internal_error, not_implemented, expired_password, bad_password,
  PasswordMode, mode_plain, mode_sha256, mode_sha512, mode_ssha256, mode_ssha512, mode_gauthtime,
  mode_notfound, mode_other, AuthMode, plain, cram,
}
use cx_framework.AuthStrings.{str_to_hex}

-- `sPasswordData`.
pub record PasswordData : Type 0 where
  pub g_auth_steps : ℕ
  pub force_expiration : Bool
  pub password_mode : PasswordMode
  pub expiration : ℕ
  pub hash : Bytes
  pub ssalt : Bytes

-- The largest `time_t`.
abbrev pub max_time : ℕ
max_time = 0x7fff_ffff_ffff_ffff

-- The default constructor.
abbrev pub empty_password : PasswordData
empty_password = record {
  g_auth_steps = 0;
  force_expiration = false;
  password_mode = mode_plain;
  expiration = max_time;
  hash = [];
  ssalt = 255 ∷ 255 ∷ 255 ∷ 255 ∷ [];
}

-- `sPasswordBasicData`.
pub record PasswordBasicData : Type 0 where
  pub basic_mode : PasswordMode
  pub basic_ssalt : Bytes
  pub basic_expiration : ℕ
  pub basic_force : Bool

pub get_basic_data : PasswordData → PasswordBasicData
get_basic_data p = record {
  basic_mode = p.password_mode;
  basic_ssalt = p.ssalt;
  basic_expiration = p.expiration;
  basic_force = p.force_expiration;
}

pub is_password_expired : PasswordData → ℕ → Bool
is_password_expired p now = ltb p.expiration now || p.force_expiration

-- `SHA256` and `SHA512` of OpenSSL, on bytes.
pub record Digests : Type 0 where
  pub sha256 : Bytes → Bytes
  pub sha512 : Bytes → Bytes

module _ (d : Digests) where
  abbrev pub calc_sha256 : Bytes → Bytes
  calc_sha256 password = str_to_hex (d.sha256 password)

  abbrev pub calc_sha512 : Bytes → Bytes
  calc_sha512 password = str_to_hex (d.sha512 password)

  abbrev pub calc_ssha256 : Bytes → Bytes → Bytes
  calc_ssha256 password ssalt = str_to_hex (d.sha256 (password ++ ssalt))

  abbrev pub calc_ssha512 : Bytes → Bytes → Bytes
  calc_ssha512 password ssalt = str_to_hex (d.sha512 (password ++ ssalt))

  -- What `genPassword` puts in the record for a mode; `salt` is what `createRandomSalt` writes.
  fill : PasswordMode → Bytes → Bytes → ℕ → PasswordData → PasswordData
  fill mode_notfound input salt steps r = r
  fill mode_plain input salt steps r = record r { hash = input }
  fill mode_sha256 input salt steps r = record r { hash = calc_sha256 input }
  fill mode_sha512 input salt steps r = record r { hash = calc_sha512 input }
  fill mode_ssha256 input salt steps r = record r { ssalt = salt; hash = calc_ssha256 input salt }
  fill mode_ssha512 input salt steps r = record r { ssalt = salt; hash = calc_ssha512 input salt }
  fill mode_gauthtime input salt steps r = record r { hash = input; g_auth_steps = steps }
  fill (mode_other n) input salt steps r = r

  pub gen_password : Bytes → PasswordMode → Bool → ℕ → ℕ → Bytes → PasswordData
  unfolding fill
  gen_password input mode force date steps salt =
      fill mode input salt steps (record empty_password {
        password_mode = mode;
        force_expiration = force;
        expiration = date;
      })

  validate_cram : Bytes → Bytes → Bytes → AuthReason
  validate_cram from_db input cram_salt = not_implemented

  validate_gauth : Bytes → Bytes → AuthReason
  validate_gauth seed token = not_implemented

  -- The second `switch`, on `toCompare` and `saltedHash`.
  compare_by : AuthMode → PasswordData → Bytes → Bytes → Bytes → Bool → AuthReason
  unfolding validate_cram
  compare_by plain stored input cram_salt to_compare salted_hash =
      if bytes_eq stored.hash to_compare then authenticated else bad_password
  compare_by cram stored input cram_salt to_compare salted_hash =
      if salted_hash then internal_error else validate_cram stored.hash input cram_salt

  -- The first `switch`. A mode with no name has no case there, and leaves `toCompare` empty.
  validate_by : PasswordMode → PasswordData → Bytes → Bytes → AuthMode → AuthReason
  unfolding compare_by validate_gauth
  validate_by mode_notfound stored input cram_salt mode = internal_error
  validate_by mode_plain stored input cram_salt mode =
      compare_by mode stored input cram_salt input false
  validate_by mode_sha256 stored input cram_salt mode =
      compare_by mode stored input cram_salt (calc_sha256 input) false
  validate_by mode_sha512 stored input cram_salt mode =
      compare_by mode stored input cram_salt (calc_sha512 input) false
  validate_by mode_ssha256 stored input cram_salt mode =
      compare_by mode stored input cram_salt (calc_ssha256 input stored.ssalt) true
  validate_by mode_ssha512 stored input cram_salt mode =
      compare_by mode stored input cram_salt (calc_ssha512 input stored.ssalt) true
  validate_by mode_gauthtime stored input cram_salt mode = validate_gauth stored.hash input
  validate_by (mode_other n) stored input cram_salt mode =
      compare_by mode stored input cram_salt [] false

  pub validate_password : ℕ → PasswordData → Bytes → Bytes → AuthMode → AuthReason
  unfolding validate_by is_password_expired
  validate_password now stored input cram_salt mode =
      if is_password_expired stored now
      then expired_password
      else validate_by stored.password_mode stored input cram_salt mode
