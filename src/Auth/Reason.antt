-- ===== src/Auth/Reason.antt =====
-- cxAuth/libcx_auth/src/datastructs: the enumerations of the authentication library.
use cx_framework.Base.{String, ℕ, Bool, true, false, ◌≡◌, arith, ◌↔◌}

-- `AuthReason`.
pub data AuthReason : Type 0 where
  authenticated internal_error not_implemented duplicated_session : AuthReason
  expired_password expired_account disabled_account unconfirmed_account : AuthReason
  bad_account bad_password invalid_authenticator session_limits_exceeded : AuthReason
  answer_timed_out expired unauthenticated : AuthReason

-- `reason == AUTH_REASON_AUTHENTICATED`.
abbrev pub is_authenticated_reason : AuthReason → Bool
is_authenticated_reason authenticated = true
is_authenticated_reason _ = false

-- `getAuthReasonText`, on the values of the enumeration.
pub auth_reason_text : AuthReason → String
auth_reason_text session_limits_exceeded = "Sessions limits exceeded"
auth_reason_text invalid_authenticator = "Invalid or undefined authenticator"
auth_reason_text duplicated_session = "Session ID Duplicated Error"
auth_reason_text authenticated = "Authenticated."
auth_reason_text internal_error = "Authentication Internal Error."
auth_reason_text not_implemented = "Authentication not implemented yet."
auth_reason_text expired_password = "Password expired."
auth_reason_text expired_account = "Account expired."
auth_reason_text disabled_account = "Account disabled."
auth_reason_text unconfirmed_account = "Account unconfirmed."
auth_reason_text bad_account = "Bad Account."
auth_reason_text bad_password = "Bad password."
auth_reason_text answer_timed_out = "Answer timed out."
auth_reason_text expired = "Expired authentication."
auth_reason_text unauthenticated = "Not authenticated yet."

pub is_authenticated_reason_iff :
    (r : AuthReason) → (is_authenticated_reason r ≡ true) ↔ (r ≡ authenticated)
is_authenticated_reason_iff r = ground arith

-- `PasswordModes`. A mode is read from a file by a cast, so it may be a number that has no name.
pub data PasswordMode : Type 0 where
  mode_plain mode_sha256 mode_sha512 mode_ssha256 mode_ssha512 mode_gauthtime : PasswordMode
  mode_notfound : PasswordMode
  mode_other : ℕ → PasswordMode

-- `AuthMode`.
pub data AuthMode : Type 0 where
  plain cram : AuthMode
