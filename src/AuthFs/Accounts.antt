-- ===== src/AuthFs/Accounts.antt =====
-- iauth_fs_accounts.cpp: what an account's files hold.
use cx_framework.Base.{
  ℕ, ◌%◌, ◌^◌, Bool, true, false, not, ◌&&◌, [], ◌++◌, Bytes, bytes_eq, codes, if◌then◌else◌,
}
use cx_framework.AuthFs.{FileSystem, Json, accounts, child, is_empty}
use cx_framework.AuthFs.Paths.{item_path, account_dir}

module _ (fs : FileSystem) (json : Json) (dir : Bytes) where
  -- `loadJSONFile` and `saveJSONFile`.
  unfoldable pub load_json_file : Bytes → fs.State → json.Value
  load_json_file path s = json.parse (fs.read_file s path)

  unfoldable pub save_json_file : Bytes → json.Value → fs.State → fs.State
  save_json_file path v s = (fs.write_file s path (json.styled v)).0

  -- The files of an account.
  unfoldable pub activation_path : Bytes → Bytes → Bytes
  activation_path name domain =
      child (item_path fs dir accounts name domain) (codes "acct.activation")

  unfoldable pub details_path : Bytes → Bytes → Bytes
  details_path name domain = child (item_path fs dir accounts name domain) (codes "acct.details")

  -- With the text of the index, which `std::to_string` gives.
  unfoldable pub password_path : Bytes → Bytes → Bytes → Bytes
  password_path index name domain =
      child (item_path fs dir accounts name domain) (codes "acct.passwd." ++ index)

  -- `if (!workingAuthDir.empty()) if ((r=_pAccountDir(…))==true) { … }`.
  unfoldable pub with_account :
      Bytes → Bytes → (fs.State → fs.State × Bool) → fs.State → fs.State × Bool
  with_account name domain change s =
      let changed = change s in
      if not (is_empty dir) && account_dir fs dir name domain s then changed else (s, false)

  -- A file that is read, changed and written again.
  unfoldable pub rewrite : Bytes → (json.Value → json.Value) → fs.State → fs.State × Bool
  rewrite path change s = (save_json_file path (change (load_json_file path s)) s, true)

  unfoldable pub account_disable : Bytes → Bytes → Bool → fs.State → fs.State × Bool
  account_disable name domain disabled =
      with_account name domain
        (rewrite (activation_path name domain) (json.set_flag (codes "enabled") (not disabled)))

  unfoldable pub account_confirm : Bytes → Bytes → Bytes → fs.State → fs.State × Bool
  account_confirm name token domain = with_account name domain λ s.
      let act = load_json_file (activation_path name domain) s in
      let confirmed =
        rewrite (activation_path name domain) (json.set_flag (codes "confirmed") true) s in
      if bytes_eq (json.text act (codes "confirmationToken")) token then confirmed else (s, false)

  -- `accountChangePassword`, with the JSON value of the password data.
  unfoldable pub account_change_password :
      Bytes → json.Value → Bytes → Bytes → fs.State → fs.State × Bool
  account_change_password name password index domain =
      with_account name domain
        λ s. (save_json_file (password_path index name domain) password s, true)

  unfoldable pub account_change_description : Bytes → Bytes → Bytes → fs.State → fs.State × Bool
  account_change_description name description domain =
      with_account name domain
        (rewrite (details_path name domain) (json.set_text (codes "description") description))

  unfoldable pub account_change_email : Bytes → Bytes → Bytes → fs.State → fs.State × Bool
  account_change_email name email domain =
      with_account name domain
        (rewrite (details_path name domain) (json.set_text (codes "email") email))

  unfoldable pub account_change_extra_data : Bytes → Bytes → Bytes → fs.State → fs.State × Bool
  account_change_extra_data name extra_data domain =
      with_account name domain
        (rewrite (details_path name domain) (json.set_text (codes "extraData") extra_data))

  -- The expiration is cut to 32 bits.
  unfoldable pub account_change_expiration : Bytes → Bytes → ℕ → fs.State → fs.State × Bool
  account_change_expiration name domain expiration = with_account name domain (
      rewrite (activation_path name domain)
        (json.set_number (codes "expiration") (expiration % 2 ^ 32)))

  -- What is read of an account, and what is answered for one that is not there.
  unfoldable pub of_account {ℓ} : {A : Type ℓ} → Bytes → Bytes → A → A → fs.State → A
  of_account name domain there absent s =
      if not (is_empty dir) && account_dir fs dir name domain s then there else absent

  unfoldable pub is_account_disabled : Bytes → Bytes → fs.State → Bool
  is_account_disabled name domain s =
      of_account name domain
        (not (json.flag (load_json_file (activation_path name domain) s) (codes "enabled"))) true s

  unfoldable pub is_account_confirmed : Bytes → Bytes → fs.State → Bool
  is_account_confirmed name domain s =
      of_account name domain
        (json.flag (load_json_file (activation_path name domain) s) (codes "confirmed")) false s

  unfoldable pub is_account_super_user : Bytes → Bytes → fs.State → Bool
  is_account_super_user name domain s =
      of_account name domain
        (fs.readable s (child (item_path fs dir accounts name domain) (codes "superuser"))) false s

  unfoldable pub account_detail : Bytes → Bytes → Bytes → fs.State → Bytes
  account_detail key name domain s =
      of_account name domain (json.text (load_json_file (details_path name domain) s) key) [] s

  unfoldable pub account_description : Bytes → Bytes → fs.State → Bytes
  account_description = account_detail (codes "description")

  unfoldable pub account_email : Bytes → Bytes → fs.State → Bytes
  account_email = account_detail (codes "email")

  unfoldable pub account_extra_data : Bytes → Bytes → fs.State → Bytes
  account_extra_data = account_detail (codes "extraData")

  unfoldable pub account_confirmation_token : Bytes → Bytes → fs.State → Bytes
  account_confirmation_token name domain s =
      of_account name domain
        (json.text (load_json_file (activation_path name domain) s) (codes "confirmationToken")) []
        s

  unfoldable pub account_expiration_date : Bytes → Bytes → fs.State → ℕ
  account_expiration_date name domain s =
      of_account name domain
        (json.number (load_json_file (activation_path name domain) s) (codes "expiration")) 0 s

  -- `retrievePassword`: whether it is found, with its JSON value.
  unfoldable pub retrieve_password : Bytes → Bytes → Bytes → fs.State → Bool × json.Value
  retrieve_password name domain index s =
      of_account name domain (true, load_json_file (password_path index name domain) s)
        (false, json.null) s
