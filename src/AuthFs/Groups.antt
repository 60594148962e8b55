-- ===== src/AuthFs/Groups.antt =====
-- iauth_fs_groups.cpp, iauth_fs_attributes.cpp and iauth_fs_accounts.cpp: making and removing accounts,
-- groups and attributes.
use cx_framework.Base.{
  ℕ, ◌%◌, ◌^◌, Bool, true, false, not, ◌&&◌, List, [], ◌∷◌, Bytes, codes, if◌then◌else◌,
}
use cx_framework.AuthFs.{FileSystem, Json, Kind, accounts, groups, attribs, child, if_ok, is_empty}
use cx_framework.AuthFs.Paths.{
  ensure_dir, touch_file, item_path, account_dir, group_dir, attrib_dir, account_exist, group_exist,
  account_dir_create, group_dir_create,
}
use cx_framework.AuthFs.Accounts.{
  load_json_file, save_json_file, activation_path, details_path, password_path,
}
use cx_framework.AuthFs.Associations.{
  links_path, attrib_group_remove, attrib_account_remove, group_account_remove, group_attribs,
  attrib_groups, attrib_accounts, account_direct_attribs, group_accounts, account_groups,
}

module _ (fs : FileSystem) (json : Json) (dir : Bytes) where
  -- A call for each name, whatever it returns.
  unfoldable pub for_each : (Bytes → fs.State → fs.State × Bool) → List Bytes → fs.State → fs.State
  for_each act [] s = s
  for_each act (name ∷ names) s = for_each act names (act name s).0

  -- The directories for what belongs to a thing.
  unfoldable pub ensure_links : Kind → Bytes → Kind → Kind → Bytes → fs.State → fs.State × Bool
  ensure_links kind name first second domain s =
      if_ok (ensure_dir fs dir (links_path fs dir kind name first domain) s)
        (ensure_dir fs dir (links_path fs dir kind name second domain))

  -- What is saved behind directories that were made.
  unfoldable pub saved : (fs.State → fs.State) → fs.State × Bool → fs.State × Bool
  saved save (s, made) = if made then (save s, true) else (s, false)

  -- `accountAdd`, with the JSON value of the password data and a confirmation token.
  unfoldable pub account_add :
      Bytes
      → json.Value
      → Bytes
      → Bytes
      → Bytes
      → Bytes
      → ℕ
      → Bool
      → Bool
      → Bool
      → Bytes
      → fs.State
      → fs.State × Bool
  unfolding ensure_links saved
  account_add name password domain email description extra_data expiration enabled confirmed
        superuser token s =
      let activation = json.set_number (codes "expiration") (expiration % 2 ^ 32) (
        json.set_flag (codes "confirmed") confirmed (
          json.set_flag (codes "enabled") enabled
            (json.set_text (codes "confirmationToken") token json.null))) in
      let details = json.set_text (codes "extraData") extra_data (
        json.set_text (codes "description") description
          (json.set_text (codes "email") email json.null)) in
      let save = λ (s₁ : fs.State).
        let s₂ =
          save_json_file fs json dir (activation_path fs json dir name domain) activation s₁ in
        let s₃ = save_json_file fs json dir (details_path fs json dir name domain) details s₂ in
        let s₄ =
          save_json_file fs json dir (password_path fs json dir (codes "0") name domain) password
            s₃ in
        let s₅ =
          (touch_file fs dir (child (item_path fs dir accounts name domain) (codes "superuser"))
            s₄).0 in
        if superuser then s₅ else s₄ in
      let made =
        if_ok (account_dir_create fs dir name domain s)
          (ensure_links accounts name attribs groups domain) in
      if is_empty dir
      then (s, false)
      else if account_exist fs dir name domain s
      then (s, false)
      else saved save made

  pub account_remove : Bytes → Bytes → fs.State → fs.State × Bool
  unfolding for_each
  account_remove name domain s =
      let s₁ =
        for_each (λ attrib. attrib_account_remove fs dir attrib name domain)
          (account_direct_attribs fs dir name domain s) s in
      let s₂ =
        for_each (λ group. group_account_remove fs dir group name domain)
          (account_groups fs dir name domain s₁) s₁ in
      let removed = fs.remove_all s₂ (item_path fs dir accounts name domain) in
      if not (is_empty dir) && account_dir fs dir name domain s then (removed, true) else (s, false)

  unfoldable pub description_path : Kind → Bytes → Bytes → Bytes → Bytes
  description_path kind file name domain = child (item_path fs dir kind name domain) file

  unfoldable pub save_description : Kind → Bytes → Bytes → Bytes → Bytes → fs.State → fs.State
  unfolding description_path
  save_description kind file name domain description =
      save_json_file fs json dir (description_path kind file name domain)
        (json.set_text (codes "description") description json.null)

  unfoldable pub group_add : Bytes → Bytes → Bytes → fs.State → fs.State × Bool
  unfolding ensure_links saved save_description
  group_add name description domain s =
      let made =
        if_ok (group_dir_create fs dir name domain s)
          (ensure_links groups name accounts attribs domain) in
      if is_empty dir
      then (s, false)
      else if group_exist fs dir name domain s
      then (s, false)
      else saved (save_description groups (codes "group.details") name domain description) made

  pub group_remove : Bytes → Bytes → fs.State → fs.State × Bool
  unfolding for_each
  group_remove name domain s =
      let s₁ =
        for_each (λ account. group_account_remove fs dir name account domain)
          (group_accounts fs dir name domain s) s in
      let s₂ =
        for_each (λ attrib. attrib_group_remove fs dir attrib name domain)
          (group_attribs fs dir name domain s₁) s₁ in
      let removed = fs.remove_all s₂ (item_path fs dir groups name domain) in
      if not (is_empty dir) && group_dir fs dir name domain s then (removed, true) else (s, false)

  -- It returns true where there is no working directory.
  pub group_change_description : Bytes → Bytes → Bytes → fs.State → fs.State × Bool
  unfolding save_description
  group_change_description name description domain s =
      let changed = save_description groups (codes "group.details") name domain description s in
      if is_empty dir
      then (s, true)
      else if group_dir fs dir name domain s
      then (changed, true)
      else (s, false)

  pub group_description : Bytes → Bytes → fs.State → Bytes
  unfolding description_path
  group_description name domain s =
      if not (is_empty dir) && group_dir fs dir name domain s
      then json.text
          (load_json_file fs json dir (description_path groups (codes "group.details") name domain)
            s)
          (codes "description")
      else []

  -- The directory is made without a test of the domain.
  unfoldable pub attrib_add : Bytes → Bytes → Bytes → fs.State → fs.State × Bool
  unfolding ensure_links saved save_description
  attrib_add name description domain s =
      let made =
        if_ok (fs.mkdir s (item_path fs dir attribs name domain))
          (ensure_links attribs name accounts groups domain) in
      if is_empty dir
      then (s, false)
      else if attrib_dir fs dir name domain s
      then (s, false)
      else saved (save_description attribs (codes "attribs.details") name domain description) made

  -- The calls for the accounts and the groups have the name and the domain in each other's place.
  pub attrib_remove : Bytes → Bytes → fs.State → fs.State × Bool
  unfolding for_each
  attrib_remove name domain s =
      let s₁ =
        for_each (λ account. attrib_account_remove fs dir name domain account)
          (attrib_accounts fs dir name domain s) s in
      let s₂ =
        for_each (λ group. attrib_group_remove fs dir name domain group)
          (attrib_groups fs dir name domain s₁) s₁ in
      let removed = fs.remove_all s₂ (item_path fs dir attribs name domain) in
      if not (is_empty dir) && attrib_dir fs dir name domain s then (removed, true) else (s, false)

  pub attrib_change_description : Bytes → Bytes → Bytes → fs.State → fs.State × Bool
  unfolding save_description
  attrib_change_description name description domain s =
      let changed = save_description attribs (codes "attribs.details") name domain description s in
      if not (is_empty dir) && attrib_dir fs dir name domain s then (changed, true) else (s, false)
