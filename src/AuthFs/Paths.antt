-- ===== src/AuthFs/Paths.antt =====
-- iauth_fs.cpp, iauth_fs_domains.cpp and the paths of iauth_fs_accounts.cpp, iauth_fs_groups.cpp and
-- iauth_fs_attributes.cpp.
use cx_framework.Base.{Bool, true, false, not, ◌&&◌, List, [], map, Bytes, codes, if◌then◌else◌}
use cx_framework.AuthStrings.{from_url_encoded}
use cx_framework.AuthFs.{
  FileSystem, encoded, domain_of, Kind, accounts, groups, attribs, kind_name, child, if_ok,
  is_empty,
}

-- `workingAuthDir` is `dir`.
module _ (fs : FileSystem) (dir : Bytes) where
  -- `access(path, W_OK) && mkdir(path, 0750)`.
  unfoldable pub ensure_dir : Bytes → fs.State → fs.State × Bool
  ensure_dir path s = if fs.writable s path then (s, true) else fs.mkdir s path

  -- `_pTouchFile`, `_pRemFile` and `_pListDir`.
  unfoldable pub touch_file : Bytes → fs.State → fs.State × Bool
  touch_file path s = fs.write_file s path (codes "1")

  unfoldable pub rem_file : Bytes → fs.State → fs.State × Bool
  rem_file path s = fs.unlink s path

  unfoldable pub list_dir : Bytes → fs.State → List Bytes
  list_dir path s = map from_url_encoded (fs.regular_files s path)

  unfoldable pub domain_path : Bytes → Bytes
  domain_path domain = child dir (encoded (domain_of domain))

  unfoldable pub kind_path : Kind → Bytes → Bytes
  unfolding domain_path
  kind_path kind domain = child (domain_path domain) (kind_name kind)

  unfoldable pub item_path : Kind → Bytes → Bytes → Bytes
  unfolding kind_path
  item_path kind name domain = child (kind_path kind domain) (encoded name)

  -- `_pDomainDir`.
  unfoldable pub domain_dir : Bytes → fs.State → Bool
  domain_dir domain s = fs.writable s dir && fs.writable s (domain_path domain)

  -- `_pDomainDirCreate`.
  unfoldable pub domain_dir_create : Bytes → fs.State → fs.State × Bool
  unfolding ensure_dir
  domain_dir_create domain s =
      let created = if_ok (ensure_dir (domain_path domain) s) (λ s₁.
        if_ok (ensure_dir (kind_path accounts domain) s₁) (λ s₂.
          if_ok (ensure_dir (kind_path groups domain) s₂)
            (ensure_dir (kind_path attribs domain)))) in
      if fs.writable s dir then created else (s, false)

  pub domain_list : fs.State → List Bytes
  unfolding list_dir
  domain_list s = if not (is_empty dir) && fs.writable s dir then list_dir dir s else []

  unfoldable pub domain_add : Bytes → fs.State → fs.State × Bool
  unfolding domain_dir_create domain_dir
  domain_add domain s =
      let created = domain_dir_create domain s in
      if domain_dir domain s then (s, false) else created

  pub domain_remove : Bytes → fs.State → fs.State × Bool
  unfolding domain_dir
  domain_remove domain s =
      let removed = fs.remove_all s (domain_path domain) in
      if domain_dir domain s then (removed, true) else (s, false)

  -- `_pAccountDir`, `_pGroupDir` and `_pAttribDir`: the thing is there.
  unfoldable pub item_dir : Kind → Bytes → Bytes → fs.State → Bool
  item_dir kind name domain s = fs.writable s dir && fs.writable s (item_path kind name domain)

  unfoldable pub account_dir : Bytes → Bytes → fs.State → Bool
  account_dir = item_dir accounts

  unfoldable pub group_dir : Bytes → Bytes → fs.State → Bool
  group_dir = item_dir groups

  unfoldable pub attrib_dir : Bytes → Bytes → fs.State → Bool
  attrib_dir = item_dir attribs

  -- `_pAccountExist` and `_pGroupExist`.
  unfoldable pub account_exist : Bytes → Bytes → fs.State → Bool
  account_exist name domain s = not (is_empty dir) && account_dir name domain s

  unfoldable pub group_exist : Bytes → Bytes → fs.State → Bool
  group_exist name domain s = not (is_empty dir) && group_dir name domain s

  -- `_pAccountDirCreate` and `_pGroupDirCreate`.
  unfoldable pub item_dir_create : Kind → Bytes → Bytes → fs.State → fs.State × Bool
  item_dir_create kind name domain s =
      let made = ensure_dir (item_path kind name domain) s in
      if domain_dir domain s then made else (s, false)

  unfoldable pub account_dir_create : Bytes → Bytes → fs.State → fs.State × Bool
  account_dir_create = item_dir_create accounts

  unfoldable pub group_dir_create : Bytes → Bytes → fs.State → fs.State × Bool
  group_dir_create = item_dir_create groups

  -- The things of a kind, for its directory: `accountsList` and `attribsList`; `groupsList` looks into
  -- the directory of the attributes.
  things_list : Kind → Bytes → fs.State → List Bytes
  unfolding list_dir
  things_list kind domain s =
      if fs.writable s dir && fs.writable s (kind_path kind domain)
      then list_dir (kind_path kind domain) s
      else []

  pub accounts_list : Bytes → fs.State → List Bytes
  unfolding things_list
  accounts_list = things_list accounts

  pub groups_list : Bytes → fs.State → List Bytes
  unfolding things_list
  groups_list = things_list attribs

  pub attribs_list : Bytes → fs.State → List Bytes
  unfolding things_list
  attribs_list = things_list attribs
