-- ===== src/AuthFs/Associations.antt =====
-- iauth_fs_attributes.cpp and iauth_fs_groups.cpp: which accounts, groups and attributes belong
-- together. Each of the two has a file for the other.
use cx_framework.Base.{Bool, false, not, ◌&&◌, List, [], Bytes, if◌then◌else◌}
use cx_framework.AuthFs.{
  FileSystem, encoded, Kind, accounts, groups, attribs, child, kind_name, if_ok, is_empty,
}
use cx_framework.AuthFs.Paths.{touch_file, rem_file, list_dir, item_path, item_dir}

module _ (fs : FileSystem) (dir : Bytes) where
  -- The directory of the things of another kind that belong to one, and the file for one of them.
  unfoldable pub links_path : Kind → Bytes → Kind → Bytes → Bytes
  links_path kind name other domain = child (item_path fs dir kind name domain) (kind_name other)

  unfoldable pub link_path : Kind → Bytes → Kind → Bytes → Bytes → Bytes
  link_path kind name other other_name domain =
      child (links_path kind name other domain) (encoded other_name)

  unfoldable pub links_dir : Kind → Bytes → Kind → Bytes → fs.State → Bool
  links_dir kind name other domain s =
      item_dir fs dir kind name domain s && fs.writable s (links_path kind name other domain)

  -- Both files touched or removed, where both things are there with their directories.
  unfoldable pub link :
      (Bytes → fs.State → fs.State × Bool)
      → Kind
      → Bytes
      → Kind
      → Bytes
      → Bytes
      → fs.State
      → fs.State × Bool
  link act kind name other other_name domain s =
      let acted =
        if_ok (act (link_path kind name other other_name domain) s)
          (act (link_path other other_name kind name domain)) in
      if not (is_empty dir)
        && (links_dir kind name other domain s && links_dir other other_name kind domain s)
      then acted
      else (s, false)

  unfoldable pub attrib_group_add : Bytes → Bytes → Bytes → fs.State → fs.State × Bool
  attrib_group_add attrib group = link (touch_file fs dir) attribs attrib groups group

  unfoldable pub attrib_group_remove : Bytes → Bytes → Bytes → fs.State → fs.State × Bool
  attrib_group_remove attrib group = link (rem_file fs dir) attribs attrib groups group

  unfoldable pub attrib_account_add : Bytes → Bytes → Bytes → fs.State → fs.State × Bool
  attrib_account_add attrib account = link (touch_file fs dir) attribs attrib accounts account

  unfoldable pub attrib_account_remove : Bytes → Bytes → Bytes → fs.State → fs.State × Bool
  attrib_account_remove attrib account = link (rem_file fs dir) attribs attrib accounts account

  unfoldable pub group_account_add : Bytes → Bytes → Bytes → fs.State → fs.State × Bool
  group_account_add group account = link (touch_file fs dir) groups group accounts account

  unfoldable pub group_account_remove : Bytes → Bytes → Bytes → fs.State → fs.State × Bool
  group_account_remove group account = link (rem_file fs dir) groups group accounts account

  -- The names that belong to one.
  unfoldable pub linked : Kind → Bytes → Kind → Bytes → fs.State → List Bytes
  linked kind name other domain s =
      if not (is_empty dir) && links_dir kind name other domain s
      then list_dir fs dir (links_path kind name other domain) s
      else []

  unfoldable pub group_attribs : Bytes → Bytes → fs.State → List Bytes
  group_attribs group = linked groups group attribs

  unfoldable pub attrib_groups : Bytes → Bytes → fs.State → List Bytes
  attrib_groups attrib = linked attribs attrib groups

  unfoldable pub attrib_accounts : Bytes → Bytes → fs.State → List Bytes
  attrib_accounts attrib = linked attribs attrib accounts

  unfoldable pub account_direct_attribs : Bytes → Bytes → fs.State → List Bytes
  account_direct_attribs account = linked accounts account attribs

  unfoldable pub group_accounts : Bytes → Bytes → fs.State → List Bytes
  group_accounts group = linked groups group accounts

  unfoldable pub account_groups : Bytes → Bytes → fs.State → List Bytes
  account_groups account = linked accounts account groups

  unfoldable pub account_validate_direct_attribute : Bytes → Bytes → Bytes → fs.State → Bool
  account_validate_direct_attribute account attrib domain s =
      fs.readable s (link_path attribs attrib accounts account domain)

  unfoldable pub group_validate_attribute : Bytes → Bytes → Bytes → fs.State → Bool
  group_validate_attribute group attrib domain s =
      fs.readable s (link_path attribs attrib groups group domain)
