-- ===== src/AuthFs/Tests.antt =====
-- The theorems on accounts and attributes at a working directory with an account, a group and an attribute.
use cx_framework.Base.{
  true, false, Bytes, [], none, some, bytes_eq, codes, length, ap, ◌≡◌, refl, arith,
}
use cx_framework.AuthStrings.{to_url_encoded, write, to_hex}
use cx_framework.AuthFs.{encoded, domain_of}
use cx_framework.AuthFs.Paths.{
  domain_add, domain_dir, domain_dir_create, ensure_dir, rem_file, account_exist, group_exist,
  item_dir, account_dir, group_dir, attrib_dir, item_dir_create, account_dir_create,
  group_dir_create, item_path, kind_path, domain_path, touch_file,
}
use cx_framework.AuthFs.Accounts.{
  with_account, rewrite, load_json_file, save_json_file, activation_path, details_path,
  password_path, account_disable, is_account_disabled,
}
use cx_framework.AuthFs.Associations.{
  links_path, link, links_dir, link_path, attrib_group_add, attrib_group_remove,
  group_validate_attribute,
}
use cx_framework.AuthFs.Groups.{
  ensure_links, saved, save_description, description_path, account_add, group_add, attrib_add,
}
use cx_framework.AuthFs.Instances.{
  Files, put, there, key, files, files-IsFileSystem, objects, objects-IsJson,
}
use cx_framework.AuthFs.Status.{
  is_account_disabled-account_disable, is_account_disabled-account_disable_other,
}
use cx_framework.AuthFs.Membership.{group_validate_attribute-after}

abbrev work_dir : Bytes
work_dir = codes "w"

abbrev home : Bytes
home = codes "d"

abbrev ann : Bytes
ann = codes "ann"

abbrev bob : Bytes
bob = codes "bo/b"

abbrev staff : Bytes
staff = codes "staff"

abbrev login : Bytes
login = codes "login"

abbrev add_account : Bytes → Files → Files
add_account name s =
    (account_add files objects work_dir name [] home [] [] [] 0 true true false [] s).0

abbrev prepared : Files
prepared =
    let s₀ = put work_dir (some []) (λ p. none) in
    let s₁ = (domain_add files work_dir home s₀).0 in
    let s₂ = add_account bob (add_account ann s₁) in
    let s₃ = (group_add files objects work_dir staff [] home s₂).0 in
    (attrib_add files objects work_dir login [] home s₃).0

disabled_ann : (account_disable files objects work_dir ann home true prepared).1 ≡ true
unfolding account_disable with_account rewrite load_json_file save_json_file activation_path
    account_add group_add attrib_add domain_add domain_dir domain_dir_create ensure_dir
    account_exist group_exist item_dir account_dir group_dir attrib_dir item_dir_create
    account_dir_create group_dir_create item_path kind_path domain_path encoded to_url_encoded write
    to_hex ensure_links saved save_description description_path links_path details_path
    password_path touch_file put there bytes_eq key
disabled_ann = refl

is_account_disabled-account_disable_example :
    is_account_disabled files objects work_dir ann home
      (account_disable files objects work_dir ann home true prepared).0
    ≡ true
is_account_disabled-account_disable_example =
    is_account_disabled-account_disable files files-IsFileSystem objects objects-IsJson work_dir ann
      home true prepared (omega arith) (omega arith) (λ text. refl) disabled_ann

names_differ : ¬ ((bob ≡ ann) × (domain_of home ≡ domain_of home))
names_differ = λ e. omega (arith, ap length (e.0))

is_account_disabled-account_disable_other_example :
    is_account_disabled files objects work_dir bob home
      (account_disable files objects work_dir ann home true prepared).0
    ≡ is_account_disabled files objects work_dir bob home prepared
is_account_disabled-account_disable_other_example =
    is_account_disabled-account_disable_other files files-IsFileSystem objects objects-IsJson
      work_dir ann home bob home true prepared (omega arith) (omega arith) (omega arith)
      (omega arith) names_differ

abbrev given : Files
given = (attrib_group_add files work_dir login staff home prepared).0

was_given : (attrib_group_add files work_dir login staff home prepared).1 ≡ true
unfolding attrib_group_add attrib_group_remove link links_dir link_path rem_file account_disable
    with_account rewrite load_json_file save_json_file activation_path account_add group_add
    attrib_add domain_add domain_dir domain_dir_create ensure_dir account_exist group_exist item_dir
    account_dir group_dir attrib_dir item_dir_create account_dir_create group_dir_create item_path
    kind_path domain_path encoded to_url_encoded write to_hex ensure_links saved save_description
    description_path links_path details_path password_path touch_file put there bytes_eq key
was_given = refl

was_taken : (attrib_group_remove files work_dir login staff home given).1 ≡ true
unfolding attrib_group_add attrib_group_remove link links_dir link_path rem_file account_disable
    with_account rewrite load_json_file save_json_file activation_path account_add group_add
    attrib_add domain_add domain_dir domain_dir_create ensure_dir account_exist group_exist item_dir
    account_dir group_dir attrib_dir item_dir_create account_dir_create group_dir_create item_path
    kind_path domain_path encoded to_url_encoded write to_hex ensure_links saved save_description
    description_path links_path details_path password_path touch_file put there bytes_eq key
was_taken = refl

group_validate_attribute-after_example :
    (group_validate_attribute files work_dir staff login home
        (attrib_group_add files work_dir login staff home prepared).0
      ≡ true)
    × (group_validate_attribute files work_dir staff login home
          (attrib_group_remove files work_dir login staff home given).0
        ≡ false)
group_validate_attribute-after_example =
    group_validate_attribute-after files files-IsFileSystem work_dir login staff home prepared given
      was_given was_taken
