-- ===== src/AuthFs/Membership.antt =====
-- iauth_fs_attributes.cpp and iauth_fs_groups.cpp: what is read after attributes are given and taken.
use cx_framework.Base.{
  Bool, true, false, not, ◌&&◌, Bytes, codes, if◌then◌else◌, ◌≡◌, refl, ap, ◌∙◌,
}
use cx_framework.AuthFs.{FileSystem, Kind, groups, attribs, if_ok, is_empty}
use cx_framework.AuthFs.Paths.{touch_file, rem_file}
use cx_framework.AuthFs.Associations.{
  link_path, links_dir, link, attrib_group_add, attrib_group_remove, group_validate_attribute,
}
use cx_framework.AuthFs.Laws.{IsFileSystem}

-- A call under a test that has succeeded.
if_guarded :
    {S : Type 0}
    → (b : Bool) → (acted : S × Bool) → (s : S) → (if b then acted else (s, false)).1 ≡ true
    → ((if b then acted else (s, false)) ≡ acted) × (acted.1 ≡ true)
if_guarded true acted s h = (refl, h)
if_guarded false acted s h = absurd (cc h)

-- Two calls that have both succeeded.
if_ok-both :
    {S : Type 0}
    → (r : S × Bool) → (next : S → S × Bool) → (if_ok r next).1 ≡ true
    → (r.1 ≡ true) × ((next r.0).1 ≡ true) × (if_ok r next ≡ next r.0)
if_ok-both (s, true) next h = (refl, h, refl)
if_ok-both (s, false) next h = absurd (cc h)

module _ (fs : FileSystem) (laws : IsFileSystem fs) (dir : Bytes) where
  link-done :
      (act : Bytes → fs.State → fs.State × Bool) (kind other : Kind)
      (name other_name domain : Bytes) (s : fs.State)
      → (link fs dir act kind name other other_name domain s).1 ≡ true
      → ((act (link_path fs dir kind name other other_name domain) s).1 ≡ true)
        × (link fs dir act kind name other other_name domain s
            ≡ act
                (link_path fs dir other other_name kind name domain)
                (act (link_path fs dir kind name other other_name domain) s).0)
  unfolding link
  link-done act kind other name other_name domain s h =
      let first = act (link_path fs dir kind name other other_name domain) s in
      let (same, done) =
        if_guarded
          (not (is_empty dir)
            && (links_dir fs dir kind name other domain s
                && links_dir fs dir other other_name kind domain s))
          (if_ok first (act (link_path fs dir other other_name kind name domain))) s h in
      let (one, two, both) =
        if_ok-both first (act (link_path fs dir other other_name kind name domain)) done in
      (one, same ∙ both)

  -- The file for the other one is there after a link, and is not after it was removed.
  link-touched :
      (kind other : Kind) (name other_name domain : Bytes) (s : fs.State)
      → (link fs dir (touch_file fs dir) kind name other other_name domain s).1 ≡ true
      → fs.readable
          (link fs dir (touch_file fs dir) kind name other other_name domain s).0
          (link_path fs dir kind name other other_name domain)
        ≡ true
  unfolding touch_file
  link-touched kind other name other_name domain s h =
      let here = link_path fs dir kind name other other_name domain in
      let there = link_path fs dir other other_name kind name domain in
      let (one, both) = link-done (touch_file fs dir) kind other name other_name domain s h in
      ap (λ r. fs.readable r.0 here) both
      ∙ laws.readable-write_file_other (fs.write_file s here (codes "1")).0 there here (codes "1")
          (laws.readable-write_file s here (codes "1") one)

  link-removed :
      (kind other : Kind) (name other_name domain : Bytes) (s : fs.State)
      → (link fs dir (rem_file fs dir) kind name other other_name domain s).1 ≡ true
      → fs.readable
          (link fs dir (rem_file fs dir) kind name other other_name domain s).0
          (link_path fs dir kind name other other_name domain)
        ≡ false
  unfolding rem_file
  link-removed kind other name other_name domain s h =
      let here = link_path fs dir kind name other other_name domain in
      let there = link_path fs dir other other_name kind name domain in
      let (one, both) = link-done (rem_file fs dir) kind other name other_name domain s h in
      ap (λ r. fs.readable r.0 here) both
      ∙ laws.readable-unlink_other (fs.unlink s here).0 there here (laws.readable-unlink s here one)

  -- An attribute that was given to a group, by a call that returned true, is validated for the group, and
  -- one that was then taken, by a call that returned true in any later state, is not.
  pub group_validate_attribute-after :
      (attrib group domain : Bytes) (s t : fs.State)
      → (attrib_group_add fs dir attrib group domain s).1 ≡ true
      → (attrib_group_remove fs dir attrib group domain t).1 ≡ true
      → (group_validate_attribute fs dir group attrib domain
            (attrib_group_add fs dir attrib group domain s).0
          ≡ true)
        × (group_validate_attribute fs dir group attrib domain
              (attrib_group_remove fs dir attrib group domain t).0
            ≡ false)
  unfolding attrib_group_add attrib_group_remove group_validate_attribute
  group_validate_attribute-after attrib group domain s t added removed = (
    link-touched attribs groups attrib group domain s added,
    link-removed attribs groups attrib group domain t removed,
  )
