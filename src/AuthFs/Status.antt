-- ===== src/AuthFs/Status.antt =====
-- iauth_fs_accounts.cpp: what is read of accounts after one was disabled or enabled.
use cx_framework.Base.{
  Bool, Bool-cases, inl, inr, true, false, not, ◌&&◌, Bytes, All, codes, if◌then◌else◌, ◌≡◌, refl,
  sym, ap, ap₂, ◌∙◌,
}
use cx_framework.AuthStrings.RoundTrip.{IsAscii}
use cx_framework.AuthFs.{FileSystem, Json, domain_of, accounts, is_empty, child}
use cx_framework.AuthFs.Paths.{item_path, item_dir, account_dir}
use cx_framework.AuthFs.Accounts.{
  load_json_file, save_json_file, activation_path, with_account, rewrite, account_disable,
  of_account, is_account_disabled,
}
use cx_framework.AuthFs.Laws.{IsFileSystem, IsJson}
use cx_framework.AuthFs.Isolation.{item_file-injective, item_not_file, dir_not_file}

not-not : (b : Bool) → not (not b) ≡ b
not-not true = refl
not-not false = refl

module _ (fs : FileSystem) (laws : IsFileSystem fs) (json : Json) (json_laws : IsJson json)
    (dir : Bytes) where
  -- A file of an account that is written leaves the directories of accounts there.
  account_dir-write_file :
      (name domain owner owner_domain file b : Bytes) (s : fs.State)
      → All IsAscii name
      → All IsAscii domain
      → All IsAscii owner_domain
      → account_dir fs dir name domain
          (fs.write_file s (child (item_path fs dir accounts owner owner_domain) file) b).0
        ≡ account_dir fs dir name domain s
  unfolding account_dir item_dir
  account_dir-write_file name domain owner owner_domain file b s hn hd ho =
      let p = child (item_path fs dir accounts owner owner_domain) file in
      ap₂ (λ (x y : Bool). x && y)
        (laws.writable-write_file s p dir b (dir_not_file fs dir accounts owner owner_domain file))
        (laws.writable-write_file s p (item_path fs dir accounts name domain) b
          (item_not_file fs dir accounts name owner domain owner_domain file hn hd ho))

  -- What `isAccountDisabled` tells, by whether the account is there and by its file.
  abbrev told : Bool → Bytes → Bool
  told there b =
      if not (is_empty dir) && there then not (json.flag (json.parse b) (codes "enabled")) else true

  is_account_disabled-told :
      (name domain : Bytes) (s : fs.State)
      → is_account_disabled fs json dir name domain s
        ≡ told
            (account_dir fs dir name domain s)
            (fs.read_file s (activation_path fs json dir name domain))
  unfolding is_account_disabled of_account load_json_file
  is_account_disabled-told name domain s = refl

  -- What `accountDisable` writes.
  abbrev written : Bytes → Bytes → Bool → fs.State → Bytes
  written name domain b s = json.styled (
      json.set_flag (codes "enabled") (not b)
        (json.parse (fs.read_file s (activation_path fs json dir name domain))))

  account_disable-there :
      (name domain : Bytes) (b : Bool) (s : fs.State)
      → (not (is_empty dir) && account_dir fs dir name domain s) ≡ true
      → account_disable fs json dir name domain b s ≡ (
        (fs.write_file s (activation_path fs json dir name domain) (written name domain b s)).0,
        true,
      )
  unfolding account_disable with_account rewrite load_json_file save_json_file
  account_disable-there name domain b s h = rw h refl

  account_disable-absent :
      (name domain : Bytes) (b : Bool) (s : fs.State)
      → (not (is_empty dir) && account_dir fs dir name domain s) ≡ false
      → account_disable fs json dir name domain b s ≡ (s, false)
  unfolding account_disable with_account
  account_disable-absent name domain b s h = rw h refl

  -- Disabling or enabling an account does not change whether another one, of another name or in another
  -- domain, is disabled, where the names and the domains are of 7-bit characters.
  pub is_account_disabled-account_disable_other :
      (name domain other other_domain : Bytes) (b : Bool) (s : fs.State)
      → All IsAscii name
      → All IsAscii domain
      → All IsAscii other
      → All IsAscii other_domain
      → ¬ ((other ≡ name) × (domain_of other_domain ≡ domain_of domain))
      → is_account_disabled fs json dir other other_domain
          (account_disable fs json dir name domain b s).0
        ≡ is_account_disabled fs json dir other other_domain s
  unfolding activation_path
  is_account_disabled-account_disable_other name domain other other_domain b s hn hd ho hod differ =
      let p = activation_path fs json dir name domain in
      let q = activation_path fs json dir other other_domain in
      elim (Bool-cases (not (is_empty dir) && account_dir fs dir name domain s)) [
        | inl h ↦
            let t = (fs.write_file s p (written name domain b s)).0 in
            ap (λ r. is_account_disabled fs json dir other other_domain r.0)
              (account_disable-there name domain b s h)
            ∙ is_account_disabled-told other other_domain t
            ∙ ap₂ told
                (account_dir-write_file other other_domain name domain (codes "acct.activation")
                  (written name domain b s) s ho hod hd)
                (laws.read-write_file_other s p q (written name domain b s) λ same. differ (
                  item_file-injective fs dir accounts other name other_domain domain
                    (codes "acct.activation") ho hn hod hd same))
            ∙ sym (is_account_disabled-told other other_domain s)
        | inr h ↦
            ap (λ r. is_account_disabled fs json dir other other_domain r.0)
              (account_disable-absent name domain b s h)
      ]

  -- Where `accountDisable` has returned true and the account's file could be written, the account is
  -- disabled as was asked for; its name and its domain are of 7-bit characters.
  pub is_account_disabled-account_disable :
      (name domain : Bytes) (b : Bool) (s : fs.State)
      → All IsAscii name
      → All IsAscii domain
      → ((text : Bytes) → (fs.write_file s (activation_path fs json dir name domain) text).1 ≡ true)
      → (account_disable fs json dir name domain b s).1 ≡ true
      → is_account_disabled fs json dir name domain (account_disable fs json dir name domain b s).0
        ≡ b
  unfolding activation_path
  is_account_disabled-account_disable name domain b s hn hd writes returned =
      let p = activation_path fs json dir name domain in
      let w = written name domain b s in
      elim (Bool-cases (not (is_empty dir) && account_dir fs dir name domain s)) [
        | inl h ↦
            ap (λ r. is_account_disabled fs json dir name domain r.0)
              (account_disable-there name domain b s h)
            ∙ is_account_disabled-told name domain (fs.write_file s p w).0
            ∙ ap₂ told
                (account_dir-write_file name domain name domain (codes "acct.activation") w s hn hd
                  hd)
                (laws.read-write_file s p w (writes w))
            ∙ told_written name domain b s h
        | inr h ↦ absurd (returned_false name domain b s h returned)
      ]
    where
      told_written :
          (name domain : Bytes) (b : Bool) (s : fs.State)
          → (not (is_empty dir) && account_dir fs dir name domain s) ≡ true
          → told (account_dir fs dir name domain s) (written name domain b s) ≡ b
      told_written name domain b s h =
          let v = json.parse (fs.read_file s (activation_path fs json dir name domain)) in
          let set = json.set_flag (codes "enabled") (not b) v in
          rw h (
            ap (λ x. not (json.flag x (codes "enabled"))) (json_laws.parse-styled set)
            ∙ ap not (json_laws.flag-set_flag (codes "enabled") (not b) v)
            ∙ not-not b)

      returned_false :
          (name domain : Bytes) (b : Bool) (s : fs.State)
          → (not (is_empty dir) && account_dir fs dir name domain s) ≡ false
          → (account_disable fs json dir name domain b s).1 ≡ true
          → ⊥
      returned_false name domain b s h e =
          cc (e, ap (λ r. r.1) (account_disable-absent name domain b s h))
