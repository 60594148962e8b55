-- ===== src/AuthFs.antt =====
-- cxAuth/libcx_auth_fs/src: `IAuth_FS`, which keeps accounts, groups and attributes as directories and
-- files. Names and paths are their bytes; the file system and jsoncpp are parameters.
pub mod Paths
pub mod Accounts
pub mod Associations
pub mod Groups
pub mod Laws
pub mod Isolation
pub mod Status
pub mod Membership
mod Instances
mod Tests
use cx_framework.Base.{
  ℕ, Bool, true, false, not, ◌&&◌, Option, none, some, List, [], ◌∷◌, ◌++◌, Bytes, ◌==◌, codes,
  if◌then◌else◌,
}
use cx_framework.AuthStrings.{to_url_encoded}

-- What the code calls of the operating system and of boost: `access` for writing and for reading, the
-- regular files of a directory, the bytes of a file, and what changes them, with its success.
pub record FileSystem : Type 1 where
  pub State : Type 0
  pub writable : State → Bytes → Bool
  pub readable : State → Bytes → Bool
  pub regular_files : State → Bytes → List Bytes
  pub read_file : State → Bytes → Bytes
  pub write_file : State → Bytes → Bytes → State × Bool
  pub mkdir : State → Bytes → State × Bool
  pub unlink : State → Bytes → State × Bool
  pub remove_all : State → Bytes → State

-- What it calls of jsoncpp, on objects with texts, flags and numbers under their keys.
pub record Json : Type 1 where
  pub Value : Type 0
  pub null : Value
  pub parse : Bytes → Value
  pub styled : Value → Bytes
  pub text : Value → Bytes → Bytes
  pub flag : Value → Bytes → Bool
  pub number : Value → Bytes → ℕ
  pub set_text : Bytes → Bytes → Value → Value
  pub set_flag : Bytes → Bool → Value → Value
  pub set_number : Bytes → ℕ → Value → Value

-- The escaped name; `toURLEncoded` always gives one.
abbrev pub or_empty : Option Bytes → Bytes
or_empty none = []
or_empty (some out) = out

unfoldable pub encoded : Bytes → Bytes
encoded name = or_empty (to_url_encoded name)

abbrev pub default_domain : Bytes
default_domain = codes "default"

-- `if (domainName == "") domainName = "default";`
abbrev pub domain_of : Bytes → Bytes
domain_of [] = default_domain
domain_of (c ∷ name) = c ∷ name

-- The three kinds of things that a domain has.
pub data Kind : Type 0 where
  accounts : Kind
  groups : Kind
  attribs : Kind

abbrev pub kind_name : Kind → Bytes
kind_name accounts = codes "accounts"
kind_name groups = codes "groups"
kind_name attribs = codes "attribs"

-- `path + "/" + name`.
abbrev pub child : Bytes → Bytes → Bytes
child path name = path ++ b'/' ∷ name

-- Calls that change the file system, one after the other while they succeed.
abbrev pub if_ok : {S : Type 0} → S × Bool → (S → S × Bool) → S × Bool
if_ok (s, ok) next = if ok then next s else (s, false)

-- `!workingAuthDir.empty()`.
abbrev pub is_empty : Bytes → Bool
is_empty [] = true
is_empty (c ∷ dir) = false
