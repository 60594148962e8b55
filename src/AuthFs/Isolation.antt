-- ===== src/AuthFs/Isolation.antt =====
-- Names of 7-bit characters have directories of their own.
use cx_framework.Base.{
  ℕ, [], ◌∷◌, ◌++◌, append_assoc, Bytes, All, IsByte, ◌≡◌, ◌≢◌, refl, sym, ap, ap₂, ◌∙◌, arith,
}
use cx_framework.AuthStrings.{from_url_encoded}
use cx_framework.AuthStrings.RoundTrip.{IsAscii, to_url_encoded_round_trip}
use cx_framework.AuthStrings.PathSafety.{IsPathSafe, to_url_encoded-IsPathSafe}
use cx_framework.AuthFs.{FileSystem, encoded, domain_of, default_domain, Kind, kind_name, child}
use cx_framework.AuthFs.Paths.{item_path, domain_path, kind_path}

abbrev IsNoSlash : ℕ → Type 0
IsNoSlash c = c ≢ b'/'

append_cancel : (xs ys zs : Bytes) → xs ++ ys ≡ xs ++ zs → ys ≡ zs
append_cancel [] ys zs e = e
append_cancel (x ∷ xs) ys zs e = append_cancel xs ys zs (cc e)

-- The first `/` cuts a path in one way.
slash_cut :
    (xs ys us vs : Bytes)
    → All IsNoSlash xs
    → All IsNoSlash ys
    → xs ++ b'/' ∷ us ≡ ys ++ b'/' ∷ vs
    → (xs ≡ ys) × (us ≡ vs)
slash_cut [] [] us vs hx hy e = (refl, cc e)
slash_cut [] (y ∷ ys) us vs hx hy e = let h : b'/' ≡ y = cc e in absurd (hy.0 (sym h))
slash_cut (x ∷ xs) [] us vs hx hy e = let h : x ≡ b'/' = cc e in absurd (hx.0 h)
slash_cut (x ∷ xs) (y ∷ ys) us vs hx hy e =
    let same : x ≡ y = cc e in
    let (rest, behind) = slash_cut xs ys us vs (hx.1) (hy.1) (cc e) in
    (ap₂ (λ (c : ℕ) (t : Bytes). c ∷ t) same rest, behind)

ascii-IsByte : (name : Bytes) → All IsAscii name → All IsByte name
ascii-IsByte [] h = tt
ascii-IsByte (c ∷ name) h = (omega (arith, h.0), ascii-IsByte name (h.1))

safe-IsNoSlash : (c : ℕ) → IsPathSafe c → IsNoSlash c
safe-IsNoSlash c h = λ e. ground (arith, h, e)

path_safe-IsNoSlash : (out : Bytes) → All IsPathSafe out → All IsNoSlash out
path_safe-IsNoSlash [] h = tt
path_safe-IsNoSlash (c ∷ out) h = (safe-IsNoSlash c (h.0), path_safe-IsNoSlash out (h.1))

encoded-IsNoSlash : (name : Bytes) → All IsAscii name → All IsNoSlash (encoded name)
unfolding encoded
encoded-IsNoSlash name h =
    let (out, e, _, safe) = to_url_encoded-IsPathSafe name (ascii-IsByte name h) in
    rw e (path_safe-IsNoSlash out safe)

from_url_encoded-encoded :
    (name : Bytes) → All IsAscii name → from_url_encoded (encoded name) ≡ name
unfolding encoded
from_url_encoded-encoded name h =
    let (out, e, back) = to_url_encoded_round_trip name (ascii-IsByte name h) in rw e (back.1 h)

encoded-injective : (x y : Bytes) → All IsAscii x → All IsAscii y → encoded x ≡ encoded y → x ≡ y
encoded-injective x y hx hy e =
    sym (from_url_encoded-encoded x hx) ∙ ap from_url_encoded e ∙ from_url_encoded-encoded y hy

domain_of-IsAscii : (domain : Bytes) → All IsAscii domain → All IsAscii (domain_of domain)
domain_of-IsAscii [] h = omega_tuple
  where
    omega_tuple : All IsAscii default_domain
    omega_tuple = (
      omega arith,
      (omega arith, (omega arith, (omega arith, (omega arith, (omega arith, (omega arith, tt)))))),
    )
domain_of-IsAscii (c ∷ domain) h = h

-- A path of five parts, nested to the right.
parts :
    (a b c d e : Bytes)
    → child (child (child (child a b) c) d) e
      ≡ a ++ b'/' ∷ (b ++ b'/' ∷ (c ++ b'/' ∷ (d ++ b'/' ∷ e)))
parts a b c d e =
    append_assoc (child (child a b) c) (b'/' ∷ d) (b'/' ∷ e)
    ∙ append_assoc (child a b) (b'/' ∷ c) (b'/' ∷ (d ++ b'/' ∷ e))
    ∙ append_assoc a (b'/' ∷ b) (b'/' ∷ (c ++ b'/' ∷ (d ++ b'/' ∷ e)))

item_parts :
    (a b c d : Bytes) → child (child (child a b) c) d ≡ a ++ b'/' ∷ (b ++ b'/' ∷ (c ++ b'/' ∷ d))
item_parts a b c d =
    append_assoc (child a b) (b'/' ∷ c) (b'/' ∷ d)
    ∙ append_assoc a (b'/' ∷ b) (b'/' ∷ (c ++ b'/' ∷ d))

not_longer : (xs ys : Bytes) → All IsNoSlash xs → (zs : Bytes) → xs ≢ ys ++ b'/' ∷ zs
not_longer [] [] h zs = λ e. cc e
not_longer [] (y ∷ ys) h zs = λ e. cc e
not_longer (x ∷ xs) [] h zs = λ e. h.0 (cc e)
not_longer (x ∷ xs) (y ∷ ys) h zs = λ e. not_longer xs ys (h.1) zs (cc e)

module _ (fs : FileSystem) (dir : Bytes) (kind : Kind) where
  -- A file of two accounts, groups or attributes is one file only where they are the same.
  pub item_file-injective :
      (x y d e file : Bytes)
      → All IsAscii x
      → All IsAscii y
      → All IsAscii d
      → All IsAscii e
      → child (item_path fs dir kind x d) file ≡ child (item_path fs dir kind y e) file
      → (x ≡ y) × (domain_of d ≡ domain_of e)
  unfolding item_path kind_path domain_path
  item_file-injective x y d e file hx hy hd he same =
      let D = encoded (domain_of d) in
      let E = encoded (domain_of e) in
      let K = kind_name kind in
      let X = encoded x in
      let Y = encoded y in
      let flat = sym (parts dir D K X file) ∙ same ∙ parts dir E K Y file in
      let behind_dir =
        append_cancel dir (b'/' ∷ (D ++ b'/' ∷ (K ++ b'/' ∷ (X ++ b'/' ∷ file))))
          (b'/' ∷ (E ++ b'/' ∷ (K ++ b'/' ∷ (Y ++ b'/' ∷ file)))) flat in
      let (domains, behind) =
        slash_cut D E (K ++ b'/' ∷ (X ++ b'/' ∷ file)) (K ++ b'/' ∷ (Y ++ b'/' ∷ file))
          (encoded-IsNoSlash (domain_of d) (domain_of-IsAscii d hd))
          (encoded-IsNoSlash (domain_of e) (domain_of-IsAscii e he)) (cc behind_dir) in
      let behind_kind =
        append_cancel K (b'/' ∷ (X ++ b'/' ∷ file)) (b'/' ∷ (Y ++ b'/' ∷ file)) behind in
      let (names, _) =
        slash_cut X Y file file (encoded-IsNoSlash x hx) (encoded-IsNoSlash y hy)
          (cc behind_kind) in
      (
        encoded-injective x y hx hy names,
        encoded-injective (domain_of d) (domain_of e) (domain_of-IsAscii d hd)
            (domain_of-IsAscii e he) domains,
      )

  -- The directory of one is not a file of any.
  pub item_not_file :
      (x y d e file : Bytes)
      → All IsAscii x
      → All IsAscii d
      → All IsAscii e
      → item_path fs dir kind x d ≢ child (item_path fs dir kind y e) file
  unfolding item_path kind_path domain_path
  item_not_file x y d e file hx hd he = λ same.
      let D = encoded (domain_of d) in
      let E = encoded (domain_of e) in
      let K = kind_name kind in
      let X = encoded x in
      let Y = encoded y in
      let flat = sym (item_parts dir D K X) ∙ same ∙ parts dir E K Y file in
      let behind_dir =
        append_cancel dir (b'/' ∷ (D ++ b'/' ∷ (K ++ b'/' ∷ X)))
          (b'/' ∷ (E ++ b'/' ∷ (K ++ b'/' ∷ (Y ++ b'/' ∷ file)))) flat in
      let (_, behind) =
        slash_cut D E (K ++ b'/' ∷ X) (K ++ b'/' ∷ (Y ++ b'/' ∷ file))
          (encoded-IsNoSlash (domain_of d) (domain_of-IsAscii d hd))
          (encoded-IsNoSlash (domain_of e) (domain_of-IsAscii e he)) (cc behind_dir) in
      let behind_kind = append_cancel K (b'/' ∷ X) (b'/' ∷ (Y ++ b'/' ∷ file)) behind in
      not_longer X Y (encoded-IsNoSlash x hx) file (cc behind_kind)

-- Neither is the working directory.
dir_not_longer : (xs ys : Bytes) (c : ℕ) → xs ≢ xs ++ c ∷ ys
dir_not_longer [] ys c = λ e. cc e
dir_not_longer (x ∷ xs) ys c = λ e. dir_not_longer xs ys c (cc e)

module _ (fs : FileSystem) (dir : Bytes) (kind : Kind) where
  pub dir_not_file : (y e file : Bytes) → dir ≢ child (item_path fs dir kind y e) file
  unfolding item_path kind_path domain_path
  dir_not_file y e file = λ same.
      let E = encoded (domain_of e) in
      dir_not_longer dir (E ++ b'/' ∷ (kind_name kind ++ b'/' ∷ (encoded y ++ b'/' ∷ file))) b'/'
        (same ∙ parts dir E (kind_name kind) (encoded y) file)
