-- ===== src/AuthFs/Instances.antt =====
-- A file system and a json library that keep what the theorems rely on.
use cx_framework.Base.{
  ℕ, ◌+◌, Bool, Bool-cases, inl, inr, true, false, ◌==◌, if◌then◌else◌, Option, none, some, [], ◌∷◌,
  Bytes, bytes_eq, bytes_eq_iff, ==_iff, ◌≡◌, ◌≢◌, refl, ap, ◌∙◌,
}
use cx_framework.AuthFs.{FileSystem, Json}
use cx_framework.AuthFs.Laws.{IsFileSystem, IsJson}

abbrev pub Files : Type 0
Files = Bytes → Option Bytes

unfoldable pub there : Option Bytes → Bool
there (some b) = true
there none = false

abbrev content : Option Bytes → Bytes
content (some b) = b
content none = []

-- A path with an entry of its own; a directory has one without bytes.
unfoldable pub put : Bytes → Option Bytes → Files → Files
put p entry s q = if bytes_eq q p then entry else s q

abbrev pub files : FileSystem
files = record {
  State = Files;
  writable = λ s p. there (s p);
  readable = λ s p. there (s p);
  regular_files = λ s p. [];
  read_file = λ s p. content (s p);
  write_file = λ s p b. (put p (some b) s, true);
  mkdir = λ s p. (put p (some []) s, true);
  unlink = λ s p. (put p none s, there (s p));
  remove_all = λ s p. put p none s;
}

put_same : (p : Bytes) (entry : Option Bytes) (s : Files) → put p entry s p ≡ entry
unfolding put
put_same p entry s = rw ((bytes_eq_iff p p).1 refl) refl

put_other : (p q : Bytes) (entry : Option Bytes) (s : Files) → q ≢ p → put p entry s q ≡ s q
unfolding put
put_other p q entry s differ = elim (Bool-cases (bytes_eq q p)) [
  | inl e ↦ absurd (differ ((bytes_eq_iff q p).0 e))
  | inr e ↦ rw e refl
]

put_either :
    (p q : Bytes) (entry : Option Bytes) (s : Files) (b : Bool)
    → there entry ≡ b
    → there (s q) ≡ b
    → there (put p entry s q) ≡ b
unfolding put
put_either p q entry s b h k = elim (Bool-cases (bytes_eq q p)) [ inl e ↦ rw e h | inr e ↦ rw e k ]

pub files-IsFileSystem : IsFileSystem files
unfolding there
files-IsFileSystem = record {
  read-write_file = λ s p b h. ap content (put_same p (some b) s);
  read-write_file_other = λ s p q b h. ap content (put_other p q (some b) s h);
  writable-write_file = λ s p q b h. ap there (put_other p q (some b) s h);
  readable-write_file = λ s p b h. ap there (put_same p (some b) s);
  readable-write_file_other = λ s p q b h. put_either p q (some b) s true refl h;
  readable-unlink = λ s p h. ap there (put_same p none s);
  readable-unlink_other = λ s p q h. put_either p q none s false refl h;
}

-- Flags and numbers under the sum of their key's characters.
unfoldable pub key : Bytes → ℕ
key [] = 0
key (c ∷ cs) = c + key cs

unfoldable pub entry : Bytes → ℕ → ℕ
entry (n ∷ value ∷ rest) k = let below = entry rest k in if n == k then value else below
entry _ k = 0

abbrev pub objects : Json
objects = record {
  Value = Bytes;
  null = [];
  parse = λ b. b;
  styled = λ v. v;
  text = λ v k. [];
  flag = λ v k. entry v (key k) == 1;
  number = λ v k. entry v (key k);
  set_text = λ k t v. v;
  set_flag = λ k b v. key k ∷ (if b then 1 else 0) ∷ v;
  set_number = λ k n v. key k ∷ n ∷ v;
}

entry_same : (k value : ℕ) (v : Bytes) → entry (k ∷ value ∷ v) k ≡ value
unfolding entry
entry_same k value v = rw ((==_iff k k).1 refl) refl

pub objects-IsJson : IsJson objects
objects-IsJson = record {
  parse-styled = λ v. refl;
  flag-set_flag = λ k b v. ap (λ n. n == 1) (entry_same (key k) (if b then 1 else 0) v) ∙ bit b;
}
  where
    bit : (b : Bool) → ((if b then 1 else 0) == 1) ≡ b
    bit true = refl
    bit false = refl
