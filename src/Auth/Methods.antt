-- ===== src/Auth/Methods.antt =====
-- cxAuth/libcx_auth/src/iauth_validation_methods.cpp: which password indexes and attributes a method
-- requires, and what of it a session lacks. A `std::set` is a list, and a `std::multimap` a list of
-- pairs, of which the code reads those of one key.
pub mod Sets
pub mod Requirements
pub mod Validation
mod Tests
use cx_framework.Base.{
  ℕ, Bool, true, false, ◌&&◌, List, [], ◌∷◌, ◌++◌, String, Eq, nat_eq, string_eq, str_eq, ◌is◌,
  if◌then◌else◌,
}
use cx_framework.Auth.Reason.{AuthReason, is_authenticated_reason}
use cx_framework.Auth.Account.{Backend, account_validate_attribute}
use cx_framework.Auth.Session.{Session, is_authenticated}

-- `IAuth_Methods_Attributes`.
pub record Methods : Type 0 where
  pub attrib_pass_indexes : List (String × ℕ)
  pub method_attribs : List (String × String)

module _ {ℓ} {A : Type ℓ} where
  -- `multimap::insert`, for each value of a set.
  unfoldable pub insert_pairs : String → List A → List (String × A) → List (String × A)
  insert_pairs k [] m = m
  insert_pairs k (v ∷ vs) m = insert_pairs k vs (m ++ (k, v) ∷ [])

module _ {ℓ} {A : Type ℓ} ⦃e : Eq A⦄ where
  -- `set::find(v) != end()`.
  unfoldable pub has : A → List A → Bool
  has v [] = false
  has v (w ∷ set) = if w is v then true else has v set

  -- `set::insert`.
  unfoldable pub put : A → List A → List A
  put v set = if has v set then set else v ∷ set

  -- `set::erase`.
  unfoldable pub remove : A → List A → List A
  remove v [] = []
  remove v (w ∷ set) = let rest = remove v set in if w is v then rest else w ∷ rest

  unfoldable pub put_all : List A → List A → List A
  put_all [] set = set
  put_all (v ∷ vs) set = put_all vs (put v set)

  -- The loop over `equal_range(k)`, which inserts each value in a set.
  unfoldable pub values_of : String → List (String × A) → List A → List A
  values_of k [] set = set
  values_of k ((j, v) ∷ m) set = values_of k m (if str_eq j k then put v set else set)

pub add_method_attributes : String → List String → Methods → Methods
add_method_attributes method attribs m = record m {
  method_attribs = insert_pairs method attribs m.method_attribs;
}

pub add_attrib_pass_indexes : String → List ℕ → Methods → Methods
add_attrib_pass_indexes attrib indexes m = record m {
  attrib_pass_indexes = insert_pairs attrib indexes m.attrib_pass_indexes;
}

pub get_attrib_pass_indexes : Methods → String → List ℕ
get_attrib_pass_indexes m attrib = values_of attrib m.attrib_pass_indexes (0 ∷ [])

pub get_method_attribs : Methods → String → List String
get_method_attribs m method = values_of method m.method_attribs []

-- The two loops of `getMethodPassIndexes`.
collect_indexes : Methods → List String → List ℕ → List ℕ
collect_indexes m [] r = r
collect_indexes m (attrib ∷ attribs) r =
    collect_indexes m attribs (put_all (get_attrib_pass_indexes m attrib) r)

pub get_method_pass_indexes : Methods → String → List ℕ
unfolding collect_indexes
get_method_pass_indexes m method = collect_indexes m (get_method_attribs m method) []

module _ (now : ℕ) (s : Session) (extra : List ℕ) where
  -- The body of the loop over the required indexes, and the loop.
  strike_index : ℕ → List ℕ → List ℕ
  strike_index i left =
      let left' =
        if is_authenticated_reason (is_authenticated s i now) then remove i left else left in
      if has i extra then remove i left' else left'

  indexes_left : List ℕ → List ℕ → List ℕ
  indexes_left [] left = left
  indexes_left (i ∷ required) left = indexes_left required (strike_index i left)

module _ (b : Backend) (user : String) where
  -- The loop over the required attributes, asked in the domain that the call leaves out.
  attribs_left : List String → List String → List String
  attribs_left [] left = left
  attribs_left (a ∷ required) left =
      attribs_left required (if account_validate_attribute b user a "" then remove a left else left)

-- `set::empty`.
pub is_empty {ℓ} : {A : Type ℓ} → List A → Bool
is_empty [] = true
is_empty (x ∷ xs) = false

-- The result, `*passIndexesLeft` and `*attribsLeft`; `b` is the session's authenticator.
pub validate_method :
    Methods → Backend → ℕ → Session → String → List ℕ → Bool × List ℕ × List String
unfolding is_empty
validate_method m b now s method extra =
    let required_indexes = get_method_pass_indexes m method in
    let required_attribs = get_method_attribs m method in
    let indexes = indexes_left now s extra required_indexes required_indexes in
    let attribs = attribs_left b s.auth_user required_attribs required_attribs in
    (is_empty indexes && is_empty attribs, indexes, attribs)
