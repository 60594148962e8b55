-- ===== src/Auth/Methods/Sets.antt =====
-- Sets and multimaps of the validation of methods: membership after each operation.
use cx_framework.Base.{
  Bool, true, false, ◌&&◌, ◌||◌, ◌≡◌, ◌↔◌, inl, inr, refl, ap, List, [], ◌∷◌, ◌++◌, String, Eq,
  nat_eq, string_eq, str_eq, ◌is◌, if◌then◌else◌, arith, Bool-cases,
}
use cx_framework.Auth.Methods.{insert_pairs, has, put, remove, put_all, values_of, is_empty}

module _ {ℓ} {A : Type ℓ} ⦃e : Eq A⦄ where
  -- The value is bound to the key in a multimap.
  unfoldable pub bound : String → A → List (String × A) → Bool
  bound k v [] = false
  bound k v ((j, w) ∷ m) = str_eq j k && (w is v) || bound k v m

  pub has-remove :
      (i j : A) (set : List A) → has j (remove i set) ≡ (if i is j then false else has j set)
  unfolding has remove
  has-remove i j [] = ground arith
  has-remove i j (w ∷ set) =
      ground (arith, e.beq_iff i j, e.beq_iff w i, e.beq_iff w j, has-remove i j set)

  pub has-put : (i j : A) (set : List A) → has j (put i set) ≡ (i is j || has j set)
  unfolding has put
  has-put i j set = elim (Bool-cases (i is j)) [
    | inl same ↦
        let eq : i ≡ j = (e.beq_iff i j).0 same in ground (arith, ap (λ (x : A). has x set) eq)
    | inr other ↦ ground arith
  ]

  pub has-put_all : (j : A) (vs set : List A) → has j (put_all vs set) ≡ (has j vs || has j set)
  unfolding has put_all
  has-put_all j [] set = refl
  has-put_all j (v ∷ vs) set = ground (arith, has-put_all j vs (put v set), has-put v j set)

  pub has-values_of :
      (k : String) (j : A) (m : List (String × A)) (set : List A)
      → has j (values_of k m set) ≡ (bound k j m || has j set)
  unfolding values_of bound
  has-values_of k j [] set = refl
  has-values_of k j ((l, v) ∷ m) set =
      ground (arith, has-values_of k j m (if str_eq l k then put v set else set), has-put v j set)

  pub bound-append :
      (k : String) (v : A) (m n : List (String × A))
      → bound k v (m ++ n) ≡ (bound k v m || bound k v n)
  unfolding bound
  bound-append k v [] n = refl
  bound-append k v (p ∷ m) n = ground (arith, bound-append k v m n)

  pub bound-insert_pairs :
      (k l : String) (v : A) (vs : List A) (m : List (String × A))
      → bound l v (insert_pairs k vs m) ≡ (str_eq k l && has v vs || bound l v m)
  unfolding insert_pairs has bound
  bound-insert_pairs k l v [] m = ground arith
  bound-insert_pairs k l v (w ∷ vs) m =
      ground
        (arith, bound-insert_pairs k l v vs (m ++ (k, w) ∷ []), bound-append l v m ((k, w) ∷ []))

  pub is_empty_iff : (set : List A) → (is_empty set ≡ true) ↔ ((j : A) → has j set ≡ false)
  unfolding is_empty has
  is_empty_iff [] = (λ _ _. refl, λ _. refl)
  is_empty_iff (w ∷ set) = (λ h. cc, λ h. ground (arith, h w, e.beq_iff w w))
