-- ===== src/Threads/MutexMap/System.antt =====
-- The map with the threads that use it: who has opened what, which threads are inside of
-- `destroyElement`, and which elements have been deleted.
use cx_framework.Base.{
  ℕ, ◌+◌, ◌<◌, ◌^◌, Bool, true, ◌≡◌, ◌≢◌, ◌⊎◌, List, [], ◌∷◌, Option, none, some, Eq, ◌is◌, lookup,
  insert, erase, length, if◌then◌else◌,
}
use cx_framework.Threads.MutexMap.{
  MapElement, add_element, open_element, close_element, destroy_start, destroy_round,
}

-- A handle is a key and the element that `openElement` gave for it.
pub record System {κ} (K : Type κ) : Type κ where
  pub x_map : List (K × MapElement)
  pub handles : List (K × ℕ)
  pub destroyers : List (K × ℕ)
  pub deleted : List ℕ

abbrev pub IsDeleted : ℕ → List ℕ → Type 0
IsDeleted p [] = ⊥
IsDeleted p (q ∷ deleted) = (q ≡ p) ⊎ IsDeleted p deleted

abbrev pub rd_of : Option MapElement → Option ℕ
rd_of none = none
rd_of (some m) = m.rd_element

module _ {κ} {K : Type κ} ⦃e : Eq K⦄ where
  abbrev pub Holds : K → ℕ → List (K × ℕ) → Type 0
  Holds k p [] = ⊥
  Holds k p ((j, q) ∷ handles) = ((j is k) ≡ true) × (q ≡ p) ⊎ Holds k p handles

  -- How many handles there are for a key.
  unfoldable pub held : K → List (K × ℕ) → ℕ
  held k [] = 0
  held k ((j, q) ∷ handles) = (if j is k then 1 else 0) + held k handles

  -- The handles after one for the key is given back.
  unfoldable pub give_back : K → List (K × ℕ) → List (K × ℕ)
  give_back k [] = []
  give_back k ((j, q) ∷ handles) = if j is k then handles else (j, q) ∷ give_back k handles

  -- The element that a key stands for: the one in the map, or the one that is being destroyed.
  unfoldable pub owner : System K → K → Option ℕ
  owner s k = elim (rd_of (lookup k s.x_map)) [ some p ↦ some p | none ↦ lookup k s.destroyers ]

  abbrev pub initial : System K
  initial = record { x_map = []; handles = []; destroyers = []; deleted = [] }

  -- A new allocation: no key stands for it, and it has not been deleted.
  pub record IsNew (s : System K) (p : ℕ) : Type κ where
    pub unowned : (k : K) → owner s k ≢ some p
    pub undeleted : ¬ IsDeleted p s.deleted

  -- What the threads do, one locked region at a time and in any order. A program holds fewer
  -- handles than a `uint32_t` counts, and closes what it has opened.
  pub data Step (s : System K) : System K → Type κ where
    add :
        (k : K) (p : ℕ)
        → IsNew s p
        → Step s (record s { x_map = (add_element k (some p) s.x_map).0 })
    opens :
        (k : K) (p : ℕ) (m : List (K × MapElement))
        → open_element k s.x_map ≡ (m, some p)
        → length s.handles + 1 < 2 ^ 32
        → Step s (record s { x_map = m; handles = (k, p) ∷ s.handles })
    closes :
        (k : K) (p : ℕ) (m : List (K × MapElement)) (b : Bool)
        → Holds k p s.handles
        → close_element k s.x_map ≡ some (m, b)
        → Step s (record s { x_map = m; handles = give_back k s.handles })
    starts :
        (k : K) (p : ℕ) (m : List (K × MapElement))
        → destroy_start k s.x_map ≡ some (m, p)
        → Step s (record s { x_map = m; destroyers = insert k p s.destroyers })
    finishes :
        (k : K) (p : ℕ) (m : List (K × MapElement))
        → lookup k s.destroyers ≡ some p
        → destroy_round k s.x_map ≡ some m
        → Step s
            (record s { x_map = m; destroyers = erase k s.destroyers; deleted = p ∷ s.deleted })

  pub data Reach : System K → Type κ where
    here : Reach initial
    next : {s t : System K} → Reach s → Step s t → Reach t
