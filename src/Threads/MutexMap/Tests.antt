-- ===== src/Threads/MutexMap/Tests.antt =====
-- The theorems on the map in a state where one reader holds an element that is being destroyed.
use cx_framework.Base.{
  ℕ, ◌≡◌, ◌≢◌, refl, ◌↔◌, [], ◌∷◌, Option, none, some, lookup, insert, inl, arith, nat_eq,
}
use cx_framework.Threads.MutexMap.{
  MapElement, add_element, open_element, destroy_start, destroy_round,
}
use cx_framework.Threads.MutexMap.System.{
  System, IsDeleted, held, initial, IsNew, owner, Reach, here, next, add, opens, starts,
}
use cx_framework.Threads.MutexMap.Safety.{handles_stay_alive, destroyer_waits}

abbrev entry : Option ℕ → ℕ → MapElement
entry p readers = record { rd_element = p; readers = readers }

abbrev closing : System ℕ
closing = record {
  x_map = (7, entry none 1) ∷ [];
  handles = (7, 1) ∷ [];
  destroyers = (7, 1) ∷ [];
  deleted = [];
}

first_IsNew : IsNew {K = ℕ} initial 1
unfolding owner lookup
first_IsNew = record { unowned = λ k. λ h. cc; undeleted = λ d. d }

closing_Reach : Reach closing
unfolding add_element open_element destroy_start insert lookup
closing_Reach =
    next
      (next (next here (add 7 1 first_IsNew))
        (opens 7 1 ((7, entry (some 1) 1) ∷ []) refl (omega arith)))
      (starts 7 1 ((7, entry none 1) ∷ []) refl)

handles_stay_alive_example : ¬ IsDeleted 1 closing.deleted
handles_stay_alive_example = handles_stay_alive closing 7 1 closing_Reach (inl (refl, refl))

destroyer_waits_example :
    ((destroy_round 7 closing.x_map ≢ none) ↔ (held 7 closing.handles ≡ 0))
    × (open_element 7 closing.x_map ≡ (closing.x_map, none))
    × (destroy_start 7 closing.x_map ≡ none)
unfolding lookup
destroyer_waits_example = destroyer_waits closing 7 1 closing_Reach refl
