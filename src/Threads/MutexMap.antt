-- ===== src/Threads/MutexMap.antt =====
-- cxThreads/libcx_thr_mutex_map/src/mutex_map.h: `Mutex_Map`, a map whose elements are opened,
-- closed and destroyed by many threads. Each operation runs under `mutex_xMap`, and is a function of the
-- map here; `destroyElement`, which gives the lock up while it waits, is in two parts: what it does
-- before it first tests the readers, and one round of its loop. Elements are numbers, one for each
-- allocation; `none` is the null pointer.
pub mod System
pub mod Inversion
pub mod Invariant
pub mod Preservation
pub mod Safety
mod Tests
use cx_framework.Base.{
  ℕ, ◌+◌, ◌-◌, ◌%◌, ◌^◌, Bool, true, false, List, [], ◌∷◌, Option, none, some, map, Eq, lookup,
  insert, erase, ◌==◌, if◌then◌else◌,
}

-- `sMapElement`: `readers` is a `uint32_t`.
pub record MapElement : Type 0 where
  pub rd_element : Option ℕ
  pub readers : ℕ

module _ {κ} {K : Type κ} ⦃e : Eq K⦄ where
  pub get_keys : List (K × MapElement) → List K
  get_keys = map λ i. i.0

  pub add_element : K → Option ℕ → List (K × MapElement) → List (K × MapElement) × Bool
  add_element key element x_map = elim (lookup key x_map) [
    | none ↦ (insert key (record { rd_element = element; readers = 0 }) x_map, true)
    | some _ ↦ (x_map, false)
  ]

  pub open_element : K → List (K × MapElement) → List (K × MapElement) × Option ℕ
  open_element key x_map = elim (lookup key x_map) [
    | none ↦ (x_map, none)
    | some m ↦ elim m.rd_element [
      | none ↦ (x_map, none)
      | some p ↦ (insert key (record m { readers = (m.readers + 1) % 2 ^ 32 }) x_map, some p)
    ]
  ]

  -- `none` is the exception "Invalid close on Mutex MAP".
  pub close_element : K → List (K × MapElement) → Option (List (K × MapElement) × Bool)
  close_element key x_map = elim (lookup key x_map) [
    | none ↦ some (x_map, false)
    | some m ↦
        if m.readers == 0
        then none
        else some (insert key (record m { readers = m.readers - 1 }) x_map, true)
  ]

  -- `destroyElement` up to its loop: the element that is to be deleted, or `none` for `false`.
  pub destroy_start : K → List (K × MapElement) → Option (List (K × MapElement) × ℕ)
  destroy_start key x_map = elim (lookup key x_map) [
    | none ↦ none
    | some m ↦ elim m.rd_element [
      | none ↦ none
      | some p ↦ some (insert key (record m { rd_element = none }) x_map, p)
    ]
  ]

  -- `xMap[key].readers`, where a missing entry would be made with no reader.
  pub readers_at : K → List (K × MapElement) → ℕ
  readers_at key x_map = elim (lookup key x_map) [ none ↦ 0 | some m ↦ m.readers ]

  -- One test of the loop of `destroyElement`: the map without the entry, or `none` to wait on.
  pub destroy_round : K → List (K × MapElement) → Option (List (K × MapElement))
  destroy_round key x_map = if readers_at key x_map == 0 then some (erase key x_map) else none

  -- `waitForEmpty` goes to wait.
  pub waits_for_empty : List (K × MapElement) → Bool
  waits_for_empty [] = false
  waits_for_empty (i ∷ x_map) = true
