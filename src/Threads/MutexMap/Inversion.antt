-- ===== src/Threads/MutexMap/Inversion.antt =====
-- What a call that succeeded says of the map before it, and what it leaves at each key.
use cx_framework.Base.{
  ℕ, ◌+◌, ◌-◌, ◌%◌, ◌<◌, ◌^◌, Bool, ◌≡◌, refl, ◌⊎◌, List, Option, none, some, Eq, ◌is◌, lookup,
  if◌then◌else◌, Option-cases, inl, inr, lookup-insert, lookup-erase, arith,
}
use cx_framework.Threads.MutexMap.{
  MapElement, add_element, open_element, close_element, destroy_start, destroy_round, readers_at,
}

abbrev pub opened : MapElement → MapElement
opened en = record en { readers = (en.readers + 1) % 2 ^ 32 }

abbrev pub closed : MapElement → MapElement
closed en = record en { readers = en.readers - 1 }

abbrev pub dying : MapElement → MapElement
dying en = record en { rd_element = none }

module _ {κ} {K : Type κ} ⦃e : Eq K⦄ (k : K) (x_map : List (K × MapElement)) where
  -- `m` is `x_map` with `en'` at `k`.
  abbrev pub IsWritten : Option MapElement → List (K × MapElement) → Type κ
  IsWritten en' m = (j : K) → lookup j m ≡ (if k is j then en' else lookup j x_map)

  pub add_element-inv :
      (p : ℕ)
      → ((lookup k x_map ≡ none)
          × IsWritten
              (some (record { rd_element = some p; readers = 0 }))
              (add_element k (some p) x_map).0)
        ⊎ ((add_element k (some p) x_map).0 ≡ x_map)
  unfolding add_element
  add_element-inv p = elim (Option-cases (lookup k x_map)) [
    | inl none_there ↦
        inl (none_there, λ j. rw (none_there, add_element) (lookup-insert k j _ x_map))
    | inr (en, there) ↦ inr (rw (there, add_element) refl)
  ]

  pub open_element-inv :
      (p : ℕ) (m : List (K × MapElement))
      → open_element k x_map ≡ (m, some p)
      → (en : MapElement) × (lookup k x_map ≡ some en)
        × (en.rd_element ≡ some p)
        × IsWritten (some (opened en)) m
  unfolding open_element
  open_element-inv p m h = elim (Option-cases (lookup k x_map)) [
    | inl e₀ ↦ absurd (ground arith)
    | inr (en, e₀) ↦
        (en, e₀, ground arith, λ j. ground (arith, lookup-insert k j (opened en) x_map))
  ]

  pub close_element-inv :
      (m : List (K × MapElement)) (b : Bool)
      → close_element k x_map ≡ some (m, b)
      → ((lookup k x_map ≡ none) × (m ≡ x_map))
        ⊎ ((en : MapElement) × (lookup k x_map ≡ some en)
            × (0 < en.readers)
            × IsWritten (some (closed en)) m)
  unfolding close_element
  close_element-inv m b h = elim (Option-cases (lookup k x_map)) [
    | inl e₀ ↦ inl (e₀, ground arith)
    | inr (en, e₀) ↦
        inr (en, e₀, ground arith, λ j. ground (arith, lookup-insert k j (closed en) x_map))
  ]

  pub destroy_start-inv :
      (p : ℕ) (m : List (K × MapElement))
      → destroy_start k x_map ≡ some (m, p)
      → (en : MapElement) × (lookup k x_map ≡ some en)
        × (en.rd_element ≡ some p)
        × IsWritten (some (dying en)) m
  unfolding destroy_start
  destroy_start-inv p m h = elim (Option-cases (lookup k x_map)) [
    | inl e₀ ↦ absurd (ground arith)
    | inr (en, e₀) ↦ (en, e₀, ground arith, λ j. ground (arith, lookup-insert k j (dying en) x_map))
  ]

  pub destroy_round-inv :
      (m : List (K × MapElement))
      → destroy_round k x_map ≡ some m
      → (readers_at k x_map ≡ 0) × IsWritten none m
  unfolding destroy_round
  destroy_round-inv m h = (ground arith, λ j. ground (arith, lookup-erase k j x_map))
