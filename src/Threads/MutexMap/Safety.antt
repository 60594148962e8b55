-- ===== src/Threads/MutexMap/Safety.antt =====
-- What the users of the map may rely on, in every state that their calls can reach.
use cx_framework.Base.{
  ℕ, ◌+◌, true, ◌≡◌, ◌↔◌, List, none, some, Eq, lookup, Option-cases, inl, inr, lookup-insert_self,
  arith, insert, ◌≢◌,
}
use cx_framework.Threads.MutexMap.{
  MapElement, open_element, close_element, destroy_start, destroy_round, readers_at,
}
use cx_framework.Threads.MutexMap.Inversion.{closed}
use cx_framework.Threads.MutexMap.System.{System, IsDeleted, Holds, held, Reach}
use cx_framework.Threads.MutexMap.Invariant.{Inv, held_pos}
use cx_framework.Threads.MutexMap.Preservation.{Reach-Inv}

module _ {κ} {K : Type κ} ⦃e : Eq K⦄ where
  -- In every reachable state, an element that somebody has opened and not closed has not been
  -- deleted, whoever has called `destroyElement` on its key in the meantime.
  pub handles_stay_alive :
      (s : System K) (k : K) (p : ℕ) → Reach s → Holds k p s.handles → ¬ IsDeleted p s.deleted
  handles_stay_alive s k p r has = v.kept k p (v.live k p has)
    where
      v : Inv s
      v = Reach-Inv r

  -- In every reachable state, closing a key that one has opened does not throw: it returns true, and
  -- takes one from the count of readers, which is the number of handles for the key.
  pub close_of_handle :
      (s : System K) (k : K) (p : ℕ)
      → Reach s
      → Holds k p s.handles
      → (m : List (K × MapElement)) × (close_element k s.x_map ≡ some (m, true))
        × (readers_at k m + 1 ≡ held k s.handles)
  unfolding close_element readers_at
  close_of_handle s k p r has = elim (Option-cases (lookup k s.x_map)) [
    | inl gone ↦ absurd (ground (arith, (Reach-Inv r).counted k, held_pos k p s.handles has))
    | inr (en, at) ↦ (
      insert k (closed en) s.x_map,
      ground (arith, (Reach-Inv r).counted k, held_pos k p s.handles has),
      ground (
        arith,
        (Reach-Inv r).counted k,
        held_pos k p s.handles has,
        lookup-insert_self k (closed en) s.x_map,
      ),
    )
  ]

  -- In every reachable state, a thread inside of `destroyElement` goes on to delete the element when
  -- it tests the readers exactly if no handle for the key is open; and until then nobody can open the
  -- key, nor start to destroy it once more.
  pub destroyer_waits :
      (s : System K) (k : K) (p : ℕ)
      → Reach s
      → lookup k s.destroyers ≡ some p
      → ((destroy_round k s.x_map ≢ none) ↔ (held k s.handles ≡ 0))
        × (open_element k s.x_map ≡ (s.x_map, none))
        × (destroy_start k s.x_map ≡ none)
  unfolding destroy_round open_element destroy_start
  destroyer_waits s k p r d = (
    (λ h. ground (arith, (Reach-Inv r).counted k, h), λ h. ground (arith, (Reach-Inv r).counted k)),
    ground (arith, (Reach-Inv r).closing k p d),
    ground (arith, (Reach-Inv r).closing k p d),
  )
