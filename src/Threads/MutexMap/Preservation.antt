-- ===== src/Threads/MutexMap/Preservation.antt =====
-- The locked regions of the mutex map and its invariant.
use cx_framework.Base.{
  ℕ, ◌+◌, ◌<◌, ◌^◌, Bool, ◌≡◌, refl, subst, List, [], ◌∷◌, none, some, Eq, ◌is◌, lookup, insert,
  erase, length, if◌then◌else◌, Bool-cases, inl, inr, lookup-insert, lookup-erase, arith,
}
use cx_framework.Threads.MutexMap.{
  MapElement, add_element, open_element, close_element, destroy_start, destroy_round, readers_at,
}
use cx_framework.Threads.MutexMap.Inversion.{
  IsWritten, add_element-inv, open_element-inv, close_element-inv, destroy_start-inv,
  destroy_round-inv,
}
use cx_framework.Threads.MutexMap.System.{
  System, IsDeleted, Holds, held, give_back, owner, IsNew, Step, add, opens, closes, starts,
  finishes, Reach, here, next,
}
use cx_framework.Threads.MutexMap.Invariant.{
  Inv, initial-Inv, held-le-length, held_pos, same_owner-Inv,
}

module _ {κ} {K : Type κ} ⦃e : Eq K⦄ where
  opens-Inv :
      (s : System K) (k : K) (p : ℕ) (m : List (K × MapElement))
      → open_element k s.x_map ≡ (m, some p)
      → length s.handles + 1 < 2 ^ 32
      → Inv s
      → Inv (record s { x_map = m; handles = (k, p) ∷ s.handles })
  unfolding held readers_at owner
  opens-Inv s k p m h small v =
      let (en, at, rd, set) = open_element-inv k s.x_map p m h in
      same_owner-Inv s _ v (λ j. ground (arith, set j, e.beq_iff k j)) refl
        (λ j. ground (arith, set j, v.counted j, held-le-length j s.handles, e.beq_iff k j))
        (λ j q. elim [ inl (same, eq) ↦ ground (arith, e.beq_iff k j) | inr old ↦ v.live j q old ])
        (λ j q g. ground (arith, set j, v.closing j q, e.beq_iff k j))

  held-give_back :
      (k j : K) (p : ℕ) (hs : List (K × ℕ))
      → Holds k p hs
      → held j (give_back k hs) + (if k is j then 1 else 0) ≡ held j hs
  unfolding held give_back
  held-give_back k j p [] h = absurd h
  held-give_back k j p ((i, q) ∷ hs) (inl h) =
      ground (arith, e.beq_iff k j, e.beq_iff i k, e.beq_iff i j)
  held-give_back k j p ((i, q) ∷ hs) (inr h) =
      ground (arith, held-give_back k j p hs h, e.beq_iff k j, e.beq_iff i k, e.beq_iff i j)

  Holds-give_back :
      (k j : K) (p : ℕ) (hs : List (K × ℕ)) → Holds j p (give_back k hs) → Holds j p hs
  unfolding give_back
  Holds-give_back k j p [] h = h
  Holds-give_back k j p ((i, q) ∷ hs) h = elim (Bool-cases (i is k)) [
    | inl hit ↦ inr (rw hit at h)
    | inr miss ↦ elim (rw miss at h) [
      | inl first ↦ inl first
      | inr there ↦ inr (Holds-give_back k j p hs there)
    ]
  ]

  closes-Inv :
      (s : System K) (k : K) (p : ℕ) (m : List (K × MapElement)) (b : Bool)
      → Holds k p s.handles
      → close_element k s.x_map ≡ some (m, b)
      → Inv s
      → Inv (record s { x_map = m; handles = give_back k s.handles })
  unfolding readers_at owner
  closes-Inv s k p m b has h v = elim (close_element-inv k s.x_map m b h) [
    | inl (gone, _) ↦ absurd (ground (arith, v.counted k, held_pos k p s.handles has))
    | inr (en, at, pos, set) ↦
        same_owner-Inv s _ v (λ j. ground (arith, set j, e.beq_iff k j)) refl
          (λ j.
            ground (arith, set j, v.counted j, held-give_back k j p s.handles has, e.beq_iff k j))
          (λ j q g. v.live j q (Holds-give_back k j q s.handles g))
          (λ j q g. ground (arith, set j, v.closing j q, e.beq_iff k j))
  ]

  starts-Inv :
      (s : System K) (k : K) (p : ℕ) (m : List (K × MapElement))
      → destroy_start k s.x_map ≡ some (m, p)
      → Inv s
      → Inv (record s { x_map = m; destroyers = insert k p s.destroyers })
  unfolding readers_at owner
  starts-Inv s k p m h v =
      let (en, at, rd, set) = destroy_start-inv k s.x_map p m h in
      same_owner-Inv s _ v
        (λ j. ground (arith, set j, lookup-insert k j p s.destroyers, e.beq_iff k j)) refl
        (λ j. ground (arith, set j, v.counted j, e.beq_iff k j)) v.live
        (λ j q g.
          ground (arith, set j, lookup-insert k j p s.destroyers, v.closing j q, e.beq_iff k j))

  -- An allocation that no key stood for gets its key.
  added-Inv :
      (s : System K) (k : K) (p : ℕ) (m : List (K × MapElement))
      → lookup k s.x_map ≡ none
      → IsWritten k s.x_map (some (record { rd_element = some p; readers = 0 })) m
      → IsNew s p
      → Inv s
      → Inv (record s { x_map = m })
  unfolding readers_at owner
  added-Inv s k p m gone set new v = record {
    counted = λ j. ground (arith, set j, v.counted j, v.counted k, e.beq_iff k j);
    live = λ j q h. ground (arith, set j, v.live j q h, v.closing j q, e.beq_iff k j);
    unique = λ j i q h h'. ground (
      arith,
      set j,
      set i,
      v.unique j i q,
      new.unowned j,
      new.unowned i,
      e.beq_iff k j,
      e.beq_iff k i,
      e.beq_iff j i,
    );
    kept = λ j q h dead. elim (Bool-cases (k is j)) [
      | inl same ↦
          new.undeleted
            (subst (λ x. IsDeleted x s.deleted) (ground (arith, set j, e.beq_iff k j)) dead)
      | inr other ↦ v.kept j q (ground (arith, set j, e.beq_iff k j)) dead
    ];
    closing = λ j q h. ground (arith, set j, v.closing j q h, e.beq_iff k j);
  }

  add-Inv :
      (s : System K) (k : K) (p : ℕ)
      → IsNew s p
      → Inv s
      → Inv (record s { x_map = (add_element k (some p) s.x_map).0 })
  add-Inv s k p new v = elim (add_element-inv k s.x_map p) [
    | inl (gone, set) ↦ added-Inv s k p _ gone set new v
    | inr same ↦ rw same v
  ]

  finishes-Inv :
      (s : System K) (k : K) (p : ℕ) (m : List (K × MapElement))
      → lookup k s.destroyers ≡ some p
      → destroy_round k s.x_map ≡ some m
      → Inv s
      → Inv (record s { x_map = m; destroyers = erase k s.destroyers; deleted = p ∷ s.deleted })
  unfolding readers_at owner
  finishes-Inv s k p m d h v =
      let (zero_readers, set) = destroy_round-inv k s.x_map m h in
      record {
        counted = λ j. ground (arith, set j, v.counted j, v.counted k, zero_readers, e.beq_iff k j);
        live = λ j q has. ground (
          arith,
          set j,
          lookup-erase k j s.destroyers,
          v.live j q has,
          v.counted j,
          held_pos j q s.handles has,
          zero_readers,
          e.beq_iff k j,
        );
        unique = λ j i q g g'. ground (
          arith,
          set j,
          set i,
          lookup-erase k j s.destroyers,
          lookup-erase k i s.destroyers,
          v.unique j i q,
          e.beq_iff k j,
          e.beq_iff k i,
        );
        kept = λ j q g. elim [
          | inl same ↦ absurd (
              ground (
                arith,
                set j,
                lookup-erase k j s.destroyers,
                v.closing k p d,
                v.unique j k q,
                e.beq_iff k j,
                e.beq_iff j k,
              ))
          | inr dead ↦
              v.kept j q (ground (arith, set j, lookup-erase k j s.destroyers, e.beq_iff k j)) dead
        ];
        closing = λ j q g.
            ground (arith, set j, lookup-erase k j s.destroyers, v.closing j q, e.beq_iff k j);
      }

  pub Step-Inv : {s t : System K} → Step s t → Inv s → Inv t
  Step-Inv {s} (add k p new) v = add-Inv s k p new v
  Step-Inv {s} (opens k p m h small) v = opens-Inv s k p m h small v
  Step-Inv {s} (closes k p m b has h) v = closes-Inv s k p m b has h v
  Step-Inv {s} (starts k p m h) v = starts-Inv s k p m h v
  Step-Inv {s} (finishes k p m d h) v = finishes-Inv s k p m d h v

  pub Reach-Inv : {s : System K} → Reach s → Inv s
  Reach-Inv here = initial-Inv
  Reach-Inv (next r st) = Step-Inv st (Reach-Inv r)
