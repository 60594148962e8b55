-- ===== src/Threads/ThreadPool/Stop.antt =====
-- The end of the workers.
use cx_framework.Base.{
  ℕ, ◌<◌, Bool, true, false, ◌≡◌, ◌≢◌, ◌↔◌, inl, inr, refl, ◌∙◌, ap, [], Option, none, some,
  Option-cases,
}
use cx_framework.Threads.ThreadPool.{
  PoolTask, ThreadPool, takes, put_at, ends, take_front, popped_from, woken_from, pop_woken,
  get_random_task_queue_with_elements,
}
use cx_framework.Threads.ThreadPool.Shuffle.{IsDraw, cases_of, random_queue_none, random_queue_some}
use cx_framework.Threads.ThreadPool.Invariant.{IsTaken, pop_woken-IsTaken}

popped_from-ne-ends : (found : Option ℕ) (p : ThreadPool) → popped_from found p ≢ ends
unfolding popped_from take_front
popped_from-ne-ends none p h = cc
popped_from-ne-ends (some i) p h = elim (cases_of (p.queues i)) [
  | inl e ↦ cc (rw (e, popped_from, take_front) at h)
  | inr (t, ts, e) ↦ cc (rw (e, popped_from, take_front) at h)
]

woken_from-ends :
    (stopped : Bool) (found : Option ℕ) (p : ThreadPool)
    → (woken_from stopped found p ≡ ends) ↔ ((stopped ≡ true) × (found ≡ none))
unfolding woken_from
woken_from-ends true none p = (λ _. (refl, refl), λ _. refl)
woken_from-ends true (some i) p = (λ h. absurd (popped_from-ne-ends (some i) p h), λ h. cc (h.1))
woken_from-ends false found p = (λ h. absurd (popped_from-ne-ends found p h), λ h. cc (h.0))

popped_from-some :
    (i : ℕ) (p : ThreadPool)
    → p.queues i ≢ []
    → (task : PoolTask) × (p' : ThreadPool) × (popped_from (some i) p ≡ takes i task p')
unfolding popped_from take_front
popped_from-some i p full = elim (cases_of (p.queues i)) [
  | inl e ↦ absurd (full e)
  | inr (t, ts, e) ↦
      (t, record p { queues = put_at i ts p.queues }, rw (e, popped_from, take_front) refl)
]

woken_from-some :
    (stopped : Bool) (i : ℕ) (p : ThreadPool)
    → woken_from stopped (some i) p ≡ popped_from (some i) p
unfolding woken_from
woken_from-some true i p = refl
woken_from-some false i p = refl

-- A worker that has been woken leaves the pool exactly when the pool terminates and all of its queues
-- are empty, whatever is drawn. Where a queue of the pool holds a task, also where the pool terminates,
-- the worker takes the first task of some queue of the pool, and takes it off that queue alone.
pub pop_woken-ends_iff :
    (draw : ℕ → ℕ) (pool : ThreadPool)
    → IsDraw draw
    → ((pop_woken draw pool ≡ ends)
        ↔ ((pool.terminate ≡ true) × ((i : ℕ) → i < pool.task_queues → pool.queues i ≡ [])))
      × ((i : ℕ)
          → i < pool.task_queues
          → pool.queues i ≢ []
          → (queue : ℕ) × (queue < pool.task_queues)
            × (task : PoolTask) × (pool' : ThreadPool) × (pop_woken draw pool
                ≡ takes queue task pool')
            × IsTaken pool queue task pool')
unfolding pop_woken
pop_woken-ends_iff draw pool d =
    let found = get_random_task_queue_with_elements draw pool in
    let iff = woken_from-ends pool.terminate found pool in
    (
      (
        λ h. ((iff.0 h).0, random_queue_none draw pool d (iff.0 h).1),
        λ (stopped, empty). elim (Option-cases found) [
          | inl e ↦ iff.1 (stopped, e)
          | inr (i, e) ↦
              let (full, lt) = random_queue_some draw pool i d e in absurd (full (empty i lt))
        ],
      ),
      λ i lt full. elim (Option-cases found) [
        | inl e ↦ absurd (full (random_queue_none draw pool d e i lt))
        | inr (j, e) ↦
            let (full_j, lt_j) = random_queue_some draw pool j d e in
            let (task, pool', taken) = popped_from-some j pool full_j in
            let run : woken_from pool.terminate found pool ≡ takes j task pool' =
              ap (λ (o : Option ℕ). woken_from pool.terminate o pool) e
              ∙ woken_from-some pool.terminate j pool
              ∙ taken in
            (j, lt_j, task, pool', run, pop_woken-IsTaken draw pool pool' j task run)
      ],
    )
