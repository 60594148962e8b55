-- ===== src/Threads/ThreadPool/Invariant.antt =====
-- What holds of the queues between two locked regions.
use cx_framework.Base.{
  ℕ, ◌+◌, ◌≤◌, Bool, true, false, ◌≡◌, inl, inr, refl, ◌∙◌, ap, sym, List, [], ◌∷◌, ◌++◌,
  append_assoc, Option, none, some, ◌==◌, ==_iff, ltb, length, length-append, arith, Bool-cases,
}
use cx_framework.Threads.ThreadPool.{
  PoolTask, ThreadPool, takes, new_pool, set_tasks_by_queue_limit, push_test, take_front,
  popped_from, pop_enter, woken_from, pop_woken, put_at, stop, get_random_task_queue_with_elements,
}
use cx_framework.Threads.ThreadPool.Shuffle.{cases_of}
use cx_framework.Threads.ThreadPool.System.{
  Worker, busy, becomes, System, initial, Step, push_enters, push_inserts, push_times_out,
  pop_takes, pop_waits, woken_takes, woken_waits, woken_ends, wakes_up, stops, Reach, here, next,
}

-- What has been pushed to a queue is what has been taken from it and then what it holds, in order;
-- and the queue holds at most one task more than the limit.
pub record Inv (limit : ℕ) (s : System) : Type 0 where
  pub kept : (i : ℕ) → s.pushed i ≡ s.popped i ++ s.pool.queues i
  pub bounded : (i : ℕ) → length (s.pool.queues i) ≤ limit + 1
  pub limited : s.pool.tasks_by_queue_limit ≡ limit

push_test-inv :
    (queue : ℕ) (task : PoolTask) (p p' : ThreadPool)
    → push_test queue task p ≡ some p'
    → ((j : ℕ) → p'.queues j ≡ put_at queue (p.queues queue ++ task ∷ []) p.queues j)
      × (p'.tasks_by_queue_limit ≡ p.tasks_by_queue_limit)
      × (length (p.queues queue) ≤ p.tasks_by_queue_limit)
unfolding push_test
push_test-inv queue task p p' h =
    elim (Bool-cases (ltb p.tasks_by_queue_limit (length (p.queues queue)))) [
      | inl full ↦ cc (rw full at h)
      | inr fits ↦
          let eq : record p { queues = put_at queue (p.queues queue ++ task ∷ []) p.queues } ≡ p' =
            cc (rw fits at h) in
          (
            λ j. ap (λ (q : ThreadPool). q.queues j) (sym eq),
            ap (λ (q : ThreadPool). q.tasks_by_queue_limit) (sym eq),
            ground arith,
          )
    ]

-- What taking a task does to the queues.
pub record IsTaken (p : ThreadPool) (queue : ℕ) (task : PoolTask) (p' : ThreadPool) : Type 0 where
  pub rest : List PoolTask
  pub front : p.queues queue ≡ task ∷ rest
  pub others : (j : ℕ) → p'.queues j ≡ put_at queue rest p.queues j
  pub limit : p'.tasks_by_queue_limit ≡ p.tasks_by_queue_limit
  pub running : p'.terminate ≡ p.terminate

popped_from-IsTaken :
    (found : Option ℕ) (p p' : ThreadPool) (queue : ℕ) (task : PoolTask)
    → popped_from found p ≡ takes queue task p'
    → IsTaken p queue task p'
unfolding popped_from take_front
popped_from-IsTaken none p p' queue task h = cc
popped_from-IsTaken (some i) p p' queue task h = elim (cases_of (p.queues i)) [
  | inl e ↦ cc (rw (e, popped_from, take_front) at h)
  | inr (t, ts, e) ↦
      let h' = rw (e, popped_from, take_front) at h in
      let same_queue : i ≡ queue = cc h' in
      let same_task : t ≡ task = cc h' in
      let eq : record p { queues = put_at i ts p.queues } ≡ p' = cc h' in
      record {
        rest = ts;
        front = sym (ap p.queues same_queue) ∙ e ∙ ap (λ (x : PoolTask). x ∷ ts) same_task;
        others = λ j.
            ap (λ (q : ThreadPool). q.queues j) (sym eq)
            ∙ ap (λ (k : ℕ). put_at k ts p.queues j) same_queue;
        limit = ap (λ (q : ThreadPool). q.tasks_by_queue_limit) (sym eq);
        running = ap (λ (q : ThreadPool). q.terminate) (sym eq);
      }
]

pub pop_enter-IsTaken :
    (draw : ℕ → ℕ) (p p' : ThreadPool) (queue : ℕ) (task : PoolTask)
    → pop_enter draw p ≡ takes queue task p'
    → IsTaken p queue task p'
unfolding pop_enter
pop_enter-IsTaken draw p p' queue task h =
    popped_from-IsTaken (get_random_task_queue_with_elements draw p) p p' queue task h

woken_from-IsTaken :
    (stopped : Bool) (found : Option ℕ) (p p' : ThreadPool) (queue : ℕ) (task : PoolTask)
    → woken_from stopped found p ≡ takes queue task p'
    → IsTaken p queue task p'
unfolding woken_from
woken_from-IsTaken true none p p' queue task h = cc
woken_from-IsTaken true (some i) p p' queue task h = popped_from-IsTaken (some i) p p' queue task h
woken_from-IsTaken false found p p' queue task h = popped_from-IsTaken found p p' queue task h

pub pop_woken-IsTaken :
    (draw : ℕ → ℕ) (p p' : ThreadPool) (queue : ℕ) (task : PoolTask)
    → pop_woken draw p ≡ takes queue task p'
    → IsTaken p queue task p'
unfolding pop_woken
pop_woken-IsTaken draw p p' queue task h =
    woken_from-IsTaken p.terminate (get_random_task_queue_with_elements draw p) p p' queue task h

taken-Inv :
    (l : ℕ) (s : System) (queue : ℕ) (task : PoolTask) (p' : ThreadPool) (workers : ℕ → Worker)
    → IsTaken s.pool queue task p'
    → Inv l s
    → Inv l (record s {
      pool = p';
      workers = workers;
      popped = put_at queue (s.popped queue ++ task ∷ []) s.popped;
    })
taken-Inv l s queue task p' workers t v = record {
  kept = λ i. elim (Bool-cases (queue == i)) [
    | inl same ↦
        let moved : s.pushed queue ≡ (s.popped queue ++ task ∷ []) ++ t.rest =
          v.kept queue
          ∙ ap (λ (x : List PoolTask). s.popped queue ++ x) t.front
          ∙ sym (append_assoc (s.popped queue) (task ∷ []) t.rest) in
        let eq : queue ≡ i = (==_iff queue i).0 same in
        rw same (ground (arith, moved, ap s.pushed eq, t.others i))
    | inr other ↦ rw other (ground (arith, v.kept i, t.others i))
  ];
  bounded = λ i. ground (
    arith,
    v.bounded i,
    v.bounded queue,
    t.others i,
    t.limit,
    ap (length {0}) t.front,
    ==_iff queue i,
  );
  limited = t.limit ∙ v.limited;
}

inserted-Inv :
    (l : ℕ) (s : System) (queue : ℕ) (task : PoolTask) (p' : ThreadPool)
    (pending : List (ℕ × PoolTask))
    → push_test queue task s.pool ≡ some p'
    → Inv l s
    → Inv l (record s {
      pool = p';
      pending = pending;
      pushed = put_at queue (s.pushed queue ++ task ∷ []) s.pushed;
    })
inserted-Inv l s queue task p' pending h v =
    let (others, limit, fits) = push_test-inv queue task s.pool p' h in
    record {
      kept = λ i. elim (Bool-cases (queue == i)) [
        | inl same ↦
            let eq : queue ≡ i = (==_iff queue i).0 same in
            let moved : s.pushed queue ++ task ∷ []
                ≡ s.popped queue ++ (s.pool.queues queue ++ task ∷ []) =
              ap (λ (x : List PoolTask). x ++ task ∷ []) (v.kept queue)
              ∙ append_assoc (s.popped queue) (s.pool.queues queue) (task ∷ []) in
            rw same (ground (arith, moved, ap s.popped eq, others i))
        | inr other ↦ rw other (ground (arith, v.kept i, others i))
      ];
      bounded = λ i. ground (
        arith,
        v.bounded i,
        others i,
        v.limited,
        fits,
        length-append (s.pool.queues queue) (task ∷ []),
      );
      limited = limit ∙ v.limited;
    }

Step-Inv : {s t : System} (l : ℕ) → Step s t → Inv l s → Inv l t
unfolding stop
Step-Inv {s} l (push_enters queue task lt runs) v = record {
  kept = v.kept;
  bounded = v.bounded;
  limited = v.limited;
}
Step-Inv {s} l (push_inserts queue task before after pool e h) v =
    inserted-Inv l s queue task pool (before ++ after) h v
Step-Inv {s} l (push_times_out queue task before after e) v = record {
  kept = v.kept;
  bounded = v.bounded;
  limited = v.limited;
}
Step-Inv {s} l (pop_takes w queue task pool draw d b h) v =
    taken-Inv l s queue task pool s.workers (pop_enter-IsTaken draw s.pool pool queue task h) v
Step-Inv {s} l (pop_waits w draw d b h) v = record {
  kept = v.kept;
  bounded = v.bounded;
  limited = v.limited;
}
Step-Inv {s} l (woken_takes w queue task pool draw d b h) v =
    taken-Inv l s queue task pool (becomes w busy s.workers)
      (pop_woken-IsTaken draw s.pool pool queue task h) v
Step-Inv {s} l (woken_waits w draw d b h) v = record {
  kept = v.kept;
  bounded = v.bounded;
  limited = v.limited;
}
Step-Inv {s} l (woken_ends w draw d b h) v = record {
  kept = v.kept;
  bounded = v.bounded;
  limited = v.limited;
}
Step-Inv {s} l (wakes_up w h) v = record { kept = v.kept; bounded = v.bounded; limited = v.limited }
Step-Inv {s} l stops v = record { kept = v.kept; bounded = v.bounded; limited = v.limited }

initial-Inv : (n l : ℕ) → Inv l (initial n l)
unfolding new_pool set_tasks_by_queue_limit
initial-Inv n l = record { kept = λ i. refl; bounded = λ i. omega arith; limited = refl }

Reach-Inv : {s t : System} (l : ℕ) → Inv l s → Reach s t → Inv l t
Reach-Inv l v here = v
Reach-Inv l v (next r st) = Step-Inv l st (Reach-Inv l v r)

-- In every state that the threads reach from a new pool, the tasks that were pushed to a queue are,
-- in their order, those that were taken from it followed by those that it still holds: none is lost,
-- taken twice or overtaken. A queue holds at most one task more than the limit.
pub Reach-queues :
    (n limit : ℕ) (s : System) (i : ℕ)
    → Reach (initial n limit) s
    → (s.pushed i ≡ s.popped i ++ s.pool.queues i) × (length (s.pool.queues i) ≤ limit + 1)
Reach-queues n limit s i r =
    let v = Reach-Inv limit (initial-Inv n limit) r in (v.kept i, v.bounded i)
