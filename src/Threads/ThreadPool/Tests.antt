-- ===== src/Threads/ThreadPool/Tests.antt =====
-- Runs of a pool with two queues.
use cx_framework.Base.{
  ℕ, ◌+◌, ◌≤◌, ◌<◌, true, ◌≡◌, ◌≢◌, ◌↔◌, refl, ap, [], ◌∷◌, ◌++◌, none, some, length, arith,
}
use cx_framework.Threads.ThreadPool.{
  put_at, PoolTask, ThreadPool, takes, ends, new_pool, set_tasks_by_queue_limit, set, swap,
  shuffle_from, safe_random_shuffle, push_starts, push_test, pop_woken,
}
use cx_framework.Threads.ThreadPool.Shuffle.{IsDraw}
use cx_framework.Threads.ThreadPool.Invariant.{Reach-queues, IsTaken}
use cx_framework.Threads.ThreadPool.Stop.{pop_woken-ends_iff}
use cx_framework.Threads.ThreadPool.System.{
  System, initial, Step, push_enters, push_inserts, here, next,
}

abbrev job : PoolTask
job = record { function = some 7; argument = none }

abbrev lowest : ℕ → ℕ
lowest i = 0

lowest-IsDraw : IsDraw lowest
lowest-IsDraw i = omega arith

shuffled : safe_random_shuffle lowest (0 ∷ 1 ∷ 2 ∷ []) ≡ 1 ∷ 2 ∷ 0 ∷ []
unfolding safe_random_shuffle shuffle_from swap set
shuffled = refl

abbrev start : System
start = initial 2 1

abbrev entered : System
entered = record start { pending = (1, job) ∷ [] }

entering : Step start entered
unfolding new_pool set_tasks_by_queue_limit push_starts
entering = push_enters 1 job (omega arith) refl

abbrev filled : ThreadPool
filled = record start.pool { queues = put_at 1 (start.pool.queues 1 ++ job ∷ []) start.pool.queues }

abbrev inserted : System
inserted = record entered {
  pool = filled;
  pending = [];
  pushed = put_at 1 (entered.pushed 1 ++ job ∷ []) entered.pushed;
}

inserting : Step entered inserted
unfolding new_pool set_tasks_by_queue_limit push_test
inserting = push_inserts 1 job [] [] filled refl refl

Reach-queues_example :
    (inserted.pushed 1 ≡ inserted.popped 1 ++ inserted.pool.queues 1)
    × (length (inserted.pool.queues 1) ≤ 1 + 1)
Reach-queues_example = Reach-queues 2 1 inserted 1 (next (next here entering) inserting)

-- A queue takes a task while it holds no more than its limit.
one_more :
    (pool : ThreadPool)
    → pool.tasks_by_queue_limit ≡ 1
    → pool.queues 0 ≡ job ∷ []
    → push_test 0 job pool ≢ none
unfolding push_test
one_more pool l q = ground (arith, ap (length {0}) q)

pop_woken-ends_iff_example :
    ((pop_woken lowest filled ≡ ends)
      ↔ ((filled.terminate ≡ true) × ((i : ℕ) → i < filled.task_queues → filled.queues i ≡ [])))
    × ((i : ℕ)
        → i < filled.task_queues
        → filled.queues i ≢ []
        → (queue : ℕ) × (queue < filled.task_queues)
          × (task : PoolTask) × (pool' : ThreadPool) × (pop_woken lowest filled
              ≡ takes queue task pool')
          × IsTaken filled queue task pool')
pop_woken-ends_iff_example = pop_woken-ends_iff lowest filled lowest-IsDraw
