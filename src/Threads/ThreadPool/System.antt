-- ===== src/Threads/ThreadPool/System.antt =====
-- The pool with its threads: the workers, the calls of `pushTask` that wait, and what has been pushed
-- to and taken from each queue.
use cx_framework.Base.{ℕ, true, ◌≡◌, ◌<◌, List, [], ◌∷◌, ◌++◌, some, ◌==◌, if◌then◌else◌}
use cx_framework.Threads.ThreadPool.{
  PoolTask, ThreadPool, takes, waits, ends, new_pool, push_starts, push_test, pop_enter, pop_woken,
  put_at, stop, set_tasks_by_queue_limit,
}
use cx_framework.Threads.ThreadPool.Shuffle.{IsDraw}

-- A worker runs a task, sleeps in `cond_insertedElement.wait`, has been notified there, or has ended.
pub data Worker : Type 0 where
  busy asleep notified ended : Worker

pub record System : Type 0 where
  pub pool : ThreadPool
  pub workers : ℕ → Worker
  pub pending : List (ℕ × PoolTask)
  pub pushed : ℕ → List PoolTask
  pub popped : ℕ → List PoolTask

-- A new pool with a number of queues and a limit for each of them.
abbrev pub initial : ℕ → ℕ → System
initial n limit = record {
  pool = set_tasks_by_queue_limit limit (new_pool n);
  workers = λ _. busy;
  pending = [];
  pushed = λ _. [];
  popped = λ _. [];
}

abbrev pub becomes : ℕ → Worker → (ℕ → Worker) → ℕ → Worker
becomes w state workers v = if w == v then state else workers v

-- What the threads do, one locked region at a time and in any order. A notification is sent behind the
-- lock, and a wait may also return by itself: a sleeper can wake at any time, whoever notifies.
pub data Step (s : System) : System → Type 0 where
  push_enters :
      (queue : ℕ) (task : PoolTask)
      → queue < s.pool.task_queues
      → push_starts s.pool ≡ true
      → Step s (record s { pending = (queue, task) ∷ s.pending })
  push_inserts :
      (queue : ℕ) (task : PoolTask) (before after : List (ℕ × PoolTask)) (pool : ThreadPool)
      → s.pending ≡ before ++ (queue, task) ∷ after
      → push_test queue task s.pool ≡ some pool
      → Step s (record s {
        pool = pool;
        pending = before ++ after;
        pushed = put_at queue (s.pushed queue ++ task ∷ []) s.pushed;
      })
  push_times_out :
      (queue : ℕ) (task : PoolTask) (before after : List (ℕ × PoolTask))
      → s.pending ≡ before ++ (queue, task) ∷ after
      → Step s (record s { pending = before ++ after })
  pop_takes :
      (w queue : ℕ) (task : PoolTask) (pool : ThreadPool) (draw : ℕ → ℕ)
      → IsDraw draw
      → s.workers w ≡ busy
      → pop_enter draw s.pool ≡ takes queue task pool
      → Step s
          (record s { pool = pool; popped = put_at queue (s.popped queue ++ task ∷ []) s.popped })
  pop_waits :
      (w : ℕ) (draw : ℕ → ℕ)
      → IsDraw draw
      → s.workers w ≡ busy
      → pop_enter draw s.pool ≡ waits
      → Step s (record s { workers = becomes w asleep s.workers })
  woken_takes :
      (w queue : ℕ) (task : PoolTask) (pool : ThreadPool) (draw : ℕ → ℕ)
      → IsDraw draw
      → s.workers w ≡ notified
      → pop_woken draw s.pool ≡ takes queue task pool
      → Step s (record s {
        pool = pool;
        workers = becomes w busy s.workers;
        popped = put_at queue (s.popped queue ++ task ∷ []) s.popped;
      })
  woken_waits :
      (w : ℕ) (draw : ℕ → ℕ)
      → IsDraw draw
      → s.workers w ≡ notified
      → pop_woken draw s.pool ≡ waits
      → Step s (record s { workers = becomes w asleep s.workers })
  woken_ends :
      (w : ℕ) (draw : ℕ → ℕ)
      → IsDraw draw
      → s.workers w ≡ notified
      → pop_woken draw s.pool ≡ ends
      → Step s (record s { workers = becomes w ended s.workers })
  wakes_up :
      (w : ℕ) → s.workers w ≡ asleep → Step s (record s { workers = becomes w notified s.workers })
  stops : Step s (record s { pool = stop s.pool })

pub data Reach (s : System) : System → Type 0 where
  here : Reach s s
  next : {t u : System} → Reach s t → Step t u → Reach s u
