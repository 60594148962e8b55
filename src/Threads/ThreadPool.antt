-- ===== src/Threads/ThreadPool.antt =====
-- cxThreads/libcx_thr_threadpool/src/threadpool.cpp: `ThreadPool`, whose worker threads take tasks
-- from queues that are chosen at random. What a generator draws is an argument. A region under
-- `mutexQueues` is a function of the pool; a call that gives the lock up while it waits is cut there.
pub mod Shuffle
pub mod System
pub mod Invariant
pub mod Stop
mod Tests
use cx_framework.Base.{
  ℕ, zero, suc, ◌+◌, ◌-◌, ◌<◌, ◌≤◌, Bool, true, false, ◌&&◌, Option, none, some, List, [], ◌∷◌,
  ◌++◌, length, get_elem?, get_or, take, ltb, leb, ◌==◌, if◌then◌else◌,
}

-- `sTask`: two pointers.
pub record PoolTask : Type 0 where
  pub function : Option ℕ
  pub argument : Option ℕ

-- The members of `ThreadPool` that the queues need: `queues` by number, and how many there are.
pub record ThreadPool : Type 0 where
  pub queues : ℕ → List PoolTask
  pub task_queues : ℕ
  pub tasks_by_queue_limit : ℕ
  pub terminate : Bool

-- The constructor.
pub new_pool : ℕ → ThreadPool
new_pool task_queues = record {
  queues = λ _. [];
  task_queues = task_queues;
  tasks_by_queue_limit = 100;
  terminate = false;
}

pub set_tasks_by_queue_limit : ℕ → ThreadPool → ThreadPool
set_tasks_by_queue_limit value pool = record pool { tasks_by_queue_limit = value }

abbrev pub put_at : ℕ → List PoolTask → (ℕ → List PoolTask) → ℕ → List PoolTask
put_at i tasks queues j = if i == j then tasks else queues j

-- A write at an index of a vector.
pub set : List ℕ → ℕ → ℕ → List ℕ
set [] i v = []
set (x ∷ xs) zero v = v ∷ xs
set (x ∷ xs) (suc i) v = x ∷ set xs i v

-- `std::swap(first[i], first[j])`.
pub swap : List ℕ → ℕ → ℕ → List ℕ
swap xs i j = set (set xs i (get_or xs j 0)) j (get_or xs i 0)

-- The loop of `safe_random_shuffle` from `i` down to 1, with what is drawn from 0 to `i` for each.
pub shuffle_from : ℕ → (ℕ → ℕ) → List ℕ → List ℕ
shuffle_from zero draw xs = xs
shuffle_from (suc i) draw xs = shuffle_from i draw (swap xs (suc i) (draw (suc i)))

pub safe_random_shuffle : (ℕ → ℕ) → List ℕ → List ℕ
safe_random_shuffle draw xs = shuffle_from (length xs - 1) draw xs

-- `for (i = from; i < from + n; ++i) fullVector.push_back(i);`
pub full_vector : ℕ → ℕ → List ℕ
full_vector zero from = []
full_vector (suc n) from = from ∷ full_vector n (from + 1)

-- The first queue in an order that holds a task.
pub first_with_elements : List ℕ → (ℕ → List PoolTask) → Option ℕ
first_with_elements [] queues = none
first_with_elements (i ∷ order) queues = elim (queues i) [
  | [] ↦ first_with_elements order queues
  | _ ∷ _ ↦ some i
]

pub get_random_task_queue_with_elements : (ℕ → ℕ) → ThreadPool → Option ℕ
get_random_task_queue_with_elements draw pool =
    first_with_elements (safe_random_shuffle draw (full_vector pool.task_queues 0)) pool.queues

-- How many queues a priority opens; `scaled` is `queues.size() * priority` as a `size_t`.
pub elements_for : ℕ → ℕ → ℕ
elements_for scaled size =
    let elements = if scaled == 0 then 1 else scaled in if ltb size elements then size else elements

-- The queue for a key: `by_key` is drawn by the generator that the hash of the key seeds, and
-- `drawn` by the shared one; `none` is the exception of `at`.
pub get_random_queue_by_key : ℕ → (ℕ → ℕ) → ℕ → ThreadPool → Option ℕ
get_random_queue_by_key scaled by_key drawn pool =
    get_elem?
      (take (elements_for scaled pool.task_queues)
        (safe_random_shuffle by_key (full_vector pool.task_queues 0)))
      drawn

-- `pushTask` once it has the lock: it goes on unless the pool terminates.
pub push_starts : ThreadPool → Bool
push_starts pool = if pool.terminate then false else true

-- One test of its loop: the pool with the task, or `none` to wait.
pub push_test : ℕ → PoolTask → ThreadPool → Option ThreadPool
push_test queue task pool =
    if ltb pool.tasks_by_queue_limit (length (pool.queues queue))
    then none
    else some (record pool { queues = put_at queue (pool.queues queue ++ task ∷ []) pool.queues })

-- `tq->tasks.front()` and `tq->tasks.pop()`.
pub take_front : ℕ → ThreadPool → Option (PoolTask × ThreadPool)
take_front queue pool = elim (pool.queues queue) [
  | [] ↦ none
  | task ∷ tasks ↦ some (task, record pool { queues = put_at queue tasks pool.queues })
]

-- What a thread inside of `popTask` does with the lock: takes a task, waits, or returns the null
-- task, upon which `taskProcessor` ends.
pub data Popped : Type 0 where
  takes : ℕ → PoolTask → ThreadPool → Popped
  waits : Popped
  ends : Popped

popped_from : Option ℕ → ThreadPool → Popped
popped_from none pool = waits
popped_from (some queue) pool = elim (take_front queue pool) [
  | none ↦ waits
  | some (task, pool') ↦ takes queue task pool'
]

-- `popTask` up to its first wait.
pub pop_enter : (ℕ → ℕ) → ThreadPool → Popped
unfolding popped_from
pop_enter draw pool = popped_from (get_random_task_queue_with_elements draw pool) pool

-- The body of the loop behind the wait, and the test of the loop. Both calls of
-- `getRandomTaskQueueWithElements` stand in branches of which one is taken.
woken_from : Bool → Option ℕ → ThreadPool → Popped
woken_from true none pool = ends
woken_from true (some queue) pool = popped_from (some queue) pool
woken_from false found pool = popped_from found pool

pub pop_woken : (ℕ → ℕ) → ThreadPool → Popped
unfolding woken_from popped_from
pop_woken draw pool = woken_from pool.terminate (get_random_task_queue_with_elements draw pool) pool

pub stop : ThreadPool → ThreadPool
stop pool = record pool { terminate = true }
