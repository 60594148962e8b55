-- ===== src/Threads/Queue.antt =====
-- cxThreads/libcx_thr_mutex_queue/src/ts_queue.h: `TS_Queue`, a queue with a bound. A call gives its
-- lock up while it waits; how each wait ends, and how the others have left the queue by then, is given
-- with the call.
pub mod Order
mod Tests
use cx_framework.Base.{
  ℕ, Bool, true, false, Option, none, some, List, [], ◌∷◌, ◌++◌, length, leb, ◌==◌, if◌then◌else◌,
}

-- `_queue` and `*maxItems`.
pub record TsQueue {ℓ} (A : Type ℓ) : Type ℓ where
  pub items : List A
  pub max_items : ℕ

-- How `wait_for` ends: by its time, or notified.
pub data Wait {ℓ} (A : Type ℓ) : Type ℓ where
  timed_out : TsQueue A → Wait A
  notified : TsQueue A → Wait A

module _ {ℓ} {A : Type ℓ} where
  -- `setMaxItems`.
  pub set_max_items : ℕ → TsQueue A → TsQueue A
  set_max_items n q = record q { max_items = n }

  pub size : TsQueue A → ℕ
  size q = length q.items

  -- `_queue.size() >= *maxItems`.
  pub is_full : TsQueue A → Bool
  is_full q = leb q.max_items (length q.items)

  pub put_last : A → TsQueue A → TsQueue A
  put_last item q = record q { items = q.items ++ item ∷ [] }

  -- `push`: the queue behind the call and its result, or `none` while it still waits.
  pub push : A → ℕ → List (Wait A) → TsQueue A → Option (TsQueue A × Bool)
  unfolding is_full put_last
  push item tmout_msecs [] q =
      if is_full q
      then if tmout_msecs == 0 then some (q, false) else none
      else some (put_last item q, true)
  push item tmout_msecs (timed_out q' ∷ waits) q =
      if is_full q
      then if tmout_msecs == 0 then some (q, false) else some (q', false)
      else some (put_last item q, true)
  push item tmout_msecs (notified q' ∷ waits) q =
      let again = push item tmout_msecs waits q' in
      if is_full q
      then if tmout_msecs == 0 then some (q, false) else again
      else some (put_last item q, true)

  -- The front that `pop` takes, and the rest.
  take_first : List A → ℕ → Option (TsQueue A × Option A) → Option (TsQueue A × Option A)
  take_first [] n waiting = waiting
  take_first (a ∷ rest) n waiting = some (record { items = rest; max_items = n }, some a)

  -- `pop`: the queue behind the call and what it returns, of which `none` is the null pointer.
  pub pop : ℕ → List (Wait A) → TsQueue A → Option (TsQueue A × Option A)
  unfolding take_first
  pop tmout_msecs [] q =
      take_first q.items q.max_items (if tmout_msecs == 0 then some (q, none) else none)
  pop tmout_msecs (timed_out q' ∷ waits) q =
      take_first q.items q.max_items (if tmout_msecs == 0 then some (q, none) else some (q', none))
  pop tmout_msecs (notified q' ∷ waits) q =
      let again = pop tmout_msecs waits q' in
      take_first q.items q.max_items (if tmout_msecs == 0 then some (q, none) else again)
