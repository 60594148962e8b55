-- ===== src/Threads/RwLock.antt =====
-- cxThreads/libcx_thr_mutex/src: `Mutex_RW` of mutex_rw.cpp and the guards `Lock_Mutex_RD` and
-- `Lock_Mutex_RW` of lock_mutex_rd.cpp and lock_mutex_rw.cpp. The lock of pthreads is a parameter.
pub mod Guards
mod Tests
use cx_framework.Base.{Bool, true, false, Option, none, some, ◌>>=◌, if◌then◌else◌}

-- A read-write lock: `none` is a call that waits.
pub record PthreadRwlock : Type 1 where
  pub State : Type 0
  pub rdlock : State → Option State
  pub wrlock : State → Option State
  pub unlock : State → State

-- What a guard keeps: the mutex is that of the section, and `dontlock`.
pub record Guard : Type 0 where
  pub dontlock : Bool

module _ (l : PthreadRwlock) where
  open l use {State, rdlock, wrlock}

  -- The members of `Mutex_RW`.
  pub lock : State → Option State
  lock m = wrlock m

  pub unlock : State → State
  unlock m = l.unlock m

  pub lock_shared : State → Option State
  lock_shared m = rdlock m

  pub unlock_shared : State → State
  unfolding unlock
  unlock_shared m = unlock m

  -- The constructor and the destructor of `Lock_Mutex_RD`.
  pub enter_rd : Bool → State → Option (Guard × State)
  unfolding lock_shared
  enter_rd dontlock m =
      if dontlock
      then some (record { dontlock = dontlock }, m)
      else (do m' ← lock_shared m; some (record { dontlock = dontlock }, m'))

  pub leave_rd : Guard → State → State
  unfolding unlock_shared
  leave_rd g m = if g.dontlock then m else unlock_shared m

  -- Those of `Lock_Mutex_RW`, which lock where `dontlock` is true.
  pub enter_rw : Bool → State → Option (Guard × State)
  unfolding lock
  enter_rw dontlock m =
      if dontlock
      then (do m' ← lock m; some (record { dontlock = dontlock }, m'))
      else some (record { dontlock = dontlock }, m)

  pub leave_rw : Guard → State → State
  unfolding unlock
  leave_rw g m = if g.dontlock then unlock m else m
