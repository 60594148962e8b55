-- ===== src/Threads/RwLock/Guards.antt =====
-- The guards of the lock, entered and left.
use cx_framework.Base.{Bool, true, false, ◌≡◌, refl, Option, none, some, Option-cases, inl, inr}
use cx_framework.Threads.RwLock.{
  PthreadRwlock, Guard, lock, unlock, lock_shared, unlock_shared, enter_rd, leave_rd, enter_rw,
  leave_rw,
}

-- Giving a lock up after it was taken, in either way, restores its state.
abbrev pub Restores : PthreadRwlock → Type 0
Restores l =
    ((m m' : l.State) → l.rdlock m ≡ some m' → l.unlock m' ≡ m)
    × ((m m' : l.State) → l.wrlock m ≡ some m' → l.unlock m' ≡ m)

module _ (l : PthreadRwlock) where
  -- A guard is entered in a state of the lock, and left in the state that it made.
  abbrev pub GivesBack : (Guard → l.State → l.State) → l.State → Option (Guard × l.State) → Type 0
  GivesBack leave m none = Unit
  GivesBack leave m (some (g, m')) = leave g m' ≡ m

  -- For a lock whose release restores its state, and with either argument, each of the two guards
  -- leaves the lock, when it goes out of scope, in the state in which it found it, if it was entered.
  pub leave-enter :
      (dontlock : Bool) (m : l.State)
      → Restores l
      → GivesBack (leave_rd l) m (enter_rd l dontlock m)
        × GivesBack (leave_rw l) m (enter_rw l dontlock m)
  unfolding enter_rd leave_rd enter_rw leave_rw unlock unlock_shared lock lock_shared
  leave-enter true m (rd, wr) =
      (refl, elim (Option-cases (l.wrlock m)) [ inl e ↦ rw e tt | inr (m', e) ↦ rw e (wr m m' e) ])
  leave-enter false m (rd, wr) =
      (elim (Option-cases (l.rdlock m)) [ inl e ↦ rw e tt | inr (m', e) ↦ rw e (rd m m' e) ], refl)
