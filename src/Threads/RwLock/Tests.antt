-- ===== src/Threads/RwLock/Tests.antt =====
-- A lock that one writer, or one reader, holds at a time.
use cx_framework.Base.{Bool, true, false, ◌≡◌, refl, Option, none, some}
use cx_framework.Threads.RwLock.{PthreadRwlock, enter_rd, leave_rd, enter_rw, leave_rw}
use cx_framework.Threads.RwLock.Guards.{GivesBack, leave-enter}

abbrev taken_by_one : Bool → Option Bool
taken_by_one true = none
taken_by_one false = some true

abbrev single : PthreadRwlock
single = record { State = Bool; rdlock = taken_by_one; wrlock = taken_by_one; unlock = λ _. false }

restored : (m m' : Bool) → taken_by_one m ≡ some m' → false ≡ m
restored true m' h = cc
restored false m' h = refl

-- With the default argument the writer's guard is entered while another holds the lock.
not_locked_out : enter_rw single false true ≡ some (record { dontlock = false }, true)
unfolding enter_rw
not_locked_out = refl

writer_restores :
    GivesBack single (leave_rd single) false (enter_rd single true false)
    × GivesBack single (leave_rw single) false (enter_rw single true false)
writer_restores = leave-enter single true false (restored, restored)
