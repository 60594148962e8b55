-- ===== src/Threads/Queue/Tests.antt =====
-- Calls on queues of numbers.
use cx_framework.Base.{ℕ, true, false, ◌≡◌, refl, some, [], ◌∷◌}
use cx_framework.Threads.Queue.{TsQueue, notified, is_full, put_last, push, take_first, pop}
use cx_framework.Threads.Queue.Order.{Found, PoppedFrom, pop-PoppedFrom}

abbrev full : TsQueue ℕ
full = record { items = 1 ∷ 2 ∷ []; max_items = 2 }

abbrev drained : TsQueue ℕ
drained = record { items = 2 ∷ []; max_items = 2 }

abbrev refilled : TsQueue ℕ
refilled = record { items = 2 ∷ 3 ∷ []; max_items = 2 }

-- A call that waits goes on when another has taken an item.
waited : push 3 100 (notified drained ∷ []) full ≡ some (refilled, true)
unfolding push is_full put_last
waited = refl

gave_up : push 3 0 [] full ≡ some (full, false)
unfolding push is_full
gave_up = refl

taken : pop 100 [] full ≡ some (drained, some 1)
unfolding pop take_first
taken = refl

pop-PoppedFrom_example :
    (found : TsQueue ℕ) × Found found full [] × PoppedFrom found (drained, some 1)
pop-PoppedFrom_example = pop-PoppedFrom 100 [] full drained (some 1) taken
