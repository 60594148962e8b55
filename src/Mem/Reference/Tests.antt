-- ===== src/Mem/Reference/Tests.antt =====
-- The theorem on references at three bytes of a view.
use cx_framework.Base.{true, codes, ◌≡◌, arith, take, ◌-◌}
use cx_framework.Mem.Search.{compare}
use cx_framework.Mem.Linear.{Linear, backend}
use cx_framework.Mem.Reference.{ref_backend}
use cx_framework.Mem.Reference
use cx_framework.Mem.Reference.Window.{ref_to, window, shown, compare-window, compare2-window}

abbrev memory : Linear
memory = record { linear_mem = codes "abcdef"; container_bytes = 6 }

compare-window_example :
    compare (codes "de") true 1 (ref_backend (ref_to memory 2 3))
    ≡ compare (codes "de") true 1 (backend (window memory 2 (shown memory 2 3)))
compare-window_example =
    compare-window (codes "de") true 1 2 3 memory (omega arith) (omega arith) (omega arith)

-- `f` lies behind the range.
compare2-window_example :
    Reference.compare2 (codes "def") true 1 (ref_to memory 2 3)
    ≡ compare
        (take (shown memory 2 3 - 1) (codes "def"))
        true
        1
        (backend (window memory 2 (shown memory 2 3)))
compare2-window_example =
    compare2-window (codes "def") true 1 2 3 memory (omega arith) (omega arith) (omega arith)
      (omega arith)
