-- ===== src/Signals/Tests.antt =====
-- kadai3/sem-wait.c and sem-signal.c: the theorems at a run of one process of each.
use excc.Common.{ℕ, ◌+◌, ◌<◌, ◌↔◌, refl, List, [], ◌∷◌, arith, count_if}
use excc.Signals.{
  Pc, wait_start, waiting, passed, signal_start, given, System, init, waiting_line, Move, waits,
  signals, wait_ftok, wait_semget, announce, signal_ftok, signal_semget, signal, step, Steps, here,
  next,
}
use excc.Signals.Balance.{wakes_iff}

abbrev both : List Pc
both = wait_start ∷ signal_start ∷ []

-- One waits, and the other has signalled.
abbrev signalled : System
signalled = record { sem = 1; procs = waiting ∷ given ∷ []; screen = waiting_line ∷ [] }

signalled-Steps : Steps (init 0 both) signalled
signalled-Steps =
    next
      (next
        (next
          (next
            (next (next here (step 0 (omega arith) (waits wait_ftok)))
              (step 1 (omega arith) (signals signal_ftok)))
            (step 0 (omega arith) (waits wait_semget)))
          (step 0 (omega arith) (waits announce)))
        (step 1 (omega arith) (signals signal_semget)))
      (step 1 (omega arith) (signals (signal refl)))

wakes_iff_example : ((text : List (List ℕ)) × (w : ℕ) × Move 1 waiting text w passed) ↔ (0 < 0 + 1)
unfolding count_if
wakes_iff_example = wakes_iff 0 both signalled 0 refl signalled-Steps refl
