-- ===== src/Semaphore.antt =====
-- The System V semaphore of kadai3/file-counter.c, barrier_sync.c, sem-wait.c and sem-signal.c: what
-- their calls of `semop` do to its value. `none` means that the call blocks.
use mathlib.Core.Option.{Option, none, some}
use excc.Common.{ℕ, ◌+◌, ◌-◌, leb, ◌==◌, if◌then◌else◌}

-- The sign of `sem_op`: below, at and above zero.
pub data SemOp : Type 0 where
  take : ℕ → SemOp
  wait_zero : SemOp
  give : ℕ → SemOp

abbrev pub semop : SemOp → ℕ → Option ℕ
semop (take k) v = if leb k v then some (v - k) else none
semop wait_zero v = if v == 0 then some v else none
semop (give k) v = some (v + k)
