-- ===== src/FileCounter/Tests.antt =====
-- kadai3/file-counter.c: the theorems at concrete runs of two processes.
use mathlib.Core.Option.{none, some}
use excc.Common.{ℕ, zero, suc, ◌≤◌, ◌<◌, ◌≡◌, refl, true, false, arith, [], ◌∷◌}
use excc.Semaphore.{semop, take}
use excc.FileCounter.{
  System, pc, start, finished, aborted, lock, scan, truncate, print, unlock, open_fails_reading,
  step, Steps, here, next, Reach,
}
use excc.FileCounter.Critical.{holds, result, total}
use excc.FileCounter.Counting.{
  count1_exclusive, count1_numbers, count1_exit_blocks, is_finished, has_exited,
}
use excc.FileCounter.Finishing.{count1_finishes}

-- The second process has finished, the first has not begun.
abbrev one_done : System
one_done = record { sem = 1; file = some 1; procs = start ∷ finished 1 ∷ [] }

one_done-Reach : Reach 2 one_done
one_done-Reach =
    next
      (next
        (next
          (next (next here (step 1 (omega arith) (lock refl))) (step 1 (omega arith) (scan refl)))
          (step 1 (omega arith) truncate))
        (step 1 (omega arith) print))
      (step 1 (omega arith) (unlock refl))

abbrev both_done : System
both_done = record { sem = 1; file = some 2; procs = finished 2 ∷ finished 1 ∷ [] }

both_done-Reach : Reach 2 both_done
both_done-Reach =
    next
      (next
        (next
          (next (next one_done-Reach (step 0 (omega arith) (lock refl)))
            (step 0 (omega arith) (scan refl)))
          (step 0 (omega arith) truncate))
        (step 0 (omega arith) print))
      (step 0 (omega arith) (unlock refl))

-- The second process has exited because it could not open the file.
abbrev one_lost : System
one_lost = record { sem = 0; file = some 0; procs = start ∷ aborted ∷ [] }

one_lost-Reach : Reach 2 one_lost
one_lost-Reach =
    next (next here (step 1 (omega arith) (lock refl))) (step 1 (omega arith) open_fails_reading)

count1_exclusive_example :
    ((i j : ℕ)
      → i < 2
      → j < 2
      → holds (pc one_lost i) ≡ true
      → holds (pc one_lost j) ≡ true
      → i ≡ j)
    × (((i : ℕ) → i < 2 → holds (pc one_lost i) ≡ false) → some 0 ≡ some (total one_lost))
count1_exclusive_example = count1_exclusive 2 one_lost one_lost-Reach

count1_numbers_example :
    ((i c : ℕ) → i < 2 → result (pc both_done i) ≡ some c → (0 < c) × (c ≤ total both_done))
    × ((c : ℕ)
        → 0 < c
        → c ≤ total both_done
        → (i : ℕ) × (i < 2) × (result (pc both_done i) ≡ some c))
    × ((i j c : ℕ)
        → i < 2
        → j < 2
        → result (pc both_done i) ≡ some c
        → result (pc both_done j) ≡ some c
        → i ≡ j)
count1_numbers_example = count1_numbers 2 both_done both_done-Reach

both_finished : (i : ℕ) → i < 2 → is_finished (pc both_done i) ≡ true
both_finished zero h = refl
both_finished (suc zero) h = refl
both_finished (suc (suc i)) h = absurd (omega arith)

one_alive : (i : ℕ) → i < 2 → has_exited (pc one_done i) ≡ false
one_alive zero h = refl
one_alive (suc zero) h = refl
one_alive (suc (suc i)) h = absurd (omega arith)

count1_finishes_example :
    (t : System) × Steps one_done t
    × ((i : ℕ) → i < 2 → is_finished (pc t i) ≡ true)
    × (t.file ≡ some 2)
    × (t.sem ≡ 1)
count1_finishes_example = count1_finishes 2 one_done one_done-Reach one_alive

count1_exit_blocks_example : semop (take 1) 0 ≡ none
count1_exit_blocks_example =
    count1_exit_blocks 2 one_lost one_lost 1 one_lost-Reach (omega arith) refl refl here
