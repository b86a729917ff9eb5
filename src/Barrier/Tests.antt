-- ===== src/Barrier/Tests.antt =====
-- kadai3/barrier_sync.c: the theorems at concrete runs of two children.
use excc.Common.{ℕ, zero, suc, ◌<◌, ◌≡◌, inr, refl, false, true, arith, [], ◌∷◌}
use excc.Barrier.{
  System, child, unborn, asleep, waiting, reaping, exited, arrive, barrier, fork_fails, pass,
  finished, child_step, main_step, fork, Steps, here, next, Reach,
}
use excc.Barrier.Invariant.{is_resumed}
use excc.Barrier.Synchrony.{AllArrived, has_failed, barrier_holds, lost_fork_blocks}
use excc.Barrier.Finishing.{barrier_finishes}

-- Both children have come, and `main` has passed.
abbrev opened : System
opened = record { sem = 0; main = reaping 0; children = waiting ∷ waiting ∷ [] }

opened-Reach : Reach 2 opened
opened-Reach =
    next
      (next
        (next
          (next
            (next (next here (fork refl (omega arith))) (child_step 0 (omega arith) (arrive refl)))
            (fork refl (omega arith)))
          (main_step (barrier refl)))
        (child_step 1 (omega arith) (arrive refl)))
      (main_step (pass refl))

-- `main` could not fork the second child.
abbrev lost : System
lost = record { sem = 2; main = exited; children = asleep ∷ unborn ∷ [] }

lost-Reach : Reach 2 lost
lost-Reach = next (next here (fork refl (omega arith))) (main_step (fork_fails (omega arith)))

abbrev stuck : System
stuck = record { sem = 1; main = exited; children = waiting ∷ unborn ∷ [] }

stuck-Steps : Steps lost stuck
stuck-Steps = next here (child_step 0 (omega arith) (arrive refl))

opened_sound : (j : ℕ) → j < 2 → has_failed (child opened j) ≡ false
opened_sound zero h = refl
opened_sound (suc zero) h = refl
opened_sound (suc (suc j)) h = absurd (omega arith)

barrier_holds_example : AllArrived 2 opened
barrier_holds_example = barrier_holds 2 opened opened-Reach (inr refl)

barrier_finishes_example :
    (t : System) × Steps opened t
    × (t.main ≡ finished)
    × ((j : ℕ) → j < 2 → is_resumed (child t j) ≡ true)
barrier_finishes_example = barrier_finishes 2 opened opened-Reach opened_sound (λ e. cc)

lost_fork_blocks_example : is_resumed (child stuck 0) ≡ false
lost_fork_blocks_example =
    lost_fork_blocks 2 lost stuck 1 0 lost-Reach (omega arith) refl refl stuck-Steps
