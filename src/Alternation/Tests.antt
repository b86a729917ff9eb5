-- ===== src/Alternation/Tests.antt =====
-- kadai3/mutual_exec.c: the theorems at concrete runs.
use excc.Common.{◌≡◌, refl, [], ◌∷◌, arith}
use excc.Alternation.{System, parent, child, finished, says, init, run, step, advance}
use excc.Alternation.Stages.{rounds}
use excc.Alternation.Turns.{TakesTurns, takes_turns, fair, both_finish}

-- The parent runs ahead, and waits.
takes_turns_example :
    TakesTurns (System.output (run 2 (parent ∷ child ∷ parent ∷ parent ∷ parent ∷ []) (init 2)))
takes_turns_example = takes_turns 2 (parent ∷ child ∷ parent ∷ parent ∷ parent ∷ [])

two_rounds :
    System.output (run 2 (fair 13) (init 2))
    ≡ says parent 1 ∷ says child 1 ∷ says parent 2 ∷ says child 2 ∷ []
unfolding run step advance
two_rounds = refl

both_finish_example : run 2 (fair 13) (init 2) ≡ record {
  to_parent = 1;
  to_child = 0;
  parent_pc = finished;
  child_pc = finished;
  output = rounds 2;
}
both_finish_example = both_finish 2 13 (omega arith)
