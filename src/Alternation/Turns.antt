-- ===== src/Alternation/Turns.antt =====
-- kadai3/mutual_exec.c: one process at a time can go on, whatever the schedule, and so they take turns.
use excc.Common.{
  ℕ, zero, suc, ◌+◌, ◌*◌, ◌≤◌, ◌<◌, ◌≡◌, refl, ap, ◌∙◌, List, [], ◌∷◌, arith, ◌⊎◌, inl, inr, dec_lt,
  lt→leb,
}
use excc.Alternation.{Who, parent, child, finished, Line, init, run}
use excc.Alternation.Stages.{
  Stage, rounds, with_parent, state_at, turn, stage, run-state_at, begin, to_parent, parent_prints,
  parent_writes, to_child, child_prints, child_writes,
}

-- What is printed at any time: some whole rounds, parent first, and then perhaps one more line of the
-- parent.
abbrev pub TakesTurns : List Line → Type 0
TakesTurns out = (k : ℕ) × ((out ≡ rounds k) ⊎ (out ≡ with_parent k))

stage-TakesTurns : (max : ℕ) (st : Stage) → TakesTurns (state_at max st).output
stage-TakesTurns max begin = (0, inl refl)
stage-TakesTurns max (to_parent k) = (k, inl refl)
stage-TakesTurns max (parent_prints k) = (k, inl refl)
stage-TakesTurns max (parent_writes k) = (k, inr refl)
stage-TakesTurns max (to_child k) = (k, inr refl)
stage-TakesTurns max (child_prints k) = (k, inr refl)
stage-TakesTurns max (child_writes k) = (suc k, inl refl)

-- Under every schedule the two processes print in turn, the parent first, with equal numbers that
-- count up from 1.
pub takes_turns : (max : ℕ) (schedule : List Who) → TakesTurns (run max schedule (init max)).output
takes_turns max schedule =
    rw (run-state_at max schedule begin) (stage-TakesTurns max (stage max schedule begin))

-- How far a stage is.
abbrev place : Stage → ℕ
place begin = 0
place (to_parent k) = 6 * k + 1
place (parent_prints k) = 6 * k + 2
place (parent_writes k) = 6 * k + 3
place (to_child k) = 6 * k + 4
place (child_prints k) = 6 * k + 5
place (child_writes k) = 6 * k + 6

-- The child and then the parent: one of them moves, until the last round is over.
both_advance :
    (max : ℕ) (st : Stage)
    → place st < 6 * max + 1
    → place st < place (turn max (turn max st child) parent)
both_advance max begin h = ground arith
both_advance max (to_parent k) h = ground arith
both_advance max (parent_prints k) h = omega arith
both_advance max (parent_writes k) h = omega arith
both_advance max (to_child k) h = omega arith
both_advance max (child_prints k) h = omega arith
both_advance max (child_writes k) h = ground arith

turn-bounded :
    (max : ℕ) (who : Who) (st : Stage)
    → place st ≤ 6 * max + 1
    → place (turn max st who) ≤ 6 * max + 1
turn-bounded max parent begin h = h
turn-bounded max child begin h = omega arith
turn-bounded max parent (to_parent k) h = ground arith
turn-bounded max child (to_parent k) h = h
turn-bounded max parent (parent_prints k) h = omega arith
turn-bounded max child (parent_prints k) h = h
turn-bounded max parent (parent_writes k) h = omega arith
turn-bounded max child (parent_writes k) h = h
turn-bounded max parent (to_child k) h = h
turn-bounded max child (to_child k) h = omega arith
turn-bounded max parent (child_prints k) h = h
turn-bounded max child (child_prints k) h = omega arith
turn-bounded max parent (child_writes k) h = h
turn-bounded max child (child_writes k) h = omega arith

-- The last stage.
place-last : (max : ℕ) (st : Stage) → place st ≡ 6 * max + 1 → st ≡ to_parent max
place-last max begin e = absurd (omega arith)
place-last max (to_parent k) e = let same : k ≡ max = omega arith in ap to_parent same
place-last max (parent_prints k) e = absurd (omega arith)
place-last max (parent_writes k) e = absurd (omega arith)
place-last max (to_child k) e = absurd (omega arith)
place-last max (child_prints k) e = absurd (omega arith)
place-last max (child_writes k) e = absurd (omega arith)

-- The child and the parent run by turns, `n` times.
abbrev pub fair : ℕ → List Who
fair zero = []
fair (suc n) = child ∷ parent ∷ fair n

-- At the last stage neither process can go on.
turn-last : (max : ℕ) → turn max (turn max (to_parent max) child) parent ≡ to_parent max
turn-last max = rw (lt→leb (suc max) max (omega arith)) refl

last-fair : (max n : ℕ) → stage max (fair n) (to_parent max) ≡ to_parent max
last-fair max zero = refl
last-fair max (suc n) = ap (stage max (fair n)) (turn-last max) ∙ last-fair max n

stage-fair :
    (max n : ℕ) (st : Stage)
    → place st ≤ 6 * max + 1
    → 6 * max + 1 ≤ place st + n
    → stage max (fair n) st ≡ to_parent max
stage-fair max zero st h k = place-last max st (omega arith)
stage-fair max (suc n) st h k = elim (dec_lt (place st) (6 * max + 1)) [
  | no top ↦ rw (place-last max st (omega arith)) (last-fair max (suc n))
  | yes below ↦
      let st' = turn max (turn max st child) parent in
      let bounded : place st' ≤ 6 * max + 1 =
        turn-bounded max parent (turn max st child) (turn-bounded max child st h) in
      let further : place st < place st' = both_advance max st below in
      stage-fair max n st' bounded (omega arith)
]

-- Run by turns for at least 6 `max` + 1 times, both processes come to the end of their loops, and
-- have then printed `max` whole rounds. One group is left in the pipe to the parent.
pub both_finish :
    (max n : ℕ)
    → 6 * max + 1 ≤ n
    → run max (fair n) (init max) ≡ record {
      to_parent = 1;
      to_child = 0;
      parent_pc = finished;
      child_pc = finished;
      output = rounds max;
    }
both_finish max n enough =
    run-state_at max (fair n) begin
    ∙ ap (state_at max) (stage-fair max n begin (omega arith) (omega arith))
    ∙ rw (lt→leb (suc max) max (omega arith))
