-- ===== src/Alternation/Stages.antt =====
-- kadai3/mutual_exec.c: the stages that the two processes come to, whatever the schedule.
use mathlib.Core.List.{append-nil, append_assoc}
use excc.Common.{
  ℕ, zero, suc, ◌+◌, ◌≡◌, refl, ap, ◌∙◌, List, [], ◌∷◌, ◌++◌, leb, if◌then◌else◌, arith, Bool-cases,
  inl, inr,
}
use excc.Alternation.{
  Who, parent, child, reading, printing, writing, Line, says, System, enter, init, advance, step,
  run,
}

-- Where the right to run is, after `k` whole rounds.
pub data Stage : Type 0 where
  begin : Stage
  to_parent : (k : ℕ) → Stage
  parent_prints : (k : ℕ) → Stage
  parent_writes : (k : ℕ) → Stage
  to_child : (k : ℕ) → Stage
  child_prints : (k : ℕ) → Stage
  child_writes : (k : ℕ) → Stage

-- The lines of `k` whole rounds.
abbrev pub rounds : ℕ → List Line
rounds zero = []
rounds (suc k) = rounds k ++ (says parent (suc k) ∷ says child (suc k) ∷ [])

abbrev pub with_parent : ℕ → List Line
with_parent k = rounds k ++ (says parent (suc k) ∷ [])

-- The state that belongs to a stage.
abbrev pub state_at : ℕ → Stage → System
state_at max begin = init max
state_at max (to_parent k) = record {
  to_parent = 1;
  to_child = 0;
  parent_pc = enter max (suc k);
  child_pc = enter max (suc k);
  output = rounds k;
}
state_at max (parent_prints k) = record {
  to_parent = 0;
  to_child = 0;
  parent_pc = printing (suc k);
  child_pc = reading (suc k);
  output = rounds k;
}
state_at max (parent_writes k) = record {
  to_parent = 0;
  to_child = 0;
  parent_pc = writing (suc k);
  child_pc = reading (suc k);
  output = with_parent k;
}
state_at max (to_child k) = record {
  to_parent = 0;
  to_child = 1;
  parent_pc = enter max (suc (suc k));
  child_pc = reading (suc k);
  output = with_parent k;
}
state_at max (child_prints k) = record {
  to_parent = 0;
  to_child = 0;
  parent_pc = enter max (suc (suc k));
  child_pc = printing (suc k);
  output = with_parent k;
}
state_at max (child_writes k) = record {
  to_parent = 0;
  to_child = 0;
  parent_pc = enter max (suc (suc k));
  child_pc = writing (suc k);
  output = rounds (suc k);
}

-- The only process that can go on, and what it comes to. After the last round nobody moves.
abbrev pub turn : ℕ → Stage → Who → Stage
turn max begin child = to_parent 0
turn max (to_parent k) parent = if leb (suc k) max then parent_prints k else to_parent k
turn max (parent_prints k) parent = parent_writes k
turn max (parent_writes k) parent = to_child k
turn max (to_child k) child = child_prints k
turn max (child_prints k) child = child_writes k
turn max (child_writes k) child = to_parent (suc k)
turn max st who = st

-- A process that is to read an empty pipe, or has ended, does not move.
idle :
    (who : Who) (max i outbox : ℕ)
    → advance who max 0 outbox (enter max i)
      ≡ record { inbox = 0; outbox = outbox; pc = enter max i; printed = [] }
unfolding advance
idle who max i outbox = elim (Bool-cases (leb i max)) [ inl more ↦ rw more | inr over ↦ rw over ]

next_round : (k : ℕ) → suc k + 1 ≡ suc (suc k)
next_round k = omega arith

-- One step of either process: that of the stage, or none.
step-state_at :
    (max : ℕ) (who : Who) (st : Stage)
    → step max who (state_at max st) ≡ state_at max (turn max st who)
unfolding step advance
step-state_at max parent begin = rw (idle parent max 1 0)
step-state_at max child begin = refl
step-state_at max parent (to_parent k) = elim (Bool-cases (leb (suc k) max)) [
  | inl more ↦ rw (more, append-nil (rounds k))
  | inr over ↦ rw (over, append-nil (rounds k)) (rw over)
]
step-state_at max child (to_parent k) = rw (idle child max (suc k) 1, append-nil (rounds k))
step-state_at max parent (parent_prints k) = refl
step-state_at max child (parent_prints k) = rw (append-nil (rounds k))
step-state_at max parent (parent_writes k) = rw (next_round k, append-nil (with_parent k))
step-state_at max child (parent_writes k) = rw (append-nil (with_parent k))
step-state_at max parent (to_child k) =
    rw (idle parent max (suc (suc k)) 1, append-nil (with_parent k))
step-state_at max child (to_child k) = rw (append-nil (with_parent k))
step-state_at max parent (child_prints k) =
    rw (idle parent max (suc (suc k)) 0, append-nil (with_parent k))
step-state_at max child (child_prints k) =
    rw (append_assoc (rounds k) (says parent (suc k) ∷ []) (says child (suc k) ∷ []))
step-state_at max parent (child_writes k) =
    rw (idle parent max (suc (suc k)) 0, append-nil (rounds (suc k)))
step-state_at max child (child_writes k) = rw (next_round k, append-nil (rounds (suc k)))

-- The stage after a schedule.
abbrev pub stage : ℕ → List Who → Stage → Stage
stage max [] st = st
stage max (who ∷ schedule) st = stage max schedule (turn max st who)

pub run-state_at :
    (max : ℕ) (schedule : List Who) (st : Stage)
    → run max schedule (state_at max st) ≡ state_at max (stage max schedule st)
unfolding run
run-state_at max [] st = refl
run-state_at max (who ∷ schedule) st =
    ap (run max schedule) (step-state_at max who st) ∙ run-state_at max schedule (turn max st who)
