-- ===== src/Alternation.antt =====
-- kadai3/mutual_exec.c: a parent and a child that take turns, by a byte group that goes to and fro
-- through two pipes. Each `read`, `printf` and `write` is one step of one process; a `read` of an empty
-- pipe waits. A schedule says whose turn to run is next. A pipe is the number of groups in it; their
-- value is 0 throughout. `max` is the number of rounds, 0 if `atoi` gives less.
pub mod Stages
pub mod Turns
mod Tests
use mathlib.Core.Option.{Option}
use excc.Common.{ℕ, zero, suc, ◌+◌, Bool, true, false, List, [], ◌∷◌, ◌++◌, leb, if◌then◌else◌}

pub data Who : Type 0 where
  parent child : Who

-- Where a process stands in its loop over `i`; the child begins with a `write`.
pub data Pc : Type 0 where
  start : Pc
  reading : (i : ℕ) → Pc
  printing : (i : ℕ) → Pc
  writing : (i : ℕ) → Pc
  finished : Pc

-- A line that is printed: by whom, and its number.
pub data Line : Type 0 where
  says : Who → ℕ → Line

pub record System : Type 0 where
  pub to_parent : ℕ
  pub to_child : ℕ
  pub parent_pc : Pc
  pub child_pc : Pc
  pub output : List Line

-- The loop's test at `i`.
abbrev pub enter : ℕ → ℕ → Pc
enter max i = if leb i max then reading i else finished

abbrev pub init : ℕ → System
init max = record {
  to_parent = 0;
  to_child = 0;
  parent_pc = enter max 1;
  child_pc = start;
  output = [];
}

-- What one step of a process does to its inbox and its outbox, and what it prints.
pub record Effect : Type 0 where
  pub inbox : ℕ
  pub outbox : ℕ
  pub pc : Pc
  pub printed : List Line

-- One step of a process, or no change where it waits or has ended.
pub advance : Who → ℕ → ℕ → ℕ → Pc → Effect
advance who max inbox outbox start = record {
  inbox = inbox;
  outbox = outbox + 1;
  pc = enter max 1;
  printed = [];
}
advance who max zero outbox (reading i) = record {
  inbox = zero;
  outbox = outbox;
  pc = reading i;
  printed = [];
}
advance who max (suc inbox) outbox (reading i) = record {
  inbox = inbox;
  outbox = outbox;
  pc = printing i;
  printed = [];
}
advance who max inbox outbox (printing i) = record {
  inbox = inbox;
  outbox = outbox;
  pc = writing i;
  printed = says who i ∷ [];
}
advance who max inbox outbox (writing i) = record {
  inbox = inbox;
  outbox = outbox + 1;
  pc = enter max (i + 1);
  printed = [];
}
advance who max inbox outbox finished = record {
  inbox = inbox;
  outbox = outbox;
  pc = finished;
  printed = [];
}

pub step : ℕ → Who → System → System
step max parent s =
    let e = advance parent max s.to_parent s.to_child s.parent_pc in
    record s {
      to_parent = e.inbox;
      to_child = e.outbox;
      parent_pc = e.pc;
      output = s.output ++ e.printed;
    }
step max child s =
    let e = advance child max s.to_child s.to_parent s.child_pc in
    record s {
      to_child = e.inbox;
      to_parent = e.outbox;
      child_pc = e.pc;
      output = s.output ++ e.printed;
    }

-- A run by a schedule.
pub run : ℕ → List Who → System → System
run max [] s = s
run max (who ∷ schedule) s = run max schedule (step max who s)
