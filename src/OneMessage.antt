-- ===== src/OneMessage.antt =====
-- kadai3/pipe.c: a child sends its parent the argument of the program through a pipe. Each `write`,
-- each `read` with the `printf`s behind it, `exit` and `wait` is one step of one process; a schedule
-- says whose turn is next. Whether `write` and `read` work, and what `buf` holds, is an argument.
pub mod Stages
pub mod Arrival
mod Tests
use excc.Common.{ℕ, Bool, true, false, List, [], ◌∷◌, ◌++◌, take, drop, if◌then◌else◌}
use excc.Common.Text.{codes, c_string, newline}
use excc.ChatClient.{stored}
use excc.Pipes.{bufsize, Who, parent, child}

-- Where the child stands. `write` kills it where the parent no longer reads.
pub data Child : Type 0 where
  writing : Child
  wrote : Child
  ended : (code : ℕ) (printed : List (List ℕ)) → Child
  killed : Child

-- Where the parent stands, with what it has printed: before `read`, before `wait`, and behind it. `read`
-- has failed in the last one, and it has called `exit(1)`.
pub data Parent : Type 0 where
  reading : Parent
  shown : (printed : List (List ℕ)) → Parent
  finished : (printed : List (List ℕ)) → Parent
  failed : (printed : List (List ℕ)) → Parent

pub record Args : Type 0 where
  pub message : List ℕ
  pub buf : List ℕ
  pub writes : Bool
  pub reads : Bool

pub record System : Type 0 where
  pub pipe : List ℕ
  pub child_pc : Child
  pub parent_pc : Parent

abbrev pub init : System
init = record { pipe = []; child_pc = writing; parent_pc = reading }

abbrev pub has_ended : Child → Bool
has_ended (ended code printed) = true
has_ended killed = true
has_ended _ = false

-- What the parent prints of its buffer.
abbrev pub shows : List ℕ → List (List ℕ)
shows buf =
    codes "Message from child process: \n" ∷ (codes "\t" ++ c_string buf ++ newline ∷ []) ∷ []

-- `write` of the message and its NUL. (It is shorter than the capacity of the pipe.)
unfoldable pub send : Args → Parent → System → System
send a (failed printed) s = record s { child_pc = killed }
send a _ s =
    if a.writes
    then record s { pipe = s.pipe ++ a.message ++ 0 ∷ []; child_pc = wrote }
    else record s { child_pc = ended 1 (codes "pipe write." ∷ []) }

-- `read` waits while the pipe is empty and the child can still write; then it gives 0.
unfoldable pub receive : Args → List ℕ → (child_ended : Bool) → Parent
receive a (b ∷ bs) child_ended = shown (shows (stored a.buf (take bufsize (b ∷ bs))))
receive a [] true = shown (shows a.buf)
receive a [] false = reading

unfoldable pub step : Args → Who → System → System
step a child s = elim s.child_pc [
  | writing ↦ send a s.parent_pc s
  | wrote ↦ record s { child_pc = ended 0 [] }
  | ended code printed ↦ s
  | killed ↦ s
]
step a parent s = elim s.parent_pc [
  | reading ↦
      if a.reads
      then record s {
        pipe = drop bufsize s.pipe;
        parent_pc = receive a s.pipe (has_ended s.child_pc);
      }
      else record s { parent_pc = failed (codes "pipe read." ∷ []) }
  | shown printed ↦ if has_ended s.child_pc then record s { parent_pc = finished printed } else s
  | finished printed ↦ s
  | failed printed ↦ s
]

unfoldable pub run : Args → List Who → System → System
run a [] s = s
run a (who ∷ schedule) s = run a schedule (step a who s)

-- What happens before: the argument, `pipe` and `fork`.
pub data Start : Type 0 where
  exited : (code : ℕ) (text : List ℕ) → Start
  started : (message : List ℕ) → Start

-- `args` are the arguments behind argv[0].
unfoldable pub start : (args : List (List ℕ)) (made forked : Bool) → Start
start (message ∷ []) true true = started message
start (message ∷ []) true false = exited 1 (codes "fork failed.")
start (message ∷ []) false forked = exited 1 (codes "pipe failed.")
start args made forked = exited 1 (codes "bad argument.\n")
