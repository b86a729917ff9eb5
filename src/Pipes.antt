-- ===== src/Pipes.antt =====
-- kadai3/two-way-pipe.c: a parent and a child that send each other a message through two pipes. Each
-- `write`, and each `read` with the `printf` behind it, is one step of one process; a `read` of an empty
-- pipe waits. A schedule says whose turn to run is next. What lies in memory behind the message for the
-- parent, and what the buffers hold, is an argument.
pub mod Hearing
pub mod Stages
pub mod Messages
mod Tests
use excc.Common.{ℕ, suc, Bool, true, false, List, [], ◌∷◌, ◌++◌, length, take}
use excc.Common.Text.{codes, c_string}
use excc.ChatClient.{stored}

abbrev pub bufsize : ℕ
bufsize = 256

pub data Who : Type 0 where
  parent child : Who

-- A process is to write, is to read, or has shown a message.
pub data Pc : Type 0 where
  writing : Pc
  reading : Pc
  shown : (message : List ℕ) → Pc

-- The arguments, and the memory around them. Parent and child have each a copy of `buf`.
pub record Args : Type 0 where
  pub msg_to_parent : List ℕ
  pub msg_to_child : List ℕ
  pub behind : List ℕ
  pub buf : List ℕ

pub record System : Type 0 where
  pub pipe_to_parent : List ℕ
  pub pipe_to_child : List ℕ
  pub parent_pc : Pc
  pub child_pc : Pc

abbrev pub init : System
init = record { pipe_to_parent = []; pipe_to_child = []; parent_pc = writing; child_pc = writing }

-- Both take the length of the message to the child.
abbrev pub msglen : Args → ℕ
msglen a = suc (length a.msg_to_child)

abbrev pub sends_parent : Args → List ℕ
sends_parent a = take (msglen a) (a.msg_to_child ++ 0 ∷ [])

abbrev pub sends_child : Args → List ℕ
sends_child a = take (msglen a) (a.msg_to_parent ++ 0 ∷ a.behind)

-- `read` and `printf`: an empty pipe makes the process wait.
pub receive : Args → List ℕ → Pc
receive a [] = reading
receive a (b ∷ bs) = shown (c_string (stored a.buf (take bufsize (b ∷ bs))))

-- A step of each process. A pipe holds what has been written to it (a message is shorter than its
-- capacity); `read` takes at most `bufsize` bytes, and nobody reads a pipe again.
pub step : Args → Who → System → System
step a parent s = elim s.parent_pc [
  | writing ↦ record s { pipe_to_child = s.pipe_to_child ++ sends_parent a; parent_pc = reading }
  | reading ↦ record s { parent_pc = receive a s.pipe_to_parent }
  | shown message ↦ s
]
step a child s = elim s.child_pc [
  | writing ↦ record s { pipe_to_parent = s.pipe_to_parent ++ sends_child a; child_pc = reading }
  | reading ↦ record s { child_pc = receive a s.pipe_to_child }
  | shown message ↦ s
]

pub run : Args → List Who → System → System
run a [] s = s
run a (who ∷ schedule) s = run a schedule (step a who s)

-- What happens before: the arguments are tested, and both pipes and the child are made.
pub data Start : Type 0 where
  exited : (code : ℕ) (text : List ℕ) → Start
  started : (msg_to_parent msg_to_child : List ℕ) → Start

-- `args` are the arguments behind argv[0]; the others say whether `pipe`, `pipe` and `fork` work.
pub start : (args : List (List ℕ)) (first second forked : Bool) → Start
start (p ∷ c ∷ []) true true true = started p c
start (p ∷ c ∷ []) true true false = exited 1 (codes "fork failed.")
start (p ∷ c ∷ []) true false forked = exited 1 (codes "pipe failed.")
start (p ∷ c ∷ []) false second forked = exited 1 (codes "pipe failed.")
start args first second forked = exited 1 (codes "bad argument.\n")
