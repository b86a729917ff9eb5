-- ===== src/OneMessage/Tests.antt =====
-- kadai3/pipe.c: the theorems at concrete messages.
use excc.Common.{◌≡◌, refl, true, List, [], ◌∷◌, ◌++◌, arith}
use excc.Common.Text.{codes}
use excc.Pipes.{Who, parent, child}
use excc.OneMessage.{finished, Args, init, run, start, started, exited}
use excc.OneMessage.Arrival.{message_arrives}

starts : start (codes "hello" ∷ []) true true ≡ started (codes "hello")
unfolding start
starts = refl

two_arguments : start (codes "a" ∷ codes "b" ∷ []) true true ≡ exited 1 (codes "bad argument.\n")
unfolding start
two_arguments = refl

abbrev greeting : Args
greeting = record {
  message = codes "hello";
  buf = codes "what was here" ++ 0 ∷ [];
  writes = true;
  reads = true;
}

-- The parent waits in `read`, the child writes, and the parent reads before the child ends.
abbrev child_ends : List Who
child_ends = parent ∷ child ∷ parent ∷ child ∷ []

abbrev parent_ends : List Who
parent_ends = parent ∷ parent ∷ []

message_arrives_example :
    (run greeting (child_ends ++ parent_ends) init).parent_pc
    ≡ finished (codes "Message from child process: \n" ∷ codes "\thello\n" ∷ [])
message_arrives_example =
    message_arrives greeting child_ends parent_ends (omega arith) (omega arith) refl refl
      (omega arith) (omega arith)
