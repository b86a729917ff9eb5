-- ===== src/Pipes/Tests.antt =====
-- kadai3/two-way-pipe.c: the theorems at concrete messages.
use excc.Common.{◌≡◌, refl, true, false, List, [], ◌∷◌, ◌++◌, replicate, arith}
use excc.Common.Text.{codes, c_string}
use excc.Pipes.{Who, parent, child, shown, Args, init, run, start, started, exited}
use excc.Pipes.Messages.{messages_arrive, long_message_cut}

starts :
    start (codes "to the parent" ∷ codes "hi" ∷ []) true true true
    ≡ started (codes "to the parent") (codes "hi")
unfolding start
starts = refl

pipe_fails : start (codes "a" ∷ codes "b" ∷ []) true false true ≡ exited 1 (codes "pipe failed.")
unfolding start
pipe_fails = refl

-- The child's message lies behind the parent's in memory.
abbrev short_one : Args
short_one = record {
  msg_to_parent = codes "yes";
  msg_to_child = codes "no one";
  behind = codes "no one";
  buf = replicate 8 0;
}

abbrev long_one : Args
long_one = record short_one { msg_to_parent = codes "certainly"; buf = replicate 8 b'?' }

-- The parent has two steps before the child has any.
abbrev parent_first : List Who
parent_first = parent ∷ parent ∷ child ∷ []

abbrev child_first : List Who
child_first = child ∷ parent ∷ []

messages_arrive_example :
    ((run short_one (parent_first ++ child_first) init).parent_pc ≡ shown (codes "yes"))
    × ((run short_one (parent_first ++ child_first) init).child_pc ≡ shown (codes "no one"))
messages_arrive_example =
    messages_arrive short_one parent_first child_first (refl, refl) (refl, refl) (omega arith)
      (omega arith) (omega arith) (omega arith)

long_message_cut_example :
    (run long_one (parent_first ++ child_first) init).parent_pc ≡ shown (codes "certain?")
unfolding c_string
long_message_cut_example =
    long_message_cut long_one parent_first child_first (refl, refl) (refl, refl) (omega arith)
      (omega arith) (omega arith)
