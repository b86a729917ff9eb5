-- ===== src/Pipes/Messages.antt =====
-- kadai3/two-way-pipe.c: what the two processes show, under any schedule.
use excc.Common.{◌≤◌, ◌<◌, ◌≡◌, ap, ◌∙◌, List, [], ◌∷◌, ◌++◌, length, take, drop, take-all, arith}
use excc.Common.Text.{c_string, HasNoNul, c_string-append}
use excc.ChatClient.{stored}
use excc.Pipes.{Who, shown, Args, init, msglen, bufsize, sends_child, run}
use excc.Pipes.Hearing.{take-inside, length-take, take-HasNoNul, heard-whole}
use excc.Pipes.Stages.{BothTakeTurns, run-all}

-- Once each process has taken a step, and after that each has taken another, in whatever order and with
-- whatever steps between, both messages have arrived whole. The message for the parent is no longer than
-- that for the child, this has at most 255 bytes, and neither holds a NUL.
pub messages_arrive :
    (a : Args) (before after : List Who)
    → BothTakeTurns before
    → BothTakeTurns after
    → HasNoNul a.msg_to_parent
    → HasNoNul a.msg_to_child
    → length a.msg_to_parent ≤ length a.msg_to_child
    → length a.msg_to_child ≤ 255
    → ((run a (before ++ after) init).parent_pc ≡ shown a.msg_to_parent)
      × ((run a (before ++ after) init).child_pc ≡ shown a.msg_to_child)
messages_arrive a before after h k hp hc shorter small =
    let all = run-all a before after h k in
    let n = length a.msg_to_child in
    (
      ap (λ s. s.parent_pc) all
          ∙ ap shown (heard-whole n a.msg_to_parent a.behind a.buf hp shorter small),
      ap (λ s. s.child_pc) all
          ∙ ap shown (heard-whole n a.msg_to_child [] a.buf hc (omega arith) small),
    )

-- A message for the parent, without a NUL, that is longer than that for the child, of at most 255, is cut one
-- byte behind the length of the other, and what the parent's buffer held behind there is shown in its
-- place, once each process has taken a step and after that each has taken another.
pub long_message_cut :
    (a : Args) (before after : List Who)
    → BothTakeTurns before
    → BothTakeTurns after
    → HasNoNul a.msg_to_parent
    → length a.msg_to_child < length a.msg_to_parent
    → length a.msg_to_child ≤ 255
    → (run a (before ++ after) init).parent_pc
      ≡ shown (take (msglen a) a.msg_to_parent ++ c_string (drop (msglen a) a.buf))
long_message_cut a before after h k hp longer small =
    let n = msglen a in
    let part = take n a.msg_to_parent in
    let size : length part ≡ n = length-take n a.msg_to_parent (omega arith) in
    let read : take bufsize (sends_child a) ≡ part =
      ap (take bufsize) (take-inside n a.msg_to_parent (0 ∷ a.behind) (omega arith))
      ∙ take-all bufsize part (omega (arith, size)) in
    ap (λ s. s.parent_pc) (run-all a before after h k)
    ∙ ap (λ m. shown (c_string (stored a.buf m))) read
    ∙ ap shown
        (c_string-append part (drop (length part) a.buf) (take-HasNoNul n a.msg_to_parent hp))
    ∙ ap (λ m. shown (part ++ c_string (drop m a.buf))) size
