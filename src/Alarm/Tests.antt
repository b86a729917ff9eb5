-- ===== src/Alarm/Tests.antt =====
-- kadai3/alarm.c: the theorem at a concrete run.
use mathlib.Core.Option.{Option}
use excc.Common.{◌≡◌, refl, List, [], ◌∷◌}
use excc.Common.Text.{codes, c_string}
use excc.Alarm.{
  second, line, eof, running, exited, myalarm, kill, elapse, round, run, prepend, start,
}
use excc.Alarm.Timeouts.{Pause, one_child}

-- The second of the two lines stops the alarm of the first.
no_stray_alarm :
    start
      (Option.some 7)
      (line (codes "a") (Option.some 8) ∷ line (codes "b") (Option.some 9) ∷ second ∷ [])
    ≡ running (one_child 9 4) (codes "echo: a" ∷ codes "echo: b" ∷ [])
unfolding start myalarm run round prepend kill elapse c_string
no_stray_alarm = refl

eof_returns : start (Option.some 7) (second ∷ eof ∷ second ∷ []) ≡ exited 0 []
unfolding start myalarm run round prepend elapse
eof_returns = refl

abbrev two_lines : List Pause
two_lines =
    record { seconds = 4; text = codes "a"; pid = 8 }
    ∷ record { seconds = 0; text = codes "b"; pid = 9 }
    ∷ []
