-- ===== src/TimedTalk/Tests.antt =====
-- kadai3/simple-talk-client.c: the theorems at concrete sessions.
use mathlib.Core.Option.{Option}
use excc.Common.{◌≡◌, refl, List, [], ◌∷◌, ◌++◌, arith, replicate}
use excc.Common.Text.{codes, newline, c_string}
use excc.ChatServer.{bytes}
use excc.ChatClient.{write, close, line}
use excc.Talk
use excc.Talk.{Memory}
use excc.Talk.Lines.{holding}
use excc.TimedTalk.{Event, waits, ready, start, exited, message}
use excc.TimedTalk.Timeouts.{times_out}

abbrev fresh : Memory
fresh = record { before = 0; buffer = replicate 8 0 }

-- A line is typed, and the peer says "yes".
abbrev typed : List Event
typed =
    waits 9
    ∷ ready 20 (Option.some 8) (Option.some (line (codes "hi" ++ newline ∷ []))) Option.none
    ∷ []

abbrev answered : List Event
answered =
    typed ++ waits 29 ∷ ready 0 (Option.some 9) Option.none (Option.some (bytes (codes "yes"))) ∷ []

times_out_example :
    start (Option.some 7) fresh (typed ++ waits 30 ∷ answered)
    ≡ exited 0 (write (codes "hi") ∷ message ∷ close ∷ [])
unfolding Talk.session Talk.round Talk.typed Talk.heard Talk.prepend Talk.strip_newline
    Talk.strip_last Talk.fgets c_string
times_out_example =
    times_out 7 30 fresh (holding fresh (codes "hi")) typed answered (write (codes "hi") ∷ [])
      (omega arith) (omega arith) refl (omega arith)
