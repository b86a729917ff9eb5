-- ===== src/TimedTalk.antt =====
-- kadai3/simple-talk-client.c: the talk client of kadai2 with a time-out. `myalarm` is that of alarm.c,
-- and what is done with a line or with bytes is what the client of kadai2 does; the texts are the same.
-- How many seconds pass in `select`, what it gives, and the pid that `fork` gives are an argument. The
-- handler of SIGALRM sets a flag, which the loop tests at the end of each round.
pub mod Endings
pub mod Elapsing
pub mod Timeouts
mod Tests
use mathlib.Core.Option.{Option}
use excc.Common.{ℕ, zero, suc, Bool, false, ◌||◌, List, [], ◌∷◌, ◌++◌, if◌then◌else◌}
use excc.Common.Text.{codes}
use excc.ChatServer.{ReadResult}
use excc.ChatClient.{Effect, print, close, Input}
use excc.Alarm.{Timer, Alarm, init, elapse, myalarm}
use excc.Talk
use excc.Talk.{client, Memory, Round}

abbrev pub timeout_seconds : ℕ
timeout_seconds = 30

pub record State : Type 0 where
  pub alarm : Alarm
  pub timeout_flag : Bool
  pub memory : Memory

-- So many seconds pass, and `select` gives nothing; or it says what can be read, and `fork` gives a pid
-- to `myalarm`, or fails.
pub data Event : Type 0 where
  waits : (seconds : ℕ) → Event
  ready : (seconds : ℕ) → Option ℕ → Option Input → Option ReadResult → Event

-- Seconds pass for the children of `myalarm`; whether one of them sends SIGALRM.
pub elapses : ℕ → List Timer → List Timer × Bool
elapses zero ts = (ts, false)
elapses (suc n) ts =
    let (rest, rings) = elapse ts in let (last, later) = elapses n rest in (last, rings || later)

-- While `select` waits. `timeout` is the handler.
pub pass : ℕ → State → State
pass n s =
    let (ts, rings) = elapses n s.alarm.children in
    record s { alarm = record s.alarm { children = ts }; timeout_flag = s.timeout_flag || rings }

-- The client goes on, leaves its loop, or has called `exit`.
pub data Step : Type 0 where
  continue : State → List Effect → Step
  break : List Effect → Step
  exited : (code : ℕ) → List Effect → Step

abbrev pub message : Effect
message = print (codes "This program is timeout.\n")

-- The test at the end of a round.
pub test_flag : State → List Effect → Step
test_flag s out = if s.timeout_flag then exited 0 (out ++ message ∷ close ∷ []) else continue s out

-- The round of the client of kadai2, and then the test.
pub talk : State → Round → Step
talk s (Round.continue m out) = test_flag (record s { memory = m }) out
talk s (Round.break m out) = break out

pub serve : State → Option Alarm → Option Input → Option ReadResult → Step
serve s Option.none i r = exited 1 []
serve s (Option.some a) i r =
    talk (record s { alarm = a }) (Talk.round client s.memory (Talk.ready i r))

-- One round of the `do`.
pub round : State → Event → Step
round s (waits n) = test_flag (pass n s) []
round s (ready n pid i r) =
    let passed = pass n s in serve passed (myalarm timeout_seconds pid passed.alarm) i r

pub data Ending : Type 0 where
  talking : State → List Effect → Ending
  ended : List Effect → Ending
  exited : (code : ℕ) → List Effect → Ending

pub prepend : List Effect → Ending → Ending
prepend out (talking s more) = talking s (out ++ more)
prepend out (ended more) = ended (out ++ more)
prepend out (exited code more) = exited code (out ++ more)

-- The loop over a sequence of events.
pub session : State → List Event → Ending
session s [] = talking s []
session s (e ∷ es) = elim (round s e) [
  | continue next out ↦ prepend out (session next es)
  | break out ↦ ended out
  | Step.exited code out ↦ Ending.exited code out
]

-- `main` from its first call of `myalarm` on.
pub start : Option ℕ → Memory → List Event → Ending
start pid m es = elim (myalarm timeout_seconds pid init) [
  | Option.none ↦ exited 1 []
  | Option.some a ↦ session (record { alarm = a; timeout_flag = false; memory = m }) es
]
