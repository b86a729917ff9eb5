-- ===== src/Alarm.antt =====
-- kadai3/alarm.c: lines are echoed until none comes for some time. `myalarm` keeps a child that sleeps
-- and then sends the signal. Time passes in seconds; the pid that `fork` gives is an argument.
pub mod Timeouts
mod Tests
use mathlib.Core.Option.{Option}
use excc.Common.{
  ℕ, zero, suc, ◌-◌, Bool, true, false, List, [], ◌∷◌, ◌++◌, if◌then◌else◌, leb, ◌==◌,
}
use excc.Common.Text.{codes, c_string}

abbrev pub timeout_seconds : ℕ
timeout_seconds = 5

-- A child in `sleep`, with the seconds that it has left.
pub record Timer : Type 0 where
  pub pid : ℕ
  pub left : ℕ

-- The static `child_pid`, and the children that run.
pub record Alarm : Type 0 where
  pub child_pid : ℕ
  pub children : List Timer

abbrev pub init : Alarm
init = record { child_pid = 0; children = [] }

-- SIGTERM ends the child of that pid, if there is one.
pub kill : ℕ → List Timer → List Timer
kill pid [] = []
kill pid (t ∷ ts) = let rest = kill pid ts in if t.pid == pid then rest else t ∷ rest

-- `none` where `fork` fails, and the process calls `exit(1)`.
pub myalarm : (sec : ℕ) → Option ℕ → Alarm → Option Alarm
myalarm sec Option.none a = Option.none
myalarm sec (Option.some pid) a =
    let others = if a.child_pid == 0 then a.children else kill a.child_pid a.children in
    Option.some (record { child_pid = pid; children = record { pid = pid; left = sec } ∷ others })

-- A second passes: the children that are left, and whether one of them has sent SIGALRM and ended.
pub elapse : List Timer → List Timer × Bool
elapse [] = ([], false)
elapse (t ∷ ts) =
    let (rest, rings) = elapse ts in
    if leb t.left 1 then (rest, true) else (record t { left = t.left - 1 } ∷ rest, rings)

-- While `main` waits in `fgets`: a second passes, a line comes (with what `fork` then gives), or the
-- input ends.
pub data Event : Type 0 where
  second : Event
  line : (text : List ℕ) → Option ℕ → Event
  eof : Event

-- What is printed is a list of texts.
pub data Round : Type 0 where
  continue : Alarm → List (List ℕ) → Round
  timed_out : List (List ℕ) → Round
  fork_failed : List (List ℕ) → Round
  returned : Round

abbrev pub message : List ℕ
message = codes "This program is timeout.\n"

abbrev pub echo : List ℕ → List ℕ
echo text = codes "echo: " ++ c_string text

abbrev pub or_exit : List (List ℕ) → Option Alarm → Round
or_exit out Option.none = fork_failed out
or_exit out (Option.some a) = continue a out

pub round : Alarm → Event → Round
round a second =
    let (ts, rings) = elapse a.children in
    if rings then timed_out (message ∷ []) else continue (record a { children = ts }) []
round a (line text pid) = or_exit (echo text ∷ []) (myalarm timeout_seconds pid a)
round a eof = returned

pub data Ending : Type 0 where
  running : Alarm → List (List ℕ) → Ending
  exited : (code : ℕ) → List (List ℕ) → Ending

pub prepend : List (List ℕ) → Ending → Ending
prepend out (running a more) = running a (out ++ more)
prepend out (exited code more) = exited code (out ++ more)

-- The loop of `main`; it returns 0 at the end of the input.
pub run : Alarm → List Event → Ending
run a [] = running a []
run a (e ∷ es) = elim (round a e) [
  | continue next out ↦ prepend out (run next es)
  | timed_out out ↦ exited 0 out
  | fork_failed out ↦ exited 1 out
  | returned ↦ exited 0 []
]

-- `main` from its first call of `myalarm` on.
pub start : Option ℕ → List Event → Ending
start pid es = elim (myalarm timeout_seconds pid init) [
  | Option.none ↦ exited 1 []
  | Option.some a ↦ run a es
]
