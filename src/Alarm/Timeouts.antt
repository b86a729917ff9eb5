-- ===== src/Alarm/Timeouts.antt =====
-- kadai3/alarm.c: when the program is stopped.
use mathlib.Core.Option.{Option}
use mathlib.Core.List.{append_assoc, append-nil}
use excc.Common.{
  true, false, ◌≤◌, ℕ, zero, suc, ◌-◌, ◌<◌, ◌≡◌, refl, sym, ap, ◌∙◌, List, [], ◌∷◌, ◌++◌, lt→leb,
  le→leb, arith, replicate,
}
use excc.Common.Outcome.{Each}
use excc.Alarm.{
  init, Alarm, kill, myalarm, elapse, Event, second, line, continue, message, echo, round, Ending,
  running, exited, prepend, run, start, timeout_seconds,
}

-- One child runs, that of `child_pid`.
abbrev pub one_child : ℕ → ℕ → Alarm
one_child pid left = record { child_pid = pid; children = record { pid = pid; left = left } ∷ [] }

-- Seconds without a line, and then a line.
pub record Pause : Type 0 where
  pub seconds : ℕ
  pub text : List ℕ
  pub pid : ℕ

-- Shorter than the time-out; a pid is not 0.
abbrev pub IsShort : Pause → Type 0
IsShort p = (p.seconds < timeout_seconds) × (0 < p.pid)

abbrev pub events : List Pause → List Event
events [] = []
events (p ∷ ps) = replicate p.seconds second ++ line p.text (Option.some p.pid) ∷ events ps

abbrev pub echoes : List Pause → List (List ℕ)
echoes [] = []
echoes (p ∷ ps) = echo p.text ∷ echoes ps

-- The pid of the child that is left.
abbrev pub last_pid : ℕ → List Pause → ℕ
last_pid pid [] = pid
last_pid pid (p ∷ ps) = last_pid p.pid ps

run-continue :
    (a : Alarm) (e : Event) (es : List Event) {next : Alarm} {out : List (List ℕ)}
    → round a e ≡ continue next out
    → run a (e ∷ es) ≡ prepend out (run next es)
unfolding run
run-continue a e es here = rw (run, here) refl

prepend-none : (e : Ending) → prepend [] e ≡ e
unfolding prepend
prepend-none (running a out) = refl
prepend-none (exited code out) = refl

prepend-append :
    (xs ys : List (List ℕ)) (e : Ending) → prepend xs (prepend ys e) ≡ prepend (xs ++ ys) e
unfolding prepend
prepend-append xs ys (running a out) = ap (running a) (sym (append_assoc xs ys out))
prepend-append xs ys (exited code out) = ap (exited code) (sym (append_assoc xs ys out))

pub elapse-quiet :
    (pid left : ℕ)
    → 1 < left
    → elapse (record { pid = pid; left = left } ∷ [])
      ≡ (record { pid = pid; left = left - 1 } ∷ [], false)
unfolding elapse
elapse-quiet pid left h = rw (lt→leb left 1 h) refl

pub elapse-rings :
    (pid left : ℕ) → left ≤ 1 → elapse (record { pid = pid; left = left } ∷ []) ≡ ([], true)
unfolding elapse
elapse-rings pid left h = rw (le→leb left 1 h) refl

pub elapse-none : elapse [] ≡ ([], false)
unfolding elapse
elapse-none = refl

pub myalarm-first :
    (sec next : ℕ) → myalarm sec (Option.some next) init ≡ Option.some (one_child next sec)
unfolding myalarm
myalarm-first sec next = refl

-- `myalarm` ends the child of the last call, and leaves a new one.
pub myalarm-one :
    (sec pid left next : ℕ)
    → 0 < pid
    → myalarm sec (Option.some next) (one_child pid left) ≡ Option.some (one_child next sec)
unfolding myalarm kill
myalarm-one sec zero left next h = absurd (omega arith)
myalarm-one sec (suc pid) left next h = ground arith

round-second :
    (pid left : ℕ)
    → 1 < left
    → round (one_child pid left) second ≡ continue (one_child pid (left - 1)) []
unfolding round elapse
round-second pid left h = rw (lt→leb left 1 h) refl

-- Seconds pass, fewer than are left.
run-seconds :
    (pid left k : ℕ) (es : List Event)
    → k < left
    → run (one_child pid left) (replicate k second ++ es) ≡ run (one_child pid (left - k)) es
run-seconds pid left zero es below =
    let same : left ≡ left - 0 = omega arith in ap (λ l. run (one_child pid l) es) same
run-seconds pid left (suc k) es below =
    let same : (left - 1) - k ≡ left - suc k = omega arith in
    run-continue (one_child pid left) second (replicate k second ++ es)
      (round-second pid left (omega arith))
    ∙ prepend-none _
    ∙ run-seconds pid (left - 1) k es (omega arith)
    ∙ ap (λ l. run (one_child pid l) es) same

round-line :
    (pid left : ℕ) (text : List ℕ) (next : ℕ)
    → 0 < pid
    → round (one_child pid left) (line text (Option.some next))
      ≡ continue (one_child next timeout_seconds) (echo text ∷ [])
unfolding round myalarm kill
round-line zero left text next h = absurd (omega arith)
round-line (suc pid) left text next h = ground arith

run-pauses :
    (pid : ℕ) (ps : List Pause) (es : List Event)
    → 0 < pid
    → Each IsShort ps
    → run (one_child pid timeout_seconds) (events ps ++ es)
      ≡ prepend (echoes ps) (run (one_child (last_pid pid ps) timeout_seconds) es)
run-pauses pid [] es some h = sym (prepend-none _)
run-pauses pid (p ∷ ps) es some h =
    let rest = events ps ++ es in
    let left = timeout_seconds - p.seconds in
    ap (run (one_child pid timeout_seconds))
      (append_assoc (replicate p.seconds second) (line p.text (Option.some p.pid) ∷ events ps) es)
    ∙ run-seconds pid timeout_seconds p.seconds (line p.text (Option.some p.pid) ∷ rest) h.0.0
    ∙ run-continue (one_child pid left) _ rest (round-line pid left p.text p.pid some)
    ∙ ap (prepend (echo p.text ∷ [])) (run-pauses p.pid ps es h.0.1 h.1)
    ∙ prepend-append (echo p.text ∷ []) (echoes ps) _

start-some :
    (pid : ℕ) (es : List Event)
    → start (Option.some pid) es ≡ run (one_child pid timeout_seconds) es
unfolding start myalarm
start-some pid es = refl

rings :
    (pid : ℕ) (later : List Event)
    → run (one_child pid timeout_seconds) (replicate timeout_seconds second ++ later)
      ≡ exited 0 (message ∷ [])
unfolding run round elapse prepend
rings pid later = refl

-- While no line is longer in coming than four seconds, each is echoed, and one child of `myalarm` is
-- left, that of the last call, with its full time less the seconds since. At five seconds without a
-- line the program prints its message and exits, whatever would come later. (No `fork` fails.)
pub alarm_runs :
    (pid : ℕ) (ps : List Pause) (k : ℕ) (later : List Event)
    → 0 < pid
    → Each IsShort ps
    → k < timeout_seconds
    → (start (Option.some pid) (events ps ++ replicate k second)
        ≡ running (one_child (last_pid pid ps) (timeout_seconds - k)) (echoes ps))
      × (start (Option.some pid) (events ps ++ (replicate timeout_seconds second ++ later))
          ≡ exited 0 (echoes ps ++ message ∷ []))
unfolding run prepend
alarm_runs pid ps k later some h below = (
  ap (λ es. start (Option.some pid) (events ps ++ es)) (sym (append-nil (replicate k second)))
      ∙ start-some pid _
      ∙ run-pauses pid ps (replicate k second ++ []) some h
      ∙ ap (prepend (echoes ps)) (run-seconds (last_pid pid ps) timeout_seconds k [] below)
      ∙ ap (running (one_child (last_pid pid ps) (timeout_seconds - k))) (append-nil (echoes ps)),
  start-some pid _
      ∙ run-pauses pid ps (replicate timeout_seconds second ++ later) some h
      ∙ ap (prepend (echoes ps)) (rings (last_pid pid ps) later),
)
