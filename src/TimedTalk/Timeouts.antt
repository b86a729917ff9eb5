-- ===== src/TimedTalk/Timeouts.antt =====
-- kadai3/simple-talk-client.c: without a time-out it is the client of kadai2.
use mathlib.Core.Option.{Option}
use excc.Common.{
  ℕ, ◌-◌, ◌≤◌, ◌<◌, ◌≡◌, refl, sym, ap, ◌⊎◌, inl, inr, ◌∙◌, List, [], ◌∷◌, ◌++◌, arith,
}
use excc.ChatServer.{ReadResult}
use excc.ChatClient.{Effect, close, Input}
use excc.Alarm.Timeouts.{myalarm-one, myalarm-first}
use excc.Talk.Sessions.{session-continue, session-break, session-none, round-unready}
use excc.Talk
use excc.Talk.{client, Memory}
use excc.TimedTalk.{
  State, Event, waits, ready, pass, message, test_flag, talk, serve, round, timeout_seconds, Ending,
  talking, ended, exited, prepend, session, start, Step, continue, break,
}
use excc.TimedTalk.Endings.{session-end, session-next, session-last, session-exit, session-append}
use excc.TimedTalk.Elapsing.{timed, elapses-quiet, elapses-rings}

-- Fewer seconds pass between two results of `select` than the time-out has, and `fork` gives a pid, which
-- is not 0. `left` are those that are left.
abbrev pub IsQuiet : (left : ℕ) → List Event → Type 0
IsQuiet left [] = Unit {0}
IsQuiet left (waits n ∷ es) = (n < left) × IsQuiet (left - n) es
IsQuiet left (ready n Option.none i r ∷ es) = ⊥
IsQuiet left (ready n (Option.some pid) i r ∷ es) =
    (n < left) × (0 < pid) × IsQuiet timeout_seconds es

-- The child that runs after some events, and the seconds that it has left.
abbrev pub pid_after : ℕ → List Event → ℕ
pid_after pid [] = pid
pid_after pid (waits n ∷ es) = pid_after pid es
pid_after pid (ready n Option.none i r ∷ es) = pid_after pid es
pid_after pid (ready n (Option.some next) i r ∷ es) = pid_after next es

abbrev pub left_after : ℕ → List Event → ℕ
left_after left [] = left
left_after left (waits n ∷ es) = left_after (left - n) es
left_after left (ready n pid i r ∷ es) = left_after timeout_seconds es

-- The same for the client without a time-out.
abbrev pub plain : List Event → List Talk.Event
plain [] = []
plain (waits n ∷ es) = Talk.unready ∷ plain es
plain (ready n pid i r ∷ es) = Talk.ready i r ∷ plain es

abbrev pub lift : ℕ → ℕ → Talk.Ending → Ending
lift pid left (Talk.Ending.talking m out) = talking (timed pid left m) out
lift pid left (Talk.Ending.ended m out) = ended out

lift-prepend :
    (pid left : ℕ) (out : List Effect) (e : Talk.Ending)
    → lift pid left (Talk.prepend out e) ≡ prepend out (lift pid left e)
unfolding prepend Talk.prepend
lift-prepend pid left out (Talk.Ending.talking m more) = refl
lift-prepend pid left out (Talk.Ending.ended m more) = refl

Round-cases :
    (r : Talk.Round)
    → ((m : Memory) × (out : List Effect) × (r ≡ Talk.Round.continue m out))
      ⊎ ((m : Memory) × (out : List Effect) × (r ≡ Talk.Round.break m out))
Round-cases (Talk.Round.continue m out) = inl (m, out, refl)
Round-cases (Talk.Round.break m out) = inr (m, out, refl)

round-waits :
    (pid left n : ℕ) (m : Memory)
    → n < left
    → round (timed pid left m) (waits n) ≡ continue (timed pid (left - n) m) []
unfolding round pass test_flag
round-waits pid left n m h = rw (elapses-quiet pid left n h) refl

round-ready :
    (pid left n next : ℕ) (m : Memory) (i : Option Input) (r : Option ReadResult)
    → n < left
    → 0 < pid
    → round (timed pid left m) (ready n (Option.some next) i r)
      ≡ talk (timed next timeout_seconds m) (Talk.round client m (Talk.ready i r))
unfolding round pass serve
round-ready pid left n next m i r h some =
    rw (elapses-quiet pid left n h, myalarm-one timeout_seconds pid (left - n) next some) refl

talk-continue :
    (pid : ℕ) (m m' : Memory) (out : List Effect)
    → talk (timed pid timeout_seconds m) (Talk.Round.continue m' out)
      ≡ continue (timed pid timeout_seconds m') out
unfolding talk test_flag
talk-continue pid m m' out = refl

talk-break :
    (s : State) (m' : Memory) (out : List Effect) → talk s (Talk.Round.break m' out) ≡ break out
unfolding talk
talk-break s m' out = refl

session-plain :
    (pid left : ℕ) (m : Memory) (es : List Event)
    → 0 < pid
    → IsQuiet left es
    → session (timed pid left m) es
      ≡ lift (pid_after pid es) (left_after left es) (Talk.session client m (plain es))
session-plain pid left m [] some h =
    session-end (timed pid left m) ∙ sym (ap (lift pid left) (session-none client m))
session-plain pid left m (waits n ∷ es) some h =
    let a = pid_after pid es in
    let l = left_after (left - n) es in
    session-next (timed pid left m) (waits n) es (round-waits pid left n m h.0)
    ∙ ap (prepend []) (session-plain pid (left - n) m es some h.1)
    ∙ sym (
        ap (lift a l) (session-continue client m Talk.unready (plain es) (round-unready client m))
        ∙ lift-prepend a l [] (Talk.session client m (plain es)))
session-plain pid left m (ready n Option.none i r ∷ es) some h = absurd h
session-plain pid left m (ready n (Option.some next) i r ∷ es) some h =
    let a = pid_after next es in
    let l = left_after timeout_seconds es in
    let e = ready n (Option.some next) i r in
    let here = round-ready pid left n next m i r h.0 some in
    elim (Round-cases (Talk.round client m (Talk.ready i r))) [
      | inl (m', out, goes) ↦
          session-next (timed pid left m) e es
            (here ∙ ap (talk (timed next timeout_seconds m)) goes ∙ talk-continue next m m' out)
          ∙ ap (prepend out) (session-plain next timeout_seconds m' es h.1 h.2)
          ∙ sym (
              ap (lift a l) (session-continue client m (Talk.ready i r) (plain es) goes)
              ∙ lift-prepend a l out (Talk.session client m' (plain es)))
      | inr (m', out, ends) ↦
          session-last (timed pid left m) e es
            (here ∙ ap (talk (timed next timeout_seconds m)) ends ∙ talk-break _ m' out)
          ∙ sym (ap (lift a l) (session-break client m (Talk.ready i r) (plain es) ends))
    ]

start-some :
    (pid : ℕ) (m : Memory) (es : List Event)
    → start (Option.some pid) m es ≡ session (timed pid timeout_seconds m) es
unfolding start
start-some pid m es = rw (start, myalarm-first timeout_seconds pid) refl

left_after-some : (left : ℕ) (es : List Event) → 0 < left → IsQuiet left es → 0 < left_after left es
left_after-some left [] some h = some
left_after-some left (waits n ∷ es) some h = left_after-some (left - n) es (omega (arith, h.0)) h.1
left_after-some left (ready n Option.none i r ∷ es) some h = absurd h
left_after-some left (ready n (Option.some pid) i r ∷ es) some h =
    left_after-some timeout_seconds es (omega arith) h.2

round-rings :
    (pid left n : ℕ) (m : Memory)
    → 0 < left
    → left ≤ n
    → round (timed pid left m) (waits n) ≡ Step.exited 0 (message ∷ close ∷ [])
unfolding round pass test_flag
round-rings pid left n m some h = rw (elapses-rings pid left n some h) refl

-- If thirty seconds pass after such rounds, in which `fork` works, while the talk still goes on, the client
-- prints its message, closes the socket and exits, whatever would come later. It has done before what
-- that of kadai2 does.
pub times_out :
    (pid n : ℕ) (m last : Memory) (es later : List Event) (out : List Effect)
    → 0 < pid
    → IsQuiet timeout_seconds es
    → Talk.session client m (plain es) ≡ Talk.Ending.talking last out
    → left_after timeout_seconds es ≤ n
    → start (Option.some pid) m (es ++ waits n ∷ later) ≡ exited 0 (out ++ message ∷ close ∷ [])
unfolding prepend
times_out pid n m last es later out some h talks over =
    let s = timed pid timeout_seconds m in
    let left = left_after timeout_seconds es in
    let ends =
      round-rings (pid_after pid es) left n last
        (left_after-some timeout_seconds es (omega arith) h) over in
    start-some pid m (es ++ waits n ∷ later)
    ∙ session-append s es (waits n ∷ later)
        (session-plain pid timeout_seconds m es some h ∙ ap (lift (pid_after pid es) left) talks)
    ∙ ap (prepend out) (session-exit (timed (pid_after pid es) left last) (waits n) later ends)
