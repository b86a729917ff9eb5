-- ===== src/Signals/Balance.antt =====
-- kadai3/sem-wait.c and sem-signal.c: each signal lets one waiting process go on.
use mathlib.Core.Option.{some}
use excc.Common.{
  ℕ, ◌+◌, ◌-◌, ◌≤◌, ◌<◌, ◌≡◌, ◌↔◌, refl, Bool, true, false, List, [], length, arith, bit, count_if,
  count_if-set, count_if-append, count_if-imp, count_if-disjoint,
}
use excc.Common.Text.{str_eq}
use excc.Semaphore.{semop, take}
use excc.Signals.{
  Pc, wait_start, signal_start, alt_start, wait_done, passed, waiting, given, signal_done, System,
  init, pc, done_line, is_start, WaitMove, SignalMove, AltMove, alt_ftok, signal_ftok, Move, waits,
  signals, alternates, pass, signal, Step, step, Steps, here, next, failed,
}

-- It has taken from the semaphore, or given to it, or has said that it is done.
abbrev pub has_passed : Pc → Bool
has_passed passed = true
has_passed wait_done = true
has_passed _ = false

abbrev pub has_given : Pc → Bool
has_given given = true
has_given signal_done = true
has_given _ = false

abbrev is_done : Pc → Bool
is_done wait_done = true
is_done _ = false

abbrev pub waits_over : System → ℕ
waits_over s = count_if has_passed s.procs

abbrev pub signals_given : System → ℕ
signals_given s = count_if has_given s.procs

-- How often "done." has been printed.
abbrev pub done_lines : System → ℕ
done_lines s = count_if (str_eq done_line) s.screen

record Inv (n : ℕ) (s : System) : Type 0 where
  balance : s.sem + waits_over s ≡ n + signals_given s
  shown : done_lines s ≡ count_if is_done s.procs

-- What a step changes.
abbrev Trades : ℕ → Pc → List (List ℕ) → ℕ → Pc → Type 0
Trades v p text w q =
    (w + bit (has_passed q) + bit (has_given p) ≡ v + bit (has_passed p) + bit (has_given q))
    × (count_if (str_eq done_line) text + bit (is_done p) ≡ bit (is_done q))

wait-Trades :
    {v w : ℕ} {p q : Pc} {text : List (List ℕ)} → WaitMove v p text w q → Trades v p text w q
unfolding count_if str_eq
wait-Trades (pass e) = (ground arith, refl)
wait-Trades mv = (omega arith, refl)

signal-Trades :
    {v w : ℕ} {p q : Pc} {text : List (List ℕ)} → SignalMove v p text w q → Trades v p text w q
unfolding count_if str_eq
signal-Trades (signal e) = (ground arith, refl)
signal-Trades mv = (omega arith, refl)

alt-Trades :
    {v w : ℕ} {p q : Pc} {text : List (List ℕ)} → AltMove v p text w q → Trades v p text w q
unfolding count_if str_eq
alt-Trades alt_ftok = (omega arith, refl)
alt-Trades mv = (omega arith, refl)

move-Trades : {v w : ℕ} {p q : Pc} {text : List (List ℕ)} → Move v p text w q → Trades v p text w q
move-Trades (waits mv) = wait-Trades mv
move-Trades (signals mv) = signal-Trades mv
move-Trades (alternates mv) = alt-Trades mv

Step-Inv : {n : ℕ} {s t : System} → Inv n s → Step s t → Inv n t
Step-Inv {s} inv (step i {w} {text} {q} inside mv) =
    let (trade, line) = move-Trades mv in
    record {
      balance = omega (
        arith,
        trade,
        inv.balance,
        count_if-set has_passed s.procs i q failed inside,
        count_if-set has_given s.procs i q failed inside,
      );
      shown = omega (
        arith,
        line,
        inv.shown,
        count_if-append (str_eq done_line) s.screen text,
        count_if-set is_done s.procs i q failed inside,
      );
    }

module _ (test : Pc → Bool) (apart : (p : Pc) → is_start p ≡ true → test p ≡ false) where
  none_yet : (procs : List Pc) → count_if is_start procs ≡ length procs → count_if test procs ≡ 0
  none_yet procs h = omega (arith, count_if-disjoint is_start test procs apart)

start_idle :
    (p : Pc)
    → is_start p ≡ true
    → (has_passed p ≡ false) × (has_given p ≡ false) × (is_done p ≡ false)
start_idle wait_start e = (refl, refl, refl)
start_idle signal_start e = (refl, refl, refl)
start_idle alt_start e = (refl, refl, refl)
start_idle p e = cc

init-Inv : (n : ℕ) (procs : List Pc) → count_if is_start procs ≡ length procs → Inv n (init n procs)
unfolding count_if
init-Inv n procs h = record {
  balance = omega (
    arith,
    none_yet has_passed (λ p e. (start_idle p e).0) procs h,
    none_yet has_given (λ p e. (start_idle p e).1) procs h,
  );
  shown = omega (arith, none_yet is_done (λ p e. (start_idle p e).2) procs h);
}

Steps-Inv : {n : ℕ} {s t : System} → Inv n s → Steps s t → Inv n t
Steps-Inv inv here = inv
Steps-Inv inv (next st last) = Step-Inv (Steps-Inv inv st) last

done-passed : (p : Pc) → is_done p ≡ true → has_passed p ≡ true
done-passed wait_done e = refl
done-passed p e = cc

-- "done." is not printed more often than the semaphore was at the start and has been signalled since,
-- by processes that have not started yet at the start.
pub done_needs_signal :
    (n : ℕ) (procs : List Pc) (s : System)
    → count_if is_start procs ≡ length procs
    → Steps (init n procs) s
    → done_lines s ≤ n + signals_given s
done_needs_signal n procs s h st =
    let inv : Inv n s = Steps-Inv (init-Inv n procs h) st in
    omega (arith, inv.balance, inv.shown, count_if-imp is_done has_passed s.procs done-passed)

-- Only `semop` leads to `passed`.
wait-semop :
    {v w : ℕ} {p q : Pc} {text : List (List ℕ)}
    → WaitMove v p text w q
    → q ≡ passed
    → semop (take 1) v ≡ some w
wait-semop (pass e) f = e
wait-semop mv f = cc

passes-semop :
    {v w : ℕ} {p q : Pc} {text : List (List ℕ)}
    → Move v p text w q
    → p ≡ waiting
    → q ≡ passed
    → semop (take 1) v ≡ some w
passes-semop (waits mv) e f = wait-semop mv f
passes-semop (signals mv) e f = absurd (signal-apart mv e)
  where
    signal-apart :
        {v w : ℕ} {p q : Pc} {text : List (List ℕ)} → SignalMove v p text w q → p ≡ waiting → ⊥
    signal-apart signal_ftok e = cc
    signal-apart mv e = cc
passes-semop (alternates mv) e f = absurd (alt-apart mv e)
  where
    alt-apart : {v w : ℕ} {p q : Pc} {text : List (List ℕ)} → AltMove v p text w q → p ≡ waiting → ⊥
    alt-apart alt_ftok e = cc
    alt-apart mv e = cc

-- A process that waits can go on if and only if fewer have gone on than the semaphore was at the start
-- and has been signalled since: no signal is lost, whoever comes first, and each is for one process.
pub wakes_iff :
    (n : ℕ) (procs : List Pc) (s : System) (i : ℕ)
    → count_if is_start procs ≡ length procs
    → Steps (init n procs) s
    → pc s i ≡ waiting
    → ((text : List (List ℕ)) × (w : ℕ) × Move s.sem (pc s i) text w passed)
      ↔ (waits_over s < n + signals_given s)
wakes_iff n procs s i h st e =
    let inv : Inv n s = Steps-Inv (init-Inv n procs h) st in
    (
      (λ (text, w, mv). ground (arith, passes-semop mv e refl, inv.balance)),
      λ few. ([], s.sem - 1, rw e (waits (pass (ground (arith, inv.balance))))),
    )
