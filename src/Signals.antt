-- ===== src/Signals.antt =====
-- kadai3/sem-wait.c, sem-signal.c and alt_exec_sem.c: programs that are started by hand, any number of
-- each, on the semaphore of one directory. Each call is one step of one process, and the steps
-- interleave in any order. A process that is not yet started stands at its start. What the
-- processes print, stderr with it, is a list of texts; for `perror`, its argument.
pub mod Balance
mod Tests
use mathlib.Core.Option.{Option, some}
use excc.Common.{ℕ, ◌<◌, ◌≡◌, Bool, true, false, List, [], ◌∷◌, ◌++◌, get_or, set, length}
use excc.Common.Text.{codes}
use excc.Semaphore.{semop, take, give}

-- Where a process stands: before `ftok`, behind it, behind `semget`, and so on. `failed` has called
-- `exit(1)`.
pub data Pc : Type 0 where
  wait_start wait_keyed wait_opened waiting passed wait_done : Pc
  signal_start signal_keyed signal_opened given signal_done : Pc
  alt_start alt_keyed alt_done : Pc
  failed : Pc

pub record System : Type 0 where
  pub sem : ℕ
  pub procs : List Pc
  pub screen : List (List ℕ)

-- The semaphore starts at some value; IPC_CREAT makes it where it is missing.
abbrev pub init : ℕ → List Pc → System
init n procs = record { sem = n; procs = procs; screen = [] }

abbrev pub pc : System → ℕ → Pc
pc s i = get_or s.procs i failed

abbrev pub waiting_line : List ℕ
waiting_line = codes "waiting for semaphore=1.\n"

abbrev pub done_line : List ℕ
done_line = codes "done.\n"

abbrev pub signal_line : List ℕ
signal_line = codes "signal: add semaphore by 1.\n"

-- One step of a process: the semaphore and the process before, what is printed, and both after.
pub data WaitMove : ℕ → Pc → List (List ℕ) → ℕ → Pc → Type 0 where
  wait_ftok : {v : ℕ} → WaitMove v wait_start [] v wait_keyed
  wait_ftok_fails :
      {v : ℕ} → WaitMove v wait_start (codes "ftok path does not exist.\n" ∷ []) v failed
  wait_semget : {v : ℕ} → WaitMove v wait_keyed [] v wait_opened
  wait_semget_fails : {v : ℕ} → WaitMove v wait_keyed (codes "semget error." ∷ []) v failed
  announce : {v : ℕ} → WaitMove v wait_opened (waiting_line ∷ []) v waiting
  pass : {v w : ℕ} → semop (take 1) v ≡ some w → WaitMove v waiting [] w passed
  pass_fails : {v : ℕ} → WaitMove v waiting (codes "sem_wait semop error." ∷ []) v failed
  report_done : {v : ℕ} → WaitMove v passed (done_line ∷ []) v wait_done

pub data SignalMove : ℕ → Pc → List (List ℕ) → ℕ → Pc → Type 0 where
  signal_ftok : {v : ℕ} → SignalMove v signal_start [] v signal_keyed
  signal_ftok_fails :
      {v : ℕ} → SignalMove v signal_start (codes "ftok path does not exist.\n" ∷ []) v failed
  signal_semget : {v : ℕ} → SignalMove v signal_keyed [] v signal_opened
  signal_semget_fails : {v : ℕ} → SignalMove v signal_keyed (codes "semget error." ∷ []) v failed
  signal : {v w : ℕ} → semop (give 1) v ≡ some w → SignalMove v signal_opened [] w given
  signal_fails :
      {v : ℕ} → SignalMove v signal_opened (codes "sem_signal semop error." ∷ []) v failed
  report_signal : {v : ℕ} → SignalMove v given (signal_line ∷ []) v signal_done

pub data AltMove : ℕ → Pc → List (List ℕ) → ℕ → Pc → Type 0 where
  alt_ftok : {v : ℕ} → AltMove v alt_start [] v alt_keyed
  alt_ftok_fails : {v : ℕ} → AltMove v alt_start (codes "ftok failed.\n" ∷ []) v failed
  alt_semget : {v : ℕ} → AltMove v alt_keyed [] v alt_done
  alt_semget_fails : {v : ℕ} → AltMove v alt_keyed (codes "semget failed.\n" ∷ []) v failed

pub data Move (v : ℕ) (p : Pc) (text : List (List ℕ)) (w : ℕ) (q : Pc) : Type 0 where
  waits : WaitMove v p text w q → Move v p text w q
  signals : SignalMove v p text w q → Move v p text w q
  alternates : AltMove v p text w q → Move v p text w q

pub data Step (s : System) : System → Type 0 where
  step :
      (i : ℕ) {w : ℕ} {text : List (List ℕ)} {q : Pc}
      → i < length s.procs
      → Move s.sem (pc s i) text w q
      → Step s (record { sem = w; procs = set s.procs i q; screen = s.screen ++ text })

-- The states that a state can come to.
pub data Steps (s : System) : System → Type 0 where
  here : Steps s s
  next : {t u : System} → Steps s t → Step t u → Steps s u

abbrev pub is_start : Pc → Bool
is_start wait_start = true
is_start signal_start = true
is_start alt_start = true
is_start _ = false
