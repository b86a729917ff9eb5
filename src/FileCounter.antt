-- ===== src/FileCounter.antt =====
-- kadai3/file-counter.c: processes that add one to a number in a file, under a semaphore. Each access
-- to the semaphore or to the file is one step of one process, and the steps interleave in any order.
pub mod Critical
pub mod Invariant
pub mod Counting
pub mod Finishing
mod Tests
use mathlib.Core.Option.{Option, none, some}
use excc.Common.{
  ℕ, zero, suc, ◌+◌, ◌-◌, ◌≤◌, ◌<◌, ◌≡◌, Bool, true, false, List, get_or, set, replicate, length,
}
use excc.Semaphore.{semop, take, give}

abbrev pub num_procs : ℕ
num_procs = 10

-- Where a child stands in `count1`, with its `count` where that is live. It has called `exit(1)` in
-- the last three: the first `semop` failed, an `fopen` did, or the second `semop`.
pub data Pc : Type 0 where
  start : Pc
  locked : Pc
  scanned : (count : ℕ) → Pc
  truncated : (count : ℕ) → Pc
  printed : (count : ℕ) → Pc
  finished : (count : ℕ) → Pc
  refused : Pc
  aborted : Pc
  kept : (count : ℕ) → Pc

-- The semaphore, the number in the file (none while the file is empty) and the children.
pub record System : Type 0 where
  pub sem : ℕ
  pub file : Option ℕ
  pub procs : List Pc

abbrev pub pc : System → ℕ → Pc
pc s i = get_or s.procs i start

-- `main` before the children run: the file holds 0, the semaphore 1.
abbrev pub init : ℕ → System
init n = record { sem = 1; file = some 0; procs = replicate n start }

-- One step of `count1`. Where `fscanf` finds no number, `count` keeps a value that nothing has set.
-- `semop` and `fopen` may fail, and then the process exits as it stands.
pub data Move : ℕ → Option ℕ → Pc → ℕ → Option ℕ → Pc → Type 0 where
  lock : {v w : ℕ} {f : Option ℕ} → semop (take 1) v ≡ some w → Move v f start w f locked
  scan : {v c : ℕ} {f : Option ℕ} → f ≡ some c → Move v f locked v f (scanned (c + 1))
  scan_nothing : {v : ℕ} {f : Option ℕ} (g : ℕ) → f ≡ none → Move v f locked v f (scanned (g + 1))
  truncate : {v c : ℕ} {f : Option ℕ} → Move v f (scanned c) v none (truncated c)
  print : {v c : ℕ} {f : Option ℕ} → Move v f (truncated c) v (some c) (printed c)
  unlock :
      {v w c : ℕ} {f : Option ℕ} → semop (give 1) v ≡ some w → Move v f (printed c) w f (finished c)
  lock_fails : {v : ℕ} {f : Option ℕ} → Move v f start v f refused
  unlock_fails : {v c : ℕ} {f : Option ℕ} → Move v f (printed c) v f (kept c)
  open_fails_reading : {v : ℕ} {f : Option ℕ} → Move v f locked v f aborted
  open_fails_writing : {v c : ℕ} {f : Option ℕ} → Move v f (scanned c) v f aborted

pub data Step (s : System) : System → Type 0 where
  step :
      (i : ℕ) {w : ℕ} {g : Option ℕ} {q : Pc}
      → i < length s.procs
      → Move s.sem s.file (pc s i) w g q
      → Step s (record { sem = w; file = g; procs = set s.procs i q })

-- The states that a state can come to.
pub data Steps (s : System) : System → Type 0 where
  here : Steps s s
  next : {t u : System} → Steps s t → Step t u → Steps s u

-- The states that `n` children can come to.
abbrev pub Reach : ℕ → System → Type 0
Reach n = Steps (init n)
