-- ===== src/Barrier.antt =====
-- kadai3/barrier_sync.c: processes that wait for one another at a barrier, which is a semaphore that
-- starts at their number. Each call of `semop`, `fork`, `wait` and `semctl` is one step of one process,
-- and the steps interleave in any order. How long a child sleeps does not matter then.
pub mod Invariant
pub mod Synchrony
pub mod Finishing
mod Tests
use mathlib.Core.Option.{Option, none, some}
use excc.Common.{
  ℕ, ◌+◌, ◌<◌, ◌≡◌, Bool, true, false, List, get_or, set, replicate, length, count_if,
}
use excc.Semaphore.{semop, take, wait_zero}

abbrev pub process_num : ℕ
process_num = 5

-- Where a child stands: not yet forked; before its first `semop`, between the two, and behind both.
-- It has called `exit(1)` in the last two, because the first or the second `semop` failed.
pub data Child : Type 0 where
  unborn asleep waiting resumed failed_first failed_second : Child

-- Where `main` stands: it has forked so many children; it waits at the barrier; it has passed it and
-- waited for the end of so many children; it has removed the semaphore. It has called `exit(1)` in the
-- last one.
pub data Main : Type 0 where
  forking : ℕ → Main
  at_barrier : Main
  reaping : ℕ → Main
  finished : Main
  exited : Main

pub record System : Type 0 where
  pub sem : ℕ
  pub main : Main
  pub children : List Child

abbrev pub child : System → ℕ → Child
child s i = get_or s.children i unborn

-- `main` before its first `fork`.
abbrev pub init : ℕ → System
init n = record { sem = n; main = forking 0; children = replicate n unborn }

-- It has ended, so that a `wait` returns for it.
abbrev pub has_ended : Child → Bool
has_ended resumed = true
has_ended failed_first = true
has_ended failed_second = true
has_ended _ = false

-- One step of a child: the semaphore and the child, before and after.
pub data Move : ℕ → Child → ℕ → Child → Type 0 where
  arrive : {v w : ℕ} → semop (take 1) v ≡ some w → Move v asleep w waiting
  resume : {v w : ℕ} → semop wait_zero v ≡ some w → Move v waiting w resumed
  arrive_fails : {v : ℕ} → Move v asleep v failed_first
  resume_fails : {v : ℕ} → Move v waiting v failed_second

-- One step of `main`, with what it sees of the semaphore, the number of children that it is to make
-- and the number of those that have ended.
pub data MainMove (v n ended : ℕ) : Main → Main → Type 0 where
  barrier : {k : ℕ} → k ≡ n → MainMove v n ended (forking k) at_barrier
  fork_fails : {k : ℕ} → k < n → MainMove v n ended (forking k) exited
  pass : {w : ℕ} → semop wait_zero v ≡ some w → MainMove v n ended at_barrier (reaping 0)
  pass_fails : MainMove v n ended at_barrier exited
  wait : {k : ℕ} → k < n → k < ended → MainMove v n ended (reaping k) (reaping (k + 1))
  remove : {k : ℕ} → k ≡ n → MainMove v n ended (reaping k) finished
  remove_fails : {k : ℕ} → k ≡ n → MainMove v n ended (reaping k) exited

pub data Step (s : System) : System → Type 0 where
  child_step :
      (i : ℕ) {w : ℕ} {q : Child}
      → i < length s.children
      → Move s.sem (child s i) w q
      → Step s (record s { sem = w; children = set s.children i q })
  main_step :
      {q : Main}
      → MainMove s.sem (length s.children) (count_if has_ended s.children) s.main q
      → Step s (record s { main = q })
  fork :
      {k : ℕ}
      → s.main ≡ forking k
      → k < length s.children
      → Step s (record s { main = forking (k + 1); children = set s.children k asleep })

-- The states that a state can come to.
pub data Steps (s : System) : System → Type 0 where
  here : Steps s s
  next : {t u : System} → Steps s t → Step t u → Steps s u

abbrev pub Reach : ℕ → System → Type 0
Reach n = Steps (init n)
