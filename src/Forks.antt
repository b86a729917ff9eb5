-- ===== src/Forks.antt =====
-- kadai3/fork.c: a parent forks children, each of which prints its number, and waits for them. Each
-- `fork`, `printf`, `exit` and `wait` is one step of one process, and the steps interleave in any
-- order. (How long a child sleeps does not matter then.)
pub mod Reports
mod Tests
use excc.Common.{ℕ, ◌+◌, ◌<◌, ◌≡◌, List, [], ◌∷◌, ◌++◌, get_or, set, replicate, length}

abbrev pub numprocs : ℕ
numprocs = 3

-- Where a child stands. A reaped one has been waited for.
pub data Child : Type 0 where
  unborn asleep printed ended reaped : Child

-- Where the parent stands: it has forked so many children; it has waited for so many. It has called
-- `exit(1)` in the last one.
pub data Main : Type 0 where
  forking : ℕ → Main
  reaping : ℕ → Main
  finished : Main
  failed : Main

-- "Child process i=%d\n" with its number, and "Parent process: child (%d)\n" with the pid of the
-- child of that number.
pub data Line : Type 0 where
  child_line : ℕ → Line
  parent_line : ℕ → Line
  perror : Line

pub record System : Type 0 where
  pub main : Main
  pub children : List Child
  pub screen : List Line

abbrev pub child : System → ℕ → Child
child s i = get_or s.children i unborn

abbrev pub init : ℕ → System
init n = record { main = forking 0; children = replicate n unborn; screen = [] }

-- One step. `n`, the number of children to be made, is the length of the list.
pub data Step (s : System) : System → Type 0 where
  fork :
      {k : ℕ}
      → s.main ≡ forking k
      → k < length s.children
      → Step s (record s { main = forking (k + 1); children = set s.children k asleep })
  fork_fails :
      {k : ℕ}
      → s.main ≡ forking k
      → k < length s.children
      → Step s (record s { main = failed; screen = s.screen ++ perror ∷ [] })
  all_forked :
      {k : ℕ} → s.main ≡ forking k → k ≡ length s.children → Step s (record s { main = reaping 0 })
  print :
      (i : ℕ)
      → i < length s.children
      → child s i ≡ asleep
      → Step s
          (record s { children = set s.children i printed; screen = s.screen ++ child_line i ∷ [] })
  exit :
      (i : ℕ)
      → i < length s.children
      → child s i ≡ printed
      → Step s (record s { children = set s.children i ended })
  wait :
      {k : ℕ} (i : ℕ)
      → s.main ≡ reaping k
      → k < length s.children
      → i < length s.children
      → child s i ≡ ended
      → Step s (record {
        main = reaping (k + 1);
        children = set s.children i reaped;
        screen = s.screen ++ parent_line i ∷ [];
      })
  all_reaped :
      {k : ℕ} → s.main ≡ reaping k → k ≡ length s.children → Step s (record s { main = finished })

pub data Reach (n : ℕ) : System → Type 0 where
  here : Reach n (init n)
  next : {s t : System} → Reach n s → Step s t → Reach n t
