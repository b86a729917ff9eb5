-- ===== src/FileCounter/Counting.antt =====
-- kadai3/file-counter.c: what the semaphore achieves for `count1`.
use mathlib.Core.Option.{Option, none, some}
use excc.Common.{
  ℕ, ◌≤◌, ◌<◌, ◌≡◌, refl, Bool, true, false, arith, ap, ◌∙◌, count_if, count_if_unique,
  count_if-witness, count_if-all, count_if-pos, get_or-set, dec_lt,
}
use excc.Semaphore.{semop, take}
use excc.FileCounter.{
  Pc, start, finished, refused, aborted, kept, System, pc, Move, lock, step, Steps, here, next,
  Reach,
}
use excc.FileCounter.Critical.{holds, added, result, total, Inv}
use excc.FileCounter.Invariant.{Reach-Inv}

-- If no process holds the semaphore, the count of holders is 0.
holders_zero :
    {n : ℕ} {s : System}
    → Inv n s
    → ((i : ℕ) → i < n → holds (pc s i) ≡ false)
    → count_if holds s.procs ≡ 0
holders_zero {s} inv idle = elim (dec_lt 0 (count_if holds s.procs)) [
  | yes busy ↦
      let (i, below, held) = count_if-witness holds s.procs start busy in
      cc (idle i (omega (arith, inv.size)))
  | no free ↦ omega arith
]

holder_down : {n : ℕ} {s : System} → Inv n s → (i : ℕ) → i < n → holds (pc s i) ≡ true → s.sem ≡ 0
holder_down {s} inv i inside h =
    omega (arith, inv.exclusive, count_if-pos holds s.procs i start (omega (arith, inv.size)) h)

-- At most one process stands between its two calls of `semop`, and while none does, the file holds
-- the number of processes that have written to it.
pub count1_exclusive :
    (n : ℕ) (s : System)
    → Reach n s
    → ((i j : ℕ) → i < n → j < n → holds (pc s i) ≡ true → holds (pc s j) ≡ true → i ≡ j)
      × (((i : ℕ) → i < n → holds (pc s i) ≡ false) → s.file ≡ some (total s))
count1_exclusive n s r =
    let inv : Inv n s = Reach-Inv r in
    (
      (λ i j hi hj p q.
          count_if_unique holds s.procs i j start (omega (arith, inv.exclusive))
            (omega (arith, inv.size)) (omega (arith, inv.size)) p q),
      λ idle. inv.free (omega (arith, inv.exclusive, holders_zero inv idle)),
    )

-- The numbers that the processes have written to the file are 1 up to how many have written one, and
-- each was written by exactly one process.
pub count1_numbers :
    (n : ℕ) (s : System)
    → Reach n s
    → ((i c : ℕ) → i < n → result (pc s i) ≡ some c → (0 < c) × (c ≤ total s))
      × ((c : ℕ) → 0 < c → c ≤ total s → (i : ℕ) × (i < n) × (result (pc s i) ≡ some c))
      × ((i j c : ℕ) → i < n → j < n → result (pc s i) ≡ some c → result (pc s j) ≡ some c → i ≡ j)
count1_numbers n s r = let inv = Reach-Inv r in (inv.range, inv.covered, inv.unique)

abbrev pub is_finished : Pc → Bool
is_finished (finished c) = true
is_finished _ = false

finished-added : (p : Pc) → is_finished p ≡ true → (added p ≡ true) × (holds p ≡ false)
finished-added (finished c) e = (refl, refl)
finished-added p e = cc

-- When all processes have finished, the file holds their number, and the semaphore is free.
pub count1_complete :
    (n : ℕ) (s : System)
    → Reach n s
    → ((i : ℕ) → i < n → is_finished (pc s i) ≡ true)
    → (s.file ≡ some n) × (s.sem ≡ 1)
count1_complete n s r all =
    let inv : Inv n s = Reach-Inv r in
    let full : total s ≡ n = omega (
      arith,
      count_if-all added s.procs start
          (λ i h. (finished-added (pc s i) (all i (omega (arith, inv.size)))).0),
      inv.size,
    ) in
    let idle : count_if holds s.procs ≡ 0 =
      holders_zero inv (λ i h. (finished-added (pc s i) (all i h)).1) in
    (inv.free (omega (arith, inv.exclusive)) ∙ ap some full, omega (arith, inv.exclusive))

-- It has called `exit(1)`.
abbrev pub has_exited : Pc → Bool
has_exited refused = true
has_exited aborted = true
has_exited (kept c) = true
has_exited _ = false

exited-stuck : {v w : ℕ} {f g : Option ℕ} {p q : Pc} → Move v f p w g q → has_exited p ≡ false
exited-stuck (lock e) = refl
exited-stuck mv = refl

-- A process that has exited stays as it is.
exited_stays :
    {n : ℕ} {s t : System} (i : ℕ)
    → Reach n s
    → i < n
    → has_exited (pc s i) ≡ true
    → Steps s t
    → Reach n t × (pc t i ≡ pc s i)
exited_stays i r inside h here = (r, refl)
exited_stays i r inside h (next {t = m} st (step j {q = q} below mv)) =
    let (rt, same) = exited_stays i r inside h st in
    (
      next rt (step j below mv),
      ground (arith, get_or-set m.procs j i q start below, exited-stuck mv),
    )

-- A process that calls `exit(1)` between its two calls of `semop` leaves the semaphore at 0: whatever
-- the others do from then on, the first `semop` of each blocks.
pub count1_exit_blocks :
    (n : ℕ) (s t : System) (i : ℕ)
    → Reach n s
    → i < n
    → holds (pc s i) ≡ true
    → has_exited (pc s i) ≡ true
    → Steps s t
    → semop (take 1) t.sem ≡ none
count1_exit_blocks n s t i r inside h e st =
    let (rt, same) = exited_stays i r inside e st in
    let down : t.sem ≡ 0 = holder_down (Reach-Inv rt) i inside (rw same h) in rw down
