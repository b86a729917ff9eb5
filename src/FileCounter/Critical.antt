-- ===== src/FileCounter/Critical.antt =====
-- kadai3/file-counter.c: the invariant, and what a process in the critical section sees.
use mathlib.Core.Option.{Option, none, some}
use excc.Common.{
  ℕ, ◌+◌, ◌≤◌, ◌<◌, ◌≡◌, refl, Bool, true, false, length, arith, count_if, count_if-replicate,
  get_or-replicate, length-replicate,
}
use excc.FileCounter.{
  Pc, start, locked, scanned, truncated, printed, finished, refused, aborted, kept, System, pc,
  init,
}

-- Between the two calls of `semop`; a process that exits there never makes the second.
abbrev pub holds : Pc → Bool
holds start = false
holds (finished c) = false
holds refused = false
holds _ = true

-- Its number is in the file, or was.
abbrev pub added : Pc → Bool
added (printed c) = true
added (finished c) = true
added (kept c) = true
added _ = false

abbrev pub result : Pc → Option ℕ
result (printed c) = some c
result (finished c) = some c
result (kept c) = some c
result _ = none

abbrev pub total : System → ℕ
total s = count_if added s.procs

-- What a process in the critical section says of the file, and of the number of processes that have
-- added one.
abbrev pub Sees : Option ℕ → ℕ → Pc → Type 0
Sees f t locked = f ≡ some t
Sees f t (scanned c) = (f ≡ some t) × (c ≡ t + 1)
Sees f t (truncated c) = c ≡ t + 1
Sees f t (printed c) = (f ≡ some t) × (c ≡ t)
Sees f t (kept c) = (f ≡ some t) × (c ≡ t)
Sees f t aborted = f ≡ some t
Sees f t start = Unit {0}
Sees f t refused = Unit {0}
Sees f t (finished c) = Unit {0}

pub record Inv (n : ℕ) (s : System) : Type 0 where
  pub size : length s.procs ≡ n
  pub exclusive : s.sem + count_if holds s.procs ≡ 1
  pub free : 0 < s.sem → s.file ≡ some (total s)
  pub sees : (i : ℕ) → i < n → Sees s.file (total s) (pc s i)
  pub range : (i c : ℕ) → i < n → result (pc s i) ≡ some c → (0 < c) × (c ≤ total s)
  pub unique :
      (i j c : ℕ) → i < n → j < n → result (pc s i) ≡ some c → result (pc s j) ≡ some c → i ≡ j
  pub covered : (c : ℕ) → 0 < c → c ≤ total s → (i : ℕ) × (i < n) × (result (pc s i) ≡ some c)

pub init-Inv : (n : ℕ) → Inv n (init n)
init-Inv n = record {
  size = length-replicate n start;
  exclusive = omega (arith, count_if-replicate holds n start refl);
  free = λ h. ground (arith, count_if-replicate added n start refl);
  sees = λ i h. ground (arith, get_or-replicate n i start);
  range = λ i c h e. ground (arith, get_or-replicate n i start);
  unique = λ i j c hi hj e f. ground (arith, get_or-replicate n i start);
  covered = λ c h k. absurd (omega (arith, count_if-replicate added n start refl));
}

pub Sees-idle : (f : Option ℕ) (t : ℕ) (p : Pc) → holds p ≡ false → Sees f t p
Sees-idle f t start e = tt
Sees-idle f t refused e = tt
Sees-idle f t (finished c) e = tt
Sees-idle f t locked e = cc
Sees-idle f t (scanned c) e = cc
Sees-idle f t (truncated c) e = cc
Sees-idle f t (printed c) e = cc
Sees-idle f t (kept c) e = cc
Sees-idle f t aborted e = cc
