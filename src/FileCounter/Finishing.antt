-- ===== src/FileCounter/Finishing.antt =====
-- kadai3/file-counter.c: the processes come to an end.
use mathlib.Core.Option.{Option, none, some}
use excc.Common.{
  ℕ, zero, suc, ◌+◌, ◌-◌, ◌≤◌, ◌<◌, ◌≡◌, inl, inr, refl, true, false, arith, set, length,
  Bool-cases, count_if, count_if-witness, count_if-missing, count_if-full, count_if-le, get_or-set,
  dec_lt, total_of, total_of-set,
}
use excc.FileCounter.{
  Pc, start, locked, scanned, truncated, printed, finished, refused, aborted, kept, System, pc,
  Move, lock, scan, scan_nothing, truncate, print, unlock, Step, step, Steps, here, next, Reach,
}
use excc.FileCounter.Critical.{holds, Inv}
use excc.FileCounter.Invariant.{Reach-Inv}
use excc.FileCounter.Counting.{is_finished, has_exited, count1_complete}

-- How many steps a process has before it, if all calls work.
abbrev rank : Pc → ℕ
rank start = 5
rank locked = 4
rank (scanned c) = 3
rank (truncated c) = 2
rank (printed c) = 1
rank _ = 0

abbrev ranks : System → ℕ
ranks s = total_of rank s.procs

-- What a process can do if the call that it makes works.
abbrev Moves : ℕ → Option ℕ → Pc → Type 0
Moves v f p =
    (w : ℕ) × (g : Option ℕ) × (q : Pc) × Move v f p w g q
    × (has_exited q ≡ false)
    × (rank q < rank p)

-- All `n` processes have finished.
abbrev AllFinished : ℕ → System → Type 0
AllFinished n s = (j : ℕ) → j < n → is_finished (pc s j) ≡ true

-- None of `n` processes has called `exit(1)`.
abbrev pub AllAlive : ℕ → System → Type 0
AllAlive n s = (j : ℕ) → j < n → has_exited (pc s j) ≡ false

-- A step in which every call works; fewer are left then.
abbrev Advances : ℕ → System → Type 0
Advances n s = (t : System) × Step s t × AllAlive n t × (ranks t < ranks s)

holder-Moves : (v : ℕ) (f : Option ℕ) (p : Pc) → holds p ≡ true → has_exited p ≡ false → Moves v f p
holder-Moves v none locked h e = (v, none, scanned 1, scan_nothing 0 refl, refl, omega arith)
holder-Moves v (some c) locked h e = (v, some c, scanned (c + 1), scan refl, refl, omega arith)
holder-Moves v f (scanned c) h e = (v, none, truncated c, truncate, refl, omega arith)
holder-Moves v f (truncated c) h e = (v, some c, printed c, print, refl, omega arith)
holder-Moves v f (printed c) h e = (v + 1, f, finished c, unlock refl, refl, omega arith)
holder-Moves v f start h e = cc
holder-Moves v f (finished c) h e = cc
holder-Moves v f refused h e = cc
holder-Moves v f aborted h e = cc
holder-Moves v f (kept c) h e = cc

idle_start : (p : Pc) → holds p ≡ false → is_finished p ≡ false → has_exited p ≡ false → p ≡ start
idle_start start h e x = refl
idle_start (finished c) h e x = cc
idle_start refused h e x = cc
idle_start p h e x = cc

-- One process takes its step.
step-Advances :
    (n : ℕ) (s : System) (i : ℕ)
    → i < length s.procs
    → AllAlive n s
    → Moves s.sem s.file (pc s i)
    → Advances n s
step-Advances n s i inside alive (w, g, q, mv, sound, lower) = (
  record { sem = w; file = g; procs = set s.procs i q },
  step i inside mv,
  (λ j below. ground (arith, get_or-set s.procs i j q start inside, alive j below)),
  omega (arith, total_of-set rank s.procs i q start inside),
)

-- Of a process that is not yet through: it goes on, or the one that holds the semaphore does.
progress :
    (n : ℕ) (s : System) (i : ℕ)
    → Inv n s
    → i < n
    → is_finished (pc s i) ≡ false
    → AllAlive n s
    → Advances n s
progress n s i inv inside going alive = elim (Bool-cases (holds (pc s i))) [
  | inl busy ↦
      step-Advances n s i (omega (arith, inv.size)) alive (holder-Moves _ _ _ busy (alive i inside))
  | inr idle ↦ elim (dec_lt 0 s.sem) [
    | yes up ↦
        let here : pc s i ≡ start = idle_start _ idle going (alive i inside) in
        step-Advances n s i (omega (arith, inv.size)) alive
          (rw here (s.sem - 1, s.file, locked, lock (ground arith), refl, omega arith))
    | no down ↦
        let (j, below, busy) =
          count_if-witness holds s.procs start (omega (arith, inv.exclusive)) in
        step-Advances n s j below alive
          (holder-Moves _ _ _ busy (alive j (omega (arith, inv.size))))
  ]
]

Steps-cons : {s t u : System} → Step s t → Steps t u → Steps s u
Steps-cons st here = next here st
Steps-cons st (next rest last) = next (Steps-cons st rest) last

-- They come to an end, with at most `k` steps more.
abbrev Finishes : ℕ → System → Type 0
Finishes n s = (t : System) × Steps s t × Reach n t × AllFinished n t

done_or_more :
    (n : ℕ) (s : System) → Reach n s → AllAlive n s → (Advances n s → Finishes n s) → Finishes n s
done_or_more n s r alive more =
    let inv : Inv n s = Reach-Inv r in
    elim (dec_lt (count_if is_finished s.procs) (length s.procs)) [
      | yes few ↦
          let (i, below, going) = count_if-missing is_finished s.procs start few in
          more (progress n s i inv (omega (arith, inv.size)) going alive)
      | no all ↦ (
        s,
        here,
        r,
        λ j below.
            count_if-full is_finished s.procs j start
              (omega (arith, count_if-le is_finished s.procs)) (omega (arith, inv.size)),
      )
    ]

finishes : (n k : ℕ) (s : System) → Reach n s → AllAlive n s → ranks s ≤ k → Finishes n s
finishes n zero s r alive bound =
    done_or_more n s r alive (λ (t, st, sound, lower). absurd (omega (arith, lower, bound)))
finishes n (suc k) s r alive bound = done_or_more n s r alive (λ (t, st, sound, lower).
    let (u, rest, ru, all) = finishes n k t (next r st) sound (omega (arith, lower, bound)) in
    (u, Steps-cons st rest, ru, all))

-- The processes never wait for one another in a circle: in whatever state they are, while none has
-- called `exit(1)`, there are further steps by which all finish. The file holds their number then, and
-- the semaphore is free.
pub count1_finishes :
    (n : ℕ) (s : System)
    → Reach n s
    → ((j : ℕ) → j < n → has_exited (pc s j) ≡ false)
    → (t : System) × Steps s t
      × ((i : ℕ) → i < n → is_finished (pc t i) ≡ true)
      × (t.file ≡ some n)
      × (t.sem ≡ 1)
count1_finishes n s r alive =
    let (t, st, rt, all) = finishes n (ranks s) s r alive (omega arith) in
    let (file, sem) = count1_complete n t rt all in (t, st, all, file, sem)
