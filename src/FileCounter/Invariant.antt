-- ===== src/FileCounter/Invariant.antt =====
-- kadai3/file-counter.c: who holds the semaphore, and what the file holds then.
use mathlib.Core.Option.{Option, some}
use excc.Common.{
  ℕ, ◌+◌, ◌≤◌, ◌<◌, ◌≡◌, ◌≢◌, ◌⊎◌, refl, inl, inr, true, false, get_or, set, length, arith, bit,
  Bool-cases, count_if, count_if-set, count_if_unique, count_if-pos, count_if-zero, get_or-set,
  length-set, ◌==◌, if◌then◌else◌, ℕ_discrete, dec_le,
}
use excc.FileCounter.{
  Pc, start, refused, System, pc, Move, lock, scan, scan_nothing, print, unlock, lock_fails, step,
  Reach, here, next,
}
use excc.FileCounter.Critical.{holds, added, result, total, Sees, Inv, init-Inv, Sees-idle}

-- Process `i` goes from `p` to `q`.
module _ {n : ℕ} {s : System} (inv : Inv n s) (i : ℕ) (inside : i < n) where
  -- The counts and the entries after the move.
  record Moved (p q : Pc) : Type 0 where
    here : pc s i ≡ p
    own : Sees s.file (total s) p
    old : (c : ℕ) → result p ≡ some c → (0 < c) × (c ≤ total s)
    same : (j c : ℕ) → j < n → result p ≡ some c → result (pc s j) ≡ some c → i ≡ j
    size : length (set s.procs i q) ≡ n
    holders :
        count_if holds (set s.procs i q) + bit (holds p) ≡ count_if holds s.procs + bit (holds q)
    adders : count_if added (set s.procs i q) + bit (added p) ≡ total s + bit (added q)
    entry : (j : ℕ) → get_or (set s.procs i q) j start ≡ (if i == j then q else pc s j)
    holder : holds p ≡ true → 0 < count_if holds s.procs
    alone : (holds p ≡ true) ⊎ (0 < s.sem) → (j : ℕ) → j < n → i ≢ j → holds (pc s j) ≡ false

  quiet : (holds (pc s i) ≡ true) ⊎ (0 < s.sem) → (j : ℕ) → j < n → i ≢ j → holds (pc s j) ≡ false
  quiet (inr up) j below other =
      count_if-zero holds s.procs j start (omega (arith, inv.exclusive)) (omega (arith, inv.size))
  quiet (inl h) j below other = elim (Bool-cases (holds (pc s j))) [
    | inr idle ↦ idle
    | inl busy ↦ absurd (
        other (
          count_if_unique holds s.procs i j start (omega (arith, inv.exclusive))
            (omega (arith, inv.size)) (omega (arith, inv.size)) h busy))
  ]

  moved : (q : Pc) → Moved (pc s i) q
  moved q = record {
    here = refl;
    own = inv.sees i inside;
    old = λ c. inv.range i c inside;
    same = λ j c below. inv.unique i j c inside below;
    size = omega (arith, length-set s.procs i q, inv.size);
    holders = count_if-set holds s.procs i q start (omega (arith, inv.size));
    adders = count_if-set added s.procs i q start (omega (arith, inv.size));
    entry = λ j. get_or-set s.procs i j q start (omega (arith, inv.size));
    holder = λ h. count_if-pos holds s.procs i start (omega (arith, inv.size)) h;
    alone = quiet;
  }

  Move-counts :
      {p q : Pc} {w : ℕ} {g : Option ℕ}
      → Move s.sem s.file p w g q
      → Moved p q
      → (w + count_if holds (set s.procs i q) ≡ 1)
        × (0 < w → g ≡ some (count_if added (set s.procs i q)))
  Move-counts (lock e) m = ground (arith, inv.exclusive, m.holders, m.adders)
  Move-counts lock_fails m = ground (arith, inv.exclusive, inv.free, m.holders, m.adders)
  Move-counts (unlock e) m = ground (arith, inv.exclusive, m.holders, m.adders, m.holder, m.own)
  Move-counts mv m = ground (arith, inv.exclusive, m.holders, m.adders, m.holder, m.own)

  -- A process that holds nothing sees nothing; while one moves in the critical section, all others
  -- are such.
  Move-Sees :
      {p q : Pc} {w : ℕ} {g : Option ℕ}
      → Move s.sem s.file p w g q
      → Moved p q
      → (j : ℕ) → j < n
      → Sees g (count_if added (set s.procs i q)) (get_or (set s.procs i q) j start)
  Move-Sees {p} {q} {w} {g} mv m j below = elim (ℕ_discrete i j) [
    | yes mine ↦ rw (at_own mine) (own mv m)
    | no other ↦ rw (at_other other) (others mv m other)
  ]
    where
      at_own : i ≡ j → get_or (set s.procs i q) j start ≡ q
      at_own e = ground (arith, m.entry j)

      at_other : i ≢ j → get_or (set s.procs i q) j start ≡ pc s j
      at_other e = ground (arith, m.entry j)

      own :
          {p q : Pc} {w : ℕ} {g : Option ℕ}
          → Move s.sem s.file p w g q
          → Moved p q
          → Sees g (count_if added (set s.procs i q)) q
      own (lock e) m = ground (arith, inv.free, m.adders)
      own (scan e) m = ground (arith, m.own, m.adders)
      own (scan_nothing d e) m = ground (arith, m.own, m.adders)
      own mv m = ground (arith, m.own, m.adders)

      others :
          {p q : Pc} {w : ℕ} {g : Option ℕ}
          → Move s.sem s.file p w g q
          → Moved p q
          → i ≢ j
          → Sees g (count_if added (set s.procs i q)) (pc s j)
      others (lock e) m other = Sees-idle _ _ _ (m.alone (inr (ground arith)) j below other)
      others lock_fails m other =
          let still : count_if added (set s.procs i refused) ≡ total s = omega (arith, m.adders) in
          rw still (inv.sees j below)
      others mv m other = Sees-idle _ _ _ (m.alone (inl refl) j below other)

  Move-range :
      {p q : Pc} {w : ℕ} {g : Option ℕ}
      → Move s.sem s.file p w g q
      → Moved p q
      → (j c : ℕ) → j < n
      → result (get_or (set s.procs i q) j start) ≡ some c
      → (0 < c) × (c ≤ count_if added (set s.procs i q))
  Move-range (lock e) m j c below r = ground (arith, m.entry j, m.adders, inv.range j c below)
  Move-range mv m j c below r =
      ground (arith, m.entry j, m.adders, inv.range j c below, m.own, m.old c)

  Move-unique :
      {p q : Pc} {w : ℕ} {g : Option ℕ}
      → Move s.sem s.file p w g q
      → Moved p q
      → (j k c : ℕ) → j < n
      → k < n
      → result (get_or (set s.procs i q) j start) ≡ some c
      → result (get_or (set s.procs i q) k start) ≡ some c
      → j ≡ k
  Move-unique (lock e) m j k c hj hk ej ek =
      ground (arith, m.entry j, m.entry k, inv.unique j k c hj hk)
  Move-unique mv m j k c hj hk ej ek = ground (
    arith,
    m.entry j,
    m.entry k,
    m.own,
    inv.unique j k c hj hk,
    m.same j c hj,
    m.same k c hk,
    inv.range j c hj,
    inv.range k c hk,
  )

  Move-covered :
      {p q : Pc} {w : ℕ} {g : Option ℕ}
      → Move s.sem s.file p w g q
      → Moved p q
      → (c : ℕ) → 0 < c
      → c ≤ count_if added (set s.procs i q)
      → (j : ℕ) × (j < n) × (result (get_or (set s.procs i q) j start) ≡ some c)
  Move-covered print m c h k = elim (dec_le c (total s)) [
    | yes past ↦
        let (j, below, r) = inv.covered c h past in (j, below, ground (arith, m.entry j, m.here))
    | no new ↦ (i, inside, ground (arith, m.entry i, m.own, m.adders))
  ]
  Move-covered mv m c h k =
      let (j, below, r) = inv.covered c h (omega (arith, m.adders)) in
      (j, below, ground (arith, m.entry j, m.here))

  Move-Inv :
      {q : Pc} {w : ℕ} {g : Option ℕ}
      → Move s.sem s.file (pc s i) w g q
      → Inv n (record { sem = w; file = g; procs = set s.procs i q })
  Move-Inv {q} mv =
      let m = moved q in
      record {
        size = m.size;
        exclusive = (Move-counts mv m).0;
        free = (Move-counts mv m).1;
        sees = Move-Sees mv m;
        range = Move-range mv m;
        unique = Move-unique mv m;
        covered = Move-covered mv m;
      }

-- Every state that the children can come to.
pub Reach-Inv : {n : ℕ} {s : System} → Reach n s → Inv n s
Reach-Inv {n} here = init-Inv n
Reach-Inv {n} (next {t = s} r (step i inside mv)) =
    let inv : Inv n s = Reach-Inv r in Move-Inv inv i (inside_size inv inside) mv
  where
    inside_size : Inv n s → i < length s.procs → i < n
    inside_size inv h = omega (arith, inv.size)
