-- ===== src/Barrier/Invariant.antt =====
-- kadai3/barrier_sync.c: what the semaphore counts.
use excc.Common.{
  ℕ, ◌+◌, ◌≤◌, ◌<◌, ◌≡◌, refl, ◌∙◌, Bool, true, false, get_or, set, length, arith, bit, count_if,
  count_if-set, get_or-set, length-set, ◌==◌, ltb, if◌then◌else◌, count_if-replicate,
  get_or-replicate, length-replicate,
}
use excc.Barrier.{
  Child, unborn, asleep, waiting, resumed, failed_second, Main, forking, at_barrier, reaping,
  finished, exited, System, child, init, has_ended, Move, arrive, resume, arrive_fails,
  resume_fails, MainMove, barrier, fork_fails, pass, pass_fails, wait, remove, remove_fails,
  child_step, main_step, fork, here, next, Reach,
}

-- It has lowered the semaphore.
abbrev pub has_arrived : Child → Bool
has_arrived waiting = true
has_arrived resumed = true
has_arrived failed_second = true
has_arrived _ = false

abbrev pub is_resumed : Child → Bool
is_resumed resumed = true
is_resumed _ = false

abbrev pub is_unborn : Child → Bool
is_unborn unborn = true
is_unborn _ = false

abbrev pub arrived : System → ℕ
arrived s = count_if has_arrived s.children

-- `main` has passed the barrier.
abbrev pub has_passed : Main → Bool
has_passed (reaping k) = true
has_passed finished = true
has_passed _ = false

abbrev pub AllBorn : System → Type 0
AllBorn s = (i : ℕ) → i < length s.children → is_unborn (child s i) ≡ false

-- What `main` knows: the children below the next to be forked are born and the others are not; it has
-- not waited for more children than there are.
abbrev pub Forked : System → Main → Type 0
Forked s (forking k) =
    (k ≤ length s.children) × ((i : ℕ) → is_unborn (child s i) ≡ (if ltb i k then false else true))
Forked s at_barrier = AllBorn s
Forked s (reaping k) = (k ≤ length s.children) × AllBorn s
Forked s finished = AllBorn s
Forked s exited = Unit {0}

pub record Inv (n : ℕ) (s : System) : Type 0 where
  pub size : length s.children ≡ n
  pub counted : s.sem + arrived s ≡ n
  pub together : (i : ℕ) → is_resumed (child s i) ≡ true → s.sem ≡ 0
  pub passed : has_passed s.main ≡ true → s.sem ≡ 0
  pub forked : Forked s s.main

init-Inv : (n : ℕ) → Inv n (init n)
init-Inv n = record {
  size = length-replicate n unborn;
  counted = omega (arith, count_if-replicate has_arrived n unborn refl);
  together = λ i h. ground (arith, get_or-replicate n i unborn);
  passed = λ h. cc;
  forked = (omega arith, λ i. ground (arith, get_or-replicate n i unborn));
}

-- A child that moves is born, before and after.
move_born : {v w : ℕ} {p q : Child} → Move v p w q → (is_unborn p ≡ false) × (is_unborn q ≡ false)
move_born (arrive e) = (refl, refl)
move_born mv = (refl, refl)

-- The semaphore never rises, and a child resumes only at 0.
move_sem :
    {v w : ℕ} {p q : Child}
    → Move v p w q
    → (w ≤ v) × (is_resumed q ≡ true → w ≡ 0) × (w + bit (has_arrived q) ≡ v + bit (has_arrived p))
move_sem (arrive e) = (ground arith, (λ h. cc), ground arith)
move_sem (resume e) = (ground arith, (λ h. ground arith), ground arith)
move_sem arrive_fails = (omega arith, (λ h. cc), refl)
move_sem resume_fails = (omega arith, (λ h. cc), refl)

Forked-map :
    (s t : System) (m : Main)
    → length t.children ≡ length s.children
    → ((i : ℕ) → is_unborn (child t i) ≡ is_unborn (child s i))
    → Forked s m
    → Forked t m
Forked-map s t (forking k) e h f = (omega (arith, f.0), λ i. h i ∙ f.1 i)
Forked-map s t exited e h f = tt
Forked-map s t at_barrier e h f = λ i below. h i ∙ f i (omega arith)
Forked-map s t (reaping k) e h f = (omega (arith, f.0), λ i below. h i ∙ f.1 i (omega arith))
Forked-map s t finished e h f = λ i below. h i ∙ f i (omega arith)

-- A child's step.
module _ {n : ℕ} {s : System} (inv : Inv n s) (i : ℕ) (inside : i < n) where
  entry :
      (q : Child) (j : ℕ) → get_or (set s.children i q) j unborn ≡ (if i == j then q else child s j)
  entry q j = get_or-set s.children i j q unborn (omega (arith, inv.size))

  arrivals :
      (q : Child)
      → count_if has_arrived (set s.children i q) + bit (has_arrived (child s i))
        ≡ arrived s + bit (has_arrived q)
  arrivals q = count_if-set has_arrived s.children i q unborn (omega (arith, inv.size))

  Move-Inv :
      {w : ℕ} {q : Child}
      → Move s.sem (child s i) w q
      → Inv n (record s { sem = w; children = set s.children i q })
  Move-Inv {w} {q} mv =
      let (falls, zero_at, balance) = move_sem mv in
      let (born, born') = move_born mv in
      let t : System = record s { sem = w; children = set s.children i q } in
      record {
        size = omega (arith, length-set s.children i q, inv.size);
        counted = omega (arith, arrivals q, inv.counted, balance);
        together = λ j h. ground (arith, entry q j, inv.together j, zero_at, falls);
        passed = λ h. omega (arith, inv.passed h, falls);
        forked =
            Forked-map s t s.main (length-set s.children i q)
              (λ j. ground (arith, entry q j, born, born')) inv.forked;
      }

-- A step of `main` leaves the semaphore and the children as they are.
MainMove-Inv :
    {n : ℕ} {s : System} (inv : Inv n s) {p q : Main}
    → s.main ≡ p
    → Forked s p
    → MainMove s.sem (length s.children) (count_if has_ended s.children) p q
    → (has_passed q ≡ true → s.sem ≡ 0) × Forked s q
MainMove-Inv inv e f (barrier k) = ((λ h. cc), λ i below. f.1 i ∙ ground arith)
MainMove-Inv inv e f (fork_fails k) = ((λ h. cc), tt)
MainMove-Inv inv e f (pass p) = ((λ h. ground arith), (omega arith, f))
MainMove-Inv inv e f pass_fails = ((λ h. cc), tt)
MainMove-Inv inv e f (wait k h) = ((λ h. inv.passed (rw e refl)), (omega arith, f.1))
MainMove-Inv inv e f (remove k) = ((λ h. inv.passed (rw e refl)), f.1)
MainMove-Inv inv e f (remove_fails k) = ((λ h. cc), tt)

-- `main` forks the next child.
fork-Inv :
    {n : ℕ} {s : System} (inv : Inv n s) (k : ℕ)
    → s.main ≡ forking k
    → k < length s.children
    → Inv n (record s { main = forking (k + 1); children = set s.children k asleep })
fork-Inv {n} {s} inv k e inside =
    let inside' : k < n = omega (arith, inv.size) in
    let forked : Forked s (forking k) = rw e at inv.forked in
    record {
      size = omega (arith, length-set s.children k asleep, inv.size);
      counted = ground (arith, arrivals inv k inside' asleep, inv.counted, forked.1 k);
      together = λ j h. ground (arith, entry inv k inside' asleep j, inv.together j);
      passed = λ h. cc;
      forked = (
        omega (arith, length-set s.children k asleep),
        λ j. ground (arith, entry inv k inside' asleep j, forked.1 j),
      );
    }

pub Reach-Inv : {n : ℕ} {s : System} → Reach n s → Inv n s
Reach-Inv {n} here = init-Inv n
Reach-Inv {n} (next {t = s} r (child_step i inside mv)) =
    let inv : Inv n s = Reach-Inv r in Move-Inv inv i (inside_size inv inside) mv
  where
    inside_size : Inv n s → i < length s.children → i < n
    inside_size inv h = omega (arith, inv.size)
Reach-Inv {n} (next {t = s} r (main_step mv)) =
    let inv : Inv n s = Reach-Inv r in
    let (passed, forked) = MainMove-Inv inv refl inv.forked mv in
    record {
      size = inv.size;
      counted = inv.counted;
      together = inv.together;
      passed = passed;
      forked = forked;
    }
Reach-Inv {n} (next {t = s} r (fork e below)) = fork-Inv (Reach-Inv r) _ e below
