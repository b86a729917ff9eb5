-- ===== src/Barrier/Synchrony.antt =====
-- kadai3/barrier_sync.c: nobody passes the barrier before all have come, and then all do.
use excc.Common.{
  ℕ, ◌<◌, ◌≡◌, ◌≢◌, ◌⊎◌, inl, inr, Bool, true, false, arith, Bool-cases, count_if-full, get_or-set,
  ℕ_discrete,
}
use excc.Barrier.{
  Child, unborn, failed_first, failed_second, Main, forking, exited, System, child, Move, arrive,
  MainMove, barrier, child_step, main_step, fork, Steps, here, next, Reach,
}
use excc.Barrier.Invariant.{has_arrived, is_resumed, has_passed, Inv, Reach-Inv}

-- All children have lowered the semaphore.
abbrev pub AllArrived : ℕ → System → Type 0
AllArrived n s = (j : ℕ) → j < n → has_arrived (child s j) ≡ true

pub all_arrived : {n : ℕ} {s : System} → Inv n s → s.sem ≡ 0 → AllArrived n s
all_arrived {n} {s} inv zero_at j below =
    count_if-full has_arrived s.children j unborn (omega (arith, inv.counted, inv.size))
      (omega (arith, inv.size))

-- If one process, a child or `main`, has passed the barrier, then all children have come to it.
pub barrier_holds :
    (n : ℕ) (s : System)
    → Reach n s
    → ((i : ℕ) × (is_resumed (child s i) ≡ true)) ⊎ (has_passed s.main ≡ true)
    → AllArrived n s
barrier_holds n s r (inl (i, e)) =
    let inv : Inv n s = Reach-Inv r in all_arrived inv (inv.together i e)
barrier_holds n s r (inr e) = let inv : Inv n s = Reach-Inv r in all_arrived inv (inv.passed e)

-- A call of `semop` has failed in it.
abbrev pub has_failed : Child → Bool
has_failed failed_first = true
has_failed failed_second = true
has_failed _ = false

exited-stuck : {v n e : ℕ} {p q : Main} → MainMove v n e p q → p ≢ exited
exited-stuck (barrier k) e = cc
exited-stuck mv e = cc

unborn-stuck : {v w : ℕ} {p q : Child} → Move v p w q → p ≢ unborn
unborn-stuck (arrive a) e = cc
unborn-stuck mv e = cc

-- Once `main` has exited, no child is born.
stays_unborn :
    {n : ℕ} {s t : System} (k : ℕ)
    → Reach n s
    → s.main ≡ exited
    → child s k ≡ unborn
    → Steps s t
    → Reach n t × (t.main ≡ exited) × (child t k ≡ unborn)
stays_unborn k r gone missing here = (r, gone, missing)
stays_unborn k r gone missing (next {t = m} st (child_step i {q = q} inside mv)) =
    let (rm, out, lacks) = stays_unborn k r gone missing st in
    let other : child m i ≢ unborn = unborn-stuck mv in
    (
      next rm (child_step i inside mv),
      out,
      elim (ℕ_discrete i k) [
        | yes same ↦ absurd (other (rw same lacks))
        | no apart ↦ ground (arith, get_or-set m.children i k q unborn inside)
      ],
    )
stays_unborn k r gone missing (next {t = m} st (main_step mv)) =
    let (rm, out, lacks) = stays_unborn k r gone missing st in absurd (exited-stuck mv out)
stays_unborn k r gone missing (next {t = m} st (fork e below)) =
    let (rm, out, lacks) = stays_unborn k r gone missing st in absurd (exit_ne_fork out e)
  where
    exit_ne_fork : {j : ℕ} {p : Main} → p ≡ exited → p ≡ forking j → ⊥
    exit_ne_fork a b = cc

-- If `main` exits because it cannot fork the `k`-th child, the barrier never opens: whatever the
-- children do from then on, none passes it.
pub lost_fork_blocks :
    (n : ℕ) (s t : System) (k i : ℕ)
    → Reach n s
    → k < n
    → s.main ≡ exited
    → child s k ≡ unborn
    → Steps s t
    → is_resumed (child t i) ≡ false
lost_fork_blocks n s t k i r below gone missing st =
    let (rt, out, lacks) = stays_unborn k r gone missing st in
    let inv : Inv n t = Reach-Inv rt in
    elim (Bool-cases (is_resumed (child t i))) [
      | inl through ↦
          let come : has_arrived (child t k) ≡ true =
            all_arrived inv (inv.together i through) k below in
          ground arith
      | inr waits ↦ waits
    ]
