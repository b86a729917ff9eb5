-- ===== src/Barrier/Finishing.antt =====
-- kadai3/barrier_sync.c: all processes come to an end.
use excc.Common.{
  ℕ, zero, suc, ◌+◌, ◌-◌, ◌≤◌, ◌<◌, ◌≡◌, ◌≢◌, refl, ◌∙◌, true, false, set, length, arith, count_if,
  count_if-missing, count_if-full, count_if-le, ◌⊎◌, inl, inr, get_or-set, dec_lt, total_of,
  total_of-set,
}
use excc.Barrier.{
  Child, unborn, asleep, waiting, resumed, Main, forking, at_barrier, reaping, finished, exited,
  System, child, has_ended, arrive, resume, MainMove, barrier, pass, wait, remove, Step, child_step,
  main_step, fork, Steps, here, next, Reach,
}
use excc.Barrier.Invariant.{has_arrived, is_unborn, is_resumed, AllBorn, Forked, Inv, Reach-Inv}
use excc.Barrier.Synchrony.{has_failed, all_arrived}

asleep_child :
    (c : Child) → is_unborn c ≡ false → has_failed c ≡ false → has_arrived c ≡ false → c ≡ asleep
asleep_child asleep b f a = refl
asleep_child unborn b f a = cc
asleep_child c b f a = cc

waiting_child :
    (c : Child) → has_arrived c ≡ true → has_failed c ≡ false → has_ended c ≡ false → c ≡ waiting
waiting_child waiting a f e = refl
waiting_child resumed a f e = cc
waiting_child c a f e = cc

unborn_child : (c : Child) → is_unborn c ≡ true → c ≡ unborn
unborn_child unborn e = refl
unborn_child c e = cc

-- No call has failed in one of `n` children.
abbrev pub AllSound : ℕ → System → Type 0
AllSound n s = (j : ℕ) → j < n → has_failed (child s j) ≡ false

-- How many steps are left, if all calls work.
abbrev child_rank : Child → ℕ
child_rank unborn = 3
child_rank asleep = 2
child_rank waiting = 1
child_rank _ = 0

abbrev main_rank : ℕ → Main → ℕ
main_rank n (forking k) = n + 3
main_rank n at_barrier = n + 2
main_rank n (reaping k) = n - k + 1
main_rank n _ = 0

abbrev rank : ℕ → System → ℕ
rank n s = total_of child_rank s.children + main_rank n s.main

-- A step in which every call works; fewer are left then.
abbrev Advances : ℕ → System → Type 0
Advances n s = (t : System) × Step s t × AllSound n t × (t.main ≢ exited) × (rank n t < rank n s)

module _ {n : ℕ} {s : System} (inv : Inv n s) (sound : AllSound n s) (alive : s.main ≢ exited) where
  set-AllSound :
      (i v : ℕ) (q : Child) (m : Main)
      → i < length s.children
      → has_failed q ≡ false
      → AllSound n (record { sem = v; main = m; children = set s.children i q })
  set-AllSound i v q m inside e j below =
      ground (arith, get_or-set s.children i j q unborn inside, sound j below)

  set-total :
      (i : ℕ) (q : Child)
      → i < length s.children
      → total_of child_rank (set s.children i q) + child_rank (child s i)
        ≡ total_of child_rank s.children + child_rank q
  set-total i q inside = total_of-set child_rank s.children i q unborn inside

  -- While the semaphore is above 0 some child is to lower it.
  arrives : AllBorn s → 0 < s.sem → Advances n s
  arrives born up =
      let (j, below, late) =
        count_if-missing has_arrived s.children unborn (omega (arith, inv.counted, inv.size)) in
      let here : child s j ≡ asleep =
        asleep_child (child s j) (born j below) (sound j (omega (arith, inv.size))) late in
      (
        record s { sem = s.sem - 1; children = set s.children j waiting },
        child_step j below (rw here (arrive (ground arith))),
        set-AllSound j (s.sem - 1) waiting s.main below refl,
        alive,
        ground (arith, here, set-total j waiting below),
      )

  -- At 0, a child that has not ended can pass.
  resumes : s.sem ≡ 0 → count_if has_ended s.children < length s.children → Advances n s
  resumes down few =
      let (j, below, open_end) = count_if-missing has_ended s.children unborn few in
      let inside : j < n = omega (arith, inv.size) in
      let here : child s j ≡ waiting =
        waiting_child (child s j) (all_arrived inv down j inside) (sound j inside) open_end in
      (
        record s { sem = 0; children = set s.children j resumed },
        child_step j below (rw (here, down) (resume refl)),
        set-AllSound j 0 resumed s.main below refl,
        alive,
        ground (arith, here, set-total j resumed below),
      )

  -- A step of `main` alone.
  advances :
      (q : Main)
      → MainMove s.sem (length s.children) (count_if has_ended s.children) s.main q
      → q ≢ exited
      → main_rank n q < main_rank n s.main
      → Advances n s
  advances q mv goes lower =
      (record s { main = q }, main_step mv, sound, goes, omega (arith, lower))

  progress_at :
      (m : Main)
      → s.main ≡ m
      → Forked s m
      → (m ≡ finished → count_if has_ended s.children < length s.children)
      → Advances n s
  progress_at (forking k) e f busy = elim (dec_lt k (length s.children)) [
    | yes more ↦
        let idle : child s k ≡ unborn = unborn_child (child s k) (f.1 k ∙ ground arith) in
        (
          _,
          fork e more,
          set-AllSound k s.sem asleep (forking (k + 1)) more refl,
          (λ g. cc),
          rw e (ground (arith, idle, set-total k asleep more)),
        )
    | no done ↦
        advances at_barrier (rw e (barrier (omega (arith, f.0)))) (λ g. cc)
          (rw e (omega (arith, inv.size)))
  ]
  progress_at at_barrier e f busy = elim (dec_lt 0 s.sem) [
    | yes up ↦ arrives f up
    | no down ↦
        advances (reaping 0) (rw e (pass {w = s.sem} (ground arith))) (λ g. cc)
          (rw e (omega (arith, inv.size)))
  ]
  progress_at (reaping k) e f busy = elim (dec_lt k (length s.children)) [
    | no done ↦
        advances finished (rw e (remove (omega (arith, f.0)))) (λ g. cc)
          (rw e (omega (arith, inv.size)))
    | yes more ↦ elim (dec_lt k (count_if has_ended s.children)) [
      | yes ended ↦
          advances (reaping (k + 1)) (rw e (wait more ended)) (λ g. cc)
            (rw e (omega (arith, inv.size)))
      | no open_end ↦ resumes (inv.passed (rw e refl)) (omega arith)
    ]
  ]
  progress_at finished e f busy = resumes (inv.passed (rw e refl)) (busy refl)
  progress_at exited e f busy = absurd (alive e)

finished_cases : (m : Main) → (m ≡ finished) ⊎ (m ≢ finished)
finished_cases finished = inl refl
finished_cases (forking k) = inr (λ e. cc)
finished_cases at_barrier = inr (λ e. cc)
finished_cases (reaping k) = inr (λ e. cc)
finished_cases exited = inr (λ e. cc)

resumed_child : (c : Child) → has_ended c ≡ true → has_failed c ≡ false → is_resumed c ≡ true
resumed_child resumed e f = refl
resumed_child unborn e f = cc
resumed_child c e f = cc

Steps-cons : {s t u : System} → Step s t → Steps t u → Steps s u
Steps-cons st here = next here st
Steps-cons st (next rest last) = next (Steps-cons st rest) last

-- `main` has finished, and all children have passed the barrier.
abbrev Finishes : ℕ → System → Type 0
Finishes n s =
    (t : System) × Steps s t
    × (t.main ≡ finished)
    × ((j : ℕ) → j < n → is_resumed (child t j) ≡ true)

done_or_more :
    (n : ℕ) (s : System)
    → Reach n s
    → AllSound n s
    → s.main ≢ exited
    → (Advances n s → Finishes n s)
    → Finishes n s
done_or_more n s r sound alive more =
    let inv : Inv n s = Reach-Inv r in
    elim (dec_lt (count_if has_ended s.children) (length s.children)) [
      | yes few ↦ more (progress_at inv sound alive s.main refl inv.forked (λ e. few))
      | no all ↦ elim (finished_cases s.main) [
        | inr busy ↦
            more (progress_at inv sound alive s.main refl inv.forked (λ e. absurd (busy e)))
        | inl over ↦ (
          s,
          here,
          over,
          λ j below.
              resumed_child (child s j)
                (count_if-full has_ended s.children j unborn
                  (omega (arith, count_if-le has_ended s.children)) (omega (arith, inv.size)))
                (sound j below),
        )
      ]
    ]

-- `k` bounds the steps that are left.
finishes :
    (n k : ℕ) (s : System)
    → Reach n s
    → AllSound n s
    → s.main ≢ exited
    → rank n s ≤ k
    → Finishes n s
finishes n zero s r sound alive bound =
    done_or_more n s r sound alive
      (λ (t, st, sound', alive', lower). absurd (omega (arith, lower, bound)))
finishes n (suc k) s r sound alive bound =
    done_or_more n s r sound alive (λ (t, st, sound', alive', lower).
      let (u, rest, over, all) =
        finishes n k t (next r st) sound' alive' (omega (arith, lower, bound)) in
      (u, Steps-cons st rest, over, all))

-- The processes never wait for one another for good: in whatever state they are, as long as no call has
-- failed, there are further steps by which all children pass the barrier and `main` finishes.
pub barrier_finishes :
    (n : ℕ) (s : System)
    → Reach n s
    → ((j : ℕ) → j < n → has_failed (child s j) ≡ false)
    → s.main ≢ exited
    → (t : System) × Steps s t
      × (t.main ≡ finished)
      × ((j : ℕ) → j < n → is_resumed (child t j) ≡ true)
barrier_finishes n s r sound alive = finishes n (rank n s) s r sound alive (omega arith)
