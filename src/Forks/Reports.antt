-- ===== src/Forks/Reports.antt =====
-- kadai3/fork.c: every child reports, and the parent reports each of them, behind it.
use excc.Common.{
  ℕ, ◌+◌, ◌≤◌, ◌<◌, ◌≡◌, refl, ◌∙◌, Bool, true, false, List, [], ◌∷◌, ◌++◌, set, get_or, length,
  arith, bit, count_if, count_if-set, count_if-append, count_if-full, get_or-set, length-set,
  length-replicate, get_or-replicate, count_if-replicate, ◌==◌, if◌then◌else◌,
}
use excc.Forks.{
  Child, unborn, asleep, printed, ended, reaped, Main, forking, reaping, finished, failed, Line,
  child_line, parent_line, perror, System, child, init, Step, fork, fork_fails, all_forked, print,
  exit, wait, all_reaped, Reach, here, next,
}

abbrev pub is_child_line : ℕ → Line → Bool
is_child_line i (child_line j) = j == i
is_child_line i _ = false

abbrev pub is_parent_line : ℕ → Line → Bool
is_parent_line i (parent_line j) = j == i
is_parent_line i _ = false

abbrev has_printed : Child → Bool
has_printed unborn = false
has_printed asleep = false
has_printed _ = true

abbrev is_reaped : Child → Bool
is_reaped reaped = true
is_reaped _ = false

abbrev children_reaped : System → ℕ
children_reaped s = count_if is_reaped s.children

-- How many the parent has waited for. Those that it has not forked yet are unborn.
abbrev Counts : System → Main → Type 0
Counts s (forking k) = (children_reaped s ≡ 0) × ((i : ℕ) → k ≤ i → child s i ≡ unborn)
Counts s (reaping k) = children_reaped s ≡ k
Counts s finished = children_reaped s ≡ length s.children
Counts s failed = Unit {0}

record Inv (n : ℕ) (s : System) : Type 0 where
  size : length s.children ≡ n
  told :
      (i : ℕ)
      → (count_if (is_child_line i) s.screen ≡ bit (has_printed (child s i)))
        × (count_if (is_parent_line i) s.screen ≡ bit (is_reaped (child s i)))
  counts : Counts s s.main

init-Inv : (n : ℕ) → Inv n (init n)
unfolding count_if
init-Inv n = record {
  size = length-replicate n unborn;
  told = λ i. rw (get_or-replicate n i unborn) (refl, refl);
  counts = (count_if-replicate is_reaped n unborn refl, λ i above. get_or-replicate n i unborn);
}

-- A child goes on, and a line may be printed about it.
module _ {n : ℕ} {s : System} (inv : Inv n s) (i : ℕ) (q : Child) (line : List Line)
    (inside : i < length s.children) where
  told-set :
      ((j : ℕ)
        → (count_if (is_child_line j) line + bit (has_printed (child s j))
            ≡ bit (has_printed (if i == j then q else child s j)))
          × (count_if (is_parent_line j) line + bit (is_reaped (child s j))
              ≡ bit (is_reaped (if i == j then q else child s j))))
      → (j : ℕ)
      → (count_if (is_child_line j) (s.screen ++ line)
          ≡ bit (has_printed (get_or (set s.children i q) j unborn)))
        × (count_if (is_parent_line j) (s.screen ++ line)
            ≡ bit (is_reaped (get_or (set s.children i q) j unborn)))
  told-set h j = rw (get_or-set s.children i j q unborn inside) (
    omega (arith, count_if-append (is_child_line j) s.screen line, (inv.told j).0, (h j).0),
    omega (arith, count_if-append (is_parent_line j) s.screen line, (inv.told j).1, (h j).1),
  )

  reaped-set :
      count_if is_reaped (set s.children i q) + bit (is_reaped (child s i))
      ≡ children_reaped s + bit (is_reaped q)
  reaped-set = count_if-set is_reaped s.children i q unborn inside

Counts-map :
    (s t : System) (m : Main)
    → length t.children ≡ length s.children
    → children_reaped t ≡ children_reaped s
    → ((i : ℕ) → child s i ≡ unborn → child t i ≡ unborn)
    → Counts s m
    → Counts t m
Counts-map s t (forking k) size same keeps h = (same ∙ h.0, λ i above. keeps i (h.1 i above))
Counts-map s t (reaping k) size same keeps h = same ∙ h
Counts-map s t finished size same keeps h = omega (arith, size, same, h)
Counts-map s t failed size same keeps h = tt

Step-Inv : {n : ℕ} {s t : System} → Inv n s → Step s t → Inv n t
unfolding count_if
Step-Inv {n} {s} inv (fork {k} e below) =
    let counts : Counts s (forking k) = rw e at inv.counts in
    let idle = counts.1 k (omega arith) in
    record {
      size = length-set s.children k asleep ∙ inv.size;
      told = λ j. ground (arith, idle, inv.told j, get_or-set s.children k j asleep unborn below);
      counts = (
        ground (arith, idle, counts.0, reaped-set inv k asleep [] below),
        λ j above. ground (arith, counts.1 j, get_or-set s.children k j asleep unborn below),
      );
    }
Step-Inv {n} {s} inv (fork_fails e below) = record {
  size = inv.size;
  told = λ j. (
    omega (arith, count_if-append (is_child_line j) s.screen (perror ∷ []), (inv.told j).0),
    omega (arith, count_if-append (is_parent_line j) s.screen (perror ∷ []), (inv.told j).1),
  );
  counts = tt;
}
Step-Inv {n} {s} inv (all_forked e done) =
    let counts : Counts s (forking _) = rw e at inv.counts in
    record { size = inv.size; told = inv.told; counts = counts.0 }
Step-Inv {n} {s} inv (print i inside e) = record {
  size = length-set s.children i printed ∙ inv.size;
  told = told-set inv i printed (child_line i ∷ []) inside (λ j. ground (arith, e));
  counts =
      Counts-map s
        (record s { children = set s.children i printed; screen = s.screen ++ child_line i ∷ [] })
        s.main (length-set s.children i printed)
        (ground (arith, e, reaped-set inv i printed [] inside))
        (λ j f. ground (arith, e, get_or-set s.children i j printed unborn inside)) inv.counts;
}
Step-Inv {n} {s} inv (exit i inside e) = record {
  size = length-set s.children i ended ∙ inv.size;
  told = λ j. ground (arith, e, inv.told j, get_or-set s.children i j ended unborn inside);
  counts =
      Counts-map s (record s { children = set s.children i ended }) s.main
        (length-set s.children i ended) (ground (arith, e, reaped-set inv i ended [] inside))
        (λ j f. ground (arith, e, get_or-set s.children i j ended unborn inside)) inv.counts;
}
Step-Inv {n} {s} inv (wait {k} i e below inside f) =
    let counts : Counts s (reaping k) = rw e at inv.counts in
    record {
      size = length-set s.children i reaped ∙ inv.size;
      told = told-set inv i reaped (parent_line i ∷ []) inside (λ j. ground (arith, f));
      counts = ground (arith, f, counts, reaped-set inv i reaped [] inside);
    }
Step-Inv {n} {s} inv (all_reaped {k} e done) =
    let counts : Counts s (reaping k) = rw e at inv.counts in
    record { size = inv.size; told = inv.told; counts = counts ∙ done }

Reach-Inv : {n : ℕ} {s : System} → Reach n s → Inv n s
Reach-Inv {n} here = init-Inv n
Reach-Inv (next r last) = Step-Inv (Reach-Inv r) last

reaped-printed : (c : Child) → is_reaped c ≡ true → has_printed c ≡ true
reaped-printed reaped e = refl
reaped-printed c e = cc

-- Whatever the order of the steps: the parent does not report a child before the child's own line, neither
-- line comes twice, and once the parent has ended without a failure, both have come for every child.
pub reports_each :
    (n : ℕ) (s : System) (i : ℕ)
    → Reach n s
    → (count_if (is_parent_line i) s.screen ≤ count_if (is_child_line i) s.screen)
      × (count_if (is_child_line i) s.screen ≤ 1)
      × (s.main ≡ finished → i < n → count_if (is_parent_line i) s.screen ≡ 1)
reports_each n s i r =
    let inv : Inv n s = Reach-Inv r in
    let (own, seen) = inv.told i in
    (
      ground (arith, own, seen, reaped-printed (child s i)),
      ground (arith, own),
      λ e below.
          let all : Counts s finished = rw e at inv.counts in
          ground (
            arith,
            seen,
            count_if-full is_reaped s.children i unborn all (omega (arith, inv.size)),
          ),
    )
