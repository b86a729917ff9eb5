-- ===== src/MergeSort/Mains.antt =====
-- kadai3/mergesort.c and kadai3/conc_merge_sort.c: `main`. `rand i` is what the call of `rand` for the
-- entry `i` returns. What the child of mergesort.c prints is left out.
use excc.Common.{
  ℕ, zero, suc, ◌+◌, ◌≡◌, refl, true, Bool, List, [], ◌∷◌, ◌++◌, map, arith, length, replicate,
}
use excc.Common.Text.{codes}
use excc.MergeSort.{Arrays, merge_sort, fork_merge_sort}
use excc.MergeSort.Programs.{Fits, Delivers, merge_sort-IsSortOf, fork_merge_sort-IsSortOf}
use excc.MergeSort.Reference.{insertion_sort, insertion_sort_unique}

abbrev pub num_items : ℕ
num_items = 10

-- What is printed: a text, a number and a line feed, or the time, from the clock ticks.
pub data Line : Type 0 where
  says : List ℕ → Line
  number : ℕ → Line
  time_taken : ℕ → Line

-- The loop that fills `numbers`, for the entries from `i` on.
pub fill : (rand : ℕ → ℕ) (i n : ℕ) → List ℕ
fill rand i zero = []
fill rand i (suc n) = rand i ∷ fill rand (i + 1) n

abbrev pub globals : (ℕ → ℕ) → Arrays
globals rand = record { numbers = fill rand 0 num_items; temp = replicate num_items 0; stray = 0 }

-- `main` of conc_merge_sort.c.
pub conc_main : (rand : ℕ → ℕ) (clocks : ℕ) → List Line
conc_main rand clocks =
    let s = globals rand in
    says (codes "Unsorted array:\n")
    ∷ (map number s.numbers
        ++ (says (codes "Done with sort.\n")
            ∷ time_taken clocks
            ∷ map number (merge_sort s num_items).numbers))

-- `main` of mergesort.c.
pub fork_main : (rand : ℕ → ℕ) (pipe : List ℕ → List ℕ) (forked : Bool) → List Line
fork_main rand pipe forked =
    let s = globals rand in
    says (codes "Unsorted array:\n")
    ∷ (map number s.numbers
        ++ (says (codes "Done with sort.\n")
            ∷ map number (fork_merge_sort pipe forked s num_items).numbers))

length-fill : (rand : ℕ → ℕ) (i n : ℕ) → length (fill rand i n) ≡ n
unfolding fill
length-fill rand i zero = refl
length-fill rand i (suc n) = omega (arith, length-fill rand (i + 1) n)

globals-Fits : (rand : ℕ → ℕ) → Fits num_items (globals rand)
globals-Fits rand = record {
  nonempty = omega arith;
  size = length-fill rand 0 10;
  size_temp = refl;
}

-- A report of a list and its sorted entries.
abbrev pub report : List ℕ → List Line → List Line
report numbers extra =
    says (codes "Unsorted array:\n")
    ∷ (map number numbers
        ++ (says (codes "Done with sort.\n") ∷ (extra ++ map number (insertion_sort numbers))))

-- Both programs print the random numbers, and then what insertion sort makes of them; conc_merge_sort.c
-- prints the time too. (For mergesort.c, the child is created, and the pipe delivers what it writes.)
pub programs_agree :
    (rand : ℕ → ℕ) (clocks : ℕ) (pipe : List ℕ → List ℕ)
    → Delivers pipe
    → (conc_main rand clocks ≡ report (fill rand 0 num_items) (time_taken clocks ∷ []))
      × (fork_main rand pipe true ≡ report (fill rand 0 num_items) [])
unfolding conc_main fork_main
programs_agree rand clocks pipe delivers =
    let s = globals rand in
    let (sorted, perm) = merge_sort-IsSortOf s num_items (globals-Fits rand) in
    let (sorted', perm') =
      fork_merge_sort-IsSortOf pipe delivers s num_items (globals-Fits rand) (omega arith)
        (omega arith) in
    (
      rw (insertion_sort_unique s.numbers (merge_sort s num_items).numbers sorted perm) refl,
      rw
          (insertion_sort_unique s.numbers (fork_merge_sort pipe true s num_items).numbers sorted'
            perm')
          refl,
    )
