-- ===== src/MergeSort/Tests.antt =====
-- kadai3/mergesort.c and kadai3/conc_merge_sort.c at concrete arrays, and the theorems at some.
use excc.Common.{◌-◌, ◌≡◌, refl, true, false, [], ◌∷◌, arith}
use excc.MergeSort.{
  Arrays, merge, m_sort_depth, m_sort, merge_sort, fork_merge_sort, both_loop, left_loop, mid_loop,
  take_left, take_mid, copy_back,
}
use excc.MergeSort.Sort.{Sorts, m_sort-Sorts}
use excc.MergeSort.Mains.{num_items, time_taken, fill, conc_main, fork_main, report, programs_agree}
use excc.MergeSort.Programs.{Fits}

abbrev five : Arrays
five = record { numbers = 5 ∷ 2 ∷ 9 ∷ 2 ∷ 1 ∷ []; temp = 0 ∷ 0 ∷ 0 ∷ 0 ∷ 0 ∷ []; stray = 0 }

five-Fits : Fits 5 five
five-Fits = record { nonempty = omega arith; size = refl; size_temp = refl }

-- The merges that start at index 0 store outside: three of the four.
merge_sort-five :
    merge_sort five 5
    ≡ record { numbers = 1 ∷ 2 ∷ 2 ∷ 5 ∷ 9 ∷ []; temp = 1 ∷ 2 ∷ 2 ∷ 5 ∷ 9 ∷ []; stray = 3 }
unfolding merge_sort m_sort m_sort_depth merge both_loop left_loop mid_loop take_left take_mid
    copy_back
merge_sort-five = refl

-- If `fork` fails, the first part of the array is not sorted, and the 9 that ends it is lost.
fork_fails : (fork_merge_sort (λ xs. xs) false five 5).numbers ≡ 1 ∷ 2 ∷ 5 ∷ 2 ∷ 0 ∷ []
unfolding fork_merge_sort m_sort m_sort_depth merge both_loop left_loop mid_loop take_left take_mid
    copy_back
fork_fails = refl

m_sort-Sorts_example : Sorts 1 3 five (m_sort five 1 3)
m_sort-Sorts_example = m_sort-Sorts five 1 3 3 refl (omega arith) (omega arith)

-- `rand` counts down.
programs_agree_example :
    (conc_main (λ i. 10 - i) 7 ≡ report (fill (λ i. 10 - i) 0 num_items) (time_taken 7 ∷ []))
    × (fork_main (λ i. 10 - i) (λ xs. xs) true ≡ report (fill (λ i. 10 - i) 0 num_items) [])
programs_agree_example = programs_agree (λ i. 10 - i) 7 (λ xs. xs) (λ xs h. refl)
