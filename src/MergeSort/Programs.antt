-- ===== src/MergeSort/Programs.antt =====
-- kadai3/mergesort.c and kadai3/conc_merge_sort.c: the two functions `mergeSort`.
use mathlib.Core.List.{Perm}
use mathlib.Core.List.Perm
use Prim.Native.Nat.add
use excc.Common.{
  ℕ, ◌+◌, ◌-◌, ◌/◌, ◌≤◌, ◌<◌, ◌≡◌, sym, ap, ◌∙◌, List, ◌++◌, arith, length, ltb, subst, true, take,
  drop, if◌then◌else◌,
}
use excc.MergeSort.{Arrays, at, merge, m_sort, merge_sort, fork_merge_sort}
use excc.MergeSort.Spec.{interleave, IsSorted, interleave-IsSorted, interleave-perm}
use excc.MergeSort.Slices.{
  slice, slice-eq, slice-append, slice-all, get_or-take-drop, length-take-drop,
}
use excc.MergeSort.Copy.{Merged, merge-Merged}
use excc.MergeSort.Sort.{Sorts, m_sort-Sorts}

-- Two arrays of the given size, at least one entry long.
pub record Fits (array_size : ℕ) (s : Arrays) : Type 0 where
  pub nonempty : 0 < array_size
  pub size : length s.numbers ≡ array_size
  pub size_temp : length s.temp ≡ array_size

-- `numbers` ends in ascending order, and is a permutation of what it was.
abbrev pub IsSortOf : Arrays → Arrays → Type 0
IsSortOf s r = IsSorted r.numbers × Perm r.numbers s.numbers

merge_sort-Sorts :
    (s : Arrays) (array_size : ℕ)
    → Fits array_size s
    → Sorts 0 array_size s (merge_sort s array_size)
unfolding merge_sort
merge_sort-Sorts s array_size f =
    m_sort-Sorts s 0 array_size (array_size - 1) (omega (arith, f.nonempty)) (omega (arith, f.size))
      (omega (arith, f.size_temp))

whole : (a : List ℕ) (n : ℕ) → length a ≡ n → slice a 0 n ≡ a
whole a n e = rw (← e) (slice-all a)

-- `mergeSort` of conc_merge_sort.c sorts the whole array.
pub merge_sort-IsSortOf :
    (s : Arrays) (array_size : ℕ) → Fits array_size s → IsSortOf s (merge_sort s array_size)
merge_sort-IsSortOf s array_size f =
    let sorts = merge_sort-Sorts s array_size f in
    let after = whole (merge_sort s array_size).numbers array_size (sorts.size ∙ f.size) in
    let before = whole s.numbers array_size f.size in
    (rw after at sorts.sorted, rw (after, before) at sorts.perm)

-- The pipe gives back what is written to it in one piece: POSIX, for at most PIPE_BUF bytes.
abbrev pub Delivers : (List ℕ → List ℕ) → Type 0
Delivers pipe = (xs : List ℕ) → length xs ≤ 1024 → pipe xs ≡ xs

-- The parts that the child and the parent sort, and what the parent merges.
module _ (pipe : List ℕ → List ℕ) (delivers : Delivers pipe) (s : Arrays) (array_size : ℕ)
    (f : Fits array_size s) (many : 1 < array_size) (small : array_size ≤ 1024) where
  abbrev child_part : ℕ
  child_part = (array_size - 1) / 2 + 1

  abbrev parent_part : ℕ
  parent_part = array_size - child_part

  abbrev child : Arrays
  child = m_sort s 0 ((array_size - 1) / 2)

  abbrev parent : Arrays
  parent = m_sort s child_part (array_size - 1)

  abbrev joined : Arrays
  joined = record parent {
    numbers = take child_part child.numbers ++ drop child_part parent.numbers;
  }

  child-Sorts : Sorts 0 child_part s child
  child-Sorts =
      m_sort-Sorts s 0 child_part ((array_size - 1) / 2) (omega arith) (omega (arith, f.size))
        (omega (arith, f.size_temp))

  parent-Sorts : Sorts child_part parent_part s parent
  parent-Sorts =
      m_sort-Sorts s child_part parent_part (array_size - 1) (omega arith) (omega (arith, f.size))
        (omega (arith, f.size_temp))

  joined_at :
      (j : ℕ)
      → at joined.numbers j ≡ (if ltb j child_part then at child.numbers j else at parent.numbers j)
  joined_at j =
      get_or-take-drop child_part child.numbers parent.numbers j
        (omega (arith, f.size, child-Sorts.size)) (omega (arith, f.size, parent-Sorts.size))

  fork_merge_sort-joined :
      fork_merge_sort pipe true s array_size ≡ merge joined 0 child_part (array_size - 1)
  unfolding fork_merge_sort
  fork_merge_sort-joined =
      let sent = take child_part child.numbers in
      let sizes =
        length-take-drop child_part child.numbers parent.numbers
          (omega (arith, f.size, child-Sorts.size)) (omega (arith, f.size, parent-Sorts.size)) in
      rw (delivers sent (omega (arith, sizes.0)), sizes.0)

  last : Merged 0 child_part parent_part joined (merge joined 0 child_part (array_size - 1))
  last =
      let size =
        length-take-drop child_part child.numbers parent.numbers
          (omega (arith, f.size, child-Sorts.size)) (omega (arith, f.size, parent-Sorts.size)) in
      rw (add.zero child_part) at (
        merge-Merged joined 0 child_part parent_part (omega arith) (omega arith)
          (omega (arith, size.1, f.size, parent-Sorts.size))
          (omega (arith, f.size_temp, parent-Sorts.size_temp)) (array_size - 1) (omega arith))

  child_slice : slice joined.numbers 0 child_part ≡ slice child.numbers 0 child_part
  child_slice = slice-eq _ _ 0 child_part (λ j p q. ground (arith, joined_at j))

  parent_slice :
      slice joined.numbers child_part parent_part ≡ slice parent.numbers child_part parent_part
  parent_slice = slice-eq _ _ child_part parent_part (λ j p q. ground (arith, joined_at j))

  merged_slice :
      slice (merge joined 0 child_part (array_size - 1)).numbers 0 array_size
      ≡ interleave (slice child.numbers 0 child_part) (slice parent.numbers child_part parent_part)
  merged_slice =
      let total : array_size ≡ child_part + parent_part = omega arith in
      ap (slice (merge joined 0 child_part (array_size - 1)).numbers 0) total
      ∙ last.merged
      ∙ rw (add.zero child_part, child_slice, parent_slice)

  source_slice :
      slice s.numbers 0 child_part ++ slice s.numbers child_part parent_part
      ≡ slice s.numbers 0 array_size
  source_slice =
      let total : child_part + parent_part ≡ array_size = omega arith in
      (rw (add.zero child_part) at (slice-append s.numbers 0 child_part parent_part))
      ∙ ap (slice s.numbers 0) total

  -- `mergeSort` of mergesort.c sorts the whole array, in an array of two entries or more (and at most
  -- 1024), if the child is created and the pipe delivers what the child writes to it in one piece.
  pub fork_merge_sort-IsSortOf : IsSortOf s (fork_merge_sort pipe true s array_size)
  fork_merge_sort-IsSortOf =
      let size =
        length-take-drop child_part child.numbers parent.numbers
          (omega (arith, f.size, child-Sorts.size)) (omega (arith, f.size, parent-Sorts.size)) in
      let result = merge joined 0 child_part (array_size - 1) in
      let after =
        whole result.numbers array_size
          (omega (arith, last.size, size.1, parent-Sorts.size, f.size)) in
      let before = whole s.numbers array_size f.size in
      let lower = slice child.numbers 0 child_part in
      let upper = slice parent.numbers child_part parent_part in
      rw (fork_merge_sort-joined, sym after ∙ merged_slice)
        (
          interleave-IsSorted lower upper child-Sorts.sorted parent-Sorts.sorted,
          subst (Perm (interleave lower upper)) (source_slice ∙ before) (
              Perm.trans (interleave-perm lower upper)
                (Perm.append child-Sorts.perm parent-Sorts.perm)),
        )
