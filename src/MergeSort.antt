-- ===== src/MergeSort.antt =====
-- kadai3/mergesort.c and kadai3/conc_merge_sort.c: merge sort over two global arrays. The functions
-- `merge` and `m_sort` are the same in both files; `mergeSort` differs.
-- An array is a list, and an index that the C code keeps within it a natural number. The last loop of
-- `merge` also stores to the index before `left`; where that is -1 the store falls outside both
-- arrays, and the model counts it in `stray`. Sums of two indices stay far below 2^31.
pub mod Spec
pub mod Slices
pub mod Merge
pub mod Copy
pub mod Sort
pub mod Programs
pub mod Reference
pub mod Mains
mod Tests
use excc.Common.{
  ℕ, zero, suc, ◌+◌, ◌-◌, ◌/◌, Bool, ◌&&◌, List, [], ◌∷◌, ◌++◌, leb, ltb, if◌then◌else◌, length,
  get_or, set, take, drop,
}

pub record Arrays : Type 0 where
  pub numbers : List ℕ
  pub temp : List ℕ
  pub stray : ℕ

-- a[i]
abbrev pub at : List ℕ → ℕ → ℕ
at a i = get_or a i 0

-- The variables that the first three loops of `merge` change.
pub record Cursor : Type 0 where
  pub temp : List ℕ
  pub left : ℕ
  pub mid : ℕ
  pub tmp_pos : ℕ

pub take_left : List ℕ → Cursor → Cursor
take_left numbers c = record {
  temp = set c.temp c.tmp_pos (at numbers c.left);
  left = c.left + 1;
  mid = c.mid;
  tmp_pos = c.tmp_pos + 1;
}

pub take_mid : List ℕ → Cursor → Cursor
take_mid numbers c = record {
  temp = set c.temp c.tmp_pos (at numbers c.mid);
  left = c.left;
  mid = c.mid + 1;
  tmp_pos = c.tmp_pos + 1;
}

-- while ((left <= left_end) && (mid <= right))
pub both_loop : ℕ → List ℕ → ℕ → ℕ → Cursor → Cursor
both_loop zero numbers left_end right c = c
both_loop (suc fuel) numbers left_end right c =
    let next = both_loop fuel numbers left_end right (
      if leb (at numbers c.left) (at numbers c.mid)
      then take_left numbers c
      else take_mid numbers c) in
    if leb c.left left_end && leb c.mid right then next else c

-- while (left <= left_end)
pub left_loop : ℕ → List ℕ → ℕ → Cursor → Cursor
left_loop zero numbers left_end c = c
left_loop (suc fuel) numbers left_end c =
    let next = left_loop fuel numbers left_end (take_left numbers c) in
    if leb c.left left_end then next else c

-- while (mid <= right)
pub mid_loop : ℕ → List ℕ → ℕ → Cursor → Cursor
mid_loop zero numbers right c = c
mid_loop (suc fuel) numbers right c =
    let next = mid_loop fuel numbers right (take_mid numbers c) in
    if leb c.mid right then next else c

-- The last loop, with its rounds left and the value of `right + 1`.
pub copy_back : ℕ → ℕ → Arrays → Arrays
copy_back zero end s = s
copy_back (suc rounds) zero s = copy_back rounds zero (record s { stray = s.stray + 1 })
copy_back (suc rounds) (suc right) s =
    copy_back rounds right (record s { numbers = set s.numbers right (at s.temp right) })

pub merge : Arrays → ℕ → ℕ → ℕ → Arrays
merge s left mid right =
    let left_end = mid - 1 in
    let num_elements = right + 1 - left in
    let start : Cursor = record { temp = s.temp; left = left; mid = mid; tmp_pos = left } in
    let merged = both_loop num_elements s.numbers left_end right start in
    let lefts = left_loop num_elements s.numbers left_end merged in
    let mids = mid_loop num_elements s.numbers right lefts in
    copy_back (num_elements + 1) (right + 1) (record s { temp = mids.temp })

-- The recursion of `m_sort`, on its depth.
pub m_sort_depth : ℕ → Arrays → ℕ → ℕ → Arrays
m_sort_depth zero s left right = s
m_sort_depth (suc depth) s left right =
    let mid = (right + left) / 2 in
    let halves = m_sort_depth depth (m_sort_depth depth s left mid) (mid + 1) right in
    let sorted = merge halves left (mid + 1) right in if ltb left right then sorted else s

-- Each call below halves the range, so its length is depth enough.
pub m_sort : Arrays → ℕ → ℕ → Arrays
m_sort s left right = m_sort_depth (right + 1 - left) s left right

-- `mergeSort` of conc_merge_sort.c, whose loop over NUM_PROCS = 0 processes does nothing.
pub merge_sort : Arrays → ℕ → Arrays
merge_sort s array_size = m_sort s 0 (array_size - 1)

-- `mergeSort` of mergesort.c. The child sorts the first part of its own copy of the arrays and writes
-- it to the pipe; `pipe` is what `read` then returns. Without a child it returns no bytes.
pub fork_merge_sort : (pipe : List ℕ → List ℕ) (forked : Bool) → Arrays → ℕ → Arrays
fork_merge_sort pipe forked s array_size =
    let mid = (array_size - 1) / 2 in
    let child = m_sort s 0 mid in
    let parent = m_sort s (mid + 1) (array_size - 1) in
    let received = if forked then pipe (take (mid + 1) child.numbers) else [] in
    let joined = record parent { numbers = received ++ drop (length received) parent.numbers } in
    merge joined 0 (mid + 1) (array_size - 1)
