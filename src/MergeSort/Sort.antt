-- ===== src/MergeSort/Sort.antt =====
-- kadai3/mergesort.c: `m_sort` sorts its part of the array, although each `merge` copies one entry
-- too many.
use mathlib.Core.List.{Perm}
use mathlib.Core.List.Perm
use excc.Common.{
  ℕ, zero, suc, ◌+◌, ◌-◌, ◌/◌, ◌≤◌, ◌<◌, ◌≡◌, refl, ◌∙◌, ◌⊎◌, inl, inr, List, arith, length, ltb,
  dec_lt, true, false,
}
use excc.MergeSort.{Arrays, at, merge, m_sort_depth, m_sort}
use excc.MergeSort.Spec.{IsSorted, interleave-IsSorted, interleave-perm}
use excc.MergeSort.Slices.{slice, slice-eq, slice-append}
use excc.MergeSort.Copy.{Merged, merge-Merged}

-- From `s` to `r` the `n` entries from `left` on are sorted. Elsewhere only the entry before them may
-- change, to what `temp` holds for it.
pub record Sorts (left n : ℕ) (s r : Arrays) : Type 0 where
  pub size : length r.numbers ≡ length s.numbers
  pub size_temp : length r.temp ≡ length s.temp
  pub sorted : IsSorted (slice r.numbers left n)
  pub perm : Perm (slice r.numbers left n) (slice s.numbers left n)
  pub agree : 1 < n → (j : ℕ) → left ≤ j → j < left + n → at r.temp j ≡ at r.numbers j
  pub same_temp : (j : ℕ) → (j < left) ⊎ (left + n ≤ j) → at r.temp j ≡ at s.temp j
  pub same : (j : ℕ) → (suc j < left) ⊎ (left + n ≤ j) → at r.numbers j ≡ at s.numbers j
  pub spill :
      (j : ℕ)
      → suc j ≡ left
      → (at r.numbers j ≡ at s.numbers j) ⊎ ((1 < n) × (at r.numbers j ≡ at s.temp j))
  pub stray_mono : s.stray ≤ r.stray
  pub stray : 1 < n → left ≡ 0 → s.stray < r.stray

-- Nothing to do.
slice-short-IsSorted : (a : List ℕ) (left n : ℕ) → n ≤ 1 → IsSorted (slice a left n)
unfolding slice
slice-short-IsSorted a left zero h = tt
slice-short-IsSorted a left (suc zero) h = (tt, tt)
slice-short-IsSorted a left (suc (suc n)) h = absurd (omega arith)

Sorts-short : (left n : ℕ) (s : Arrays) → n ≤ 1 → Sorts left n s s
Sorts-short left n s h = record {
  size = refl;
  size_temp = refl;
  sorted = slice-short-IsSorted s.numbers left n h;
  perm = Perm.rfl;
  agree = λ g j p q. absurd (omega arith);
  same_temp = λ j o. refl;
  same = λ j o. refl;
  spill = λ j q. inl refl;
  stray_mono = omega arith;
  stray = λ g z. absurd (omega arith);
}

-- The two halves and the merge, put together.
module _ (left nl nr : ℕ) (s a b r : Arrays) (some_left : 0 < nl) (some_right : 0 < nr)
    (wide : nr ≤ nl) (first : Sorts left nl s a) (second : Sorts (left + nl) nr a b)
    (last : Merged left nl nr b r) where
  -- The second half leaves the first alone: the entry that it may spill is the same in `temp`.
  first_kept : (j : ℕ) → left ≤ j → j < left + nl → at b.numbers j ≡ at a.numbers j
  first_kept j p q = elim (dec_lt (suc j) (left + nl)) [
    | yes inner ↦ second.same j (inl inner)
    | no edge ↦ elim (second.spill j (omega arith)) [
      | inl e ↦ e
      | inr (many, e) ↦ e ∙ first.agree (omega arith) j p q
    ]
  ]

  first_slice : slice b.numbers left nl ≡ slice a.numbers left nl
  first_slice = slice-eq b.numbers a.numbers left nl first_kept

  second_slice : slice a.numbers (left + nl) nr ≡ slice s.numbers (left + nl) nr
  second_slice = slice-eq a.numbers s.numbers (left + nl) nr (λ j p q. first.same j (inr p))

  merged-IsSorted : IsSorted (slice r.numbers left (nl + nr))
  merged-IsSorted =
      rw (last.merged, first_slice)
        (interleave-IsSorted (slice a.numbers left nl) (slice b.numbers (left + nl) nr) first.sorted
          second.sorted)

  merged_perm : Perm (slice r.numbers left (nl + nr)) (slice s.numbers left (nl + nr))
  merged_perm =
      rw (last.merged, ← slice-append s.numbers left nl nr, first_slice)
        (Perm.trans (interleave-perm (slice a.numbers left nl) (slice b.numbers (left + nl) nr))
          (Perm.append first.perm (rw second_slice at second.perm)))

  temp_kept : (j : ℕ) → (j < left) ⊎ (left + (nl + nr) ≤ j) → at r.temp j ≡ at s.temp j
  temp_kept j (inl o) =
      last.same_temp j (inl o) ∙ second.same_temp j (inl (omega arith)) ∙ first.same_temp j (inl o)
  temp_kept j (inr o) =
      last.same_temp j (inr (omega arith))
      ∙ second.same_temp j (inr (omega arith))
      ∙ first.same_temp j (inr (omega arith))

  numbers_kept : (j : ℕ) → (suc j < left) ⊎ (left + (nl + nr) ≤ j) → at r.numbers j ≡ at s.numbers j
  numbers_kept j (inl o) =
      last.same j (inl o) ∙ second.same j (inl (omega arith)) ∙ first.same j (inl o)
  numbers_kept j (inr o) =
      last.same j (inr (omega arith))
      ∙ second.same j (inr (omega arith))
      ∙ first.same j (inr (omega arith))

  halves-Sorts : Sorts left (nl + nr) s r
  halves-Sorts = record {
    size = last.size ∙ second.size ∙ first.size;
    size_temp = last.size_temp ∙ second.size_temp ∙ first.size_temp;
    sorted = merged-IsSorted;
    perm = merged_perm;
    agree = λ g j p q. last.agree j p (omega arith);
    same_temp = temp_kept;
    same = numbers_kept;
    spill = λ j q. inr (
      omega arith,
      last.spill j q
          ∙ second.same_temp j (inl (omega arith))
          ∙ first.same_temp j (inl (omega arith)),
    );
    stray_mono = omega (arith, last.stray, second.stray_mono, first.stray_mono);
    stray = λ g z. omega (arith, last.stray, second.stray_mono, first.stray_mono);
  }

m_sort_depth-Sorts :
    (depth left n right : ℕ) (s : Arrays)
    → n ≤ depth
    → right + 1 ≡ left + n
    → left + n ≤ length s.numbers
    → left + n ≤ length s.temp
    → Sorts left n s (m_sort_depth depth s left right)
unfolding m_sort_depth
m_sort_depth-Sorts zero left n right s h e fits fits_temp = Sorts-short left n s (omega arith)
m_sort_depth-Sorts (suc depth) left n right s h e fits fits_temp = elim (dec_lt left right) [
  | no short ↦
      let stop : ltb left right ≡ false = ground arith in
      rw stop (Sorts-short left n s (omega arith))
  | yes long ↦
      let go_on : ltb left right ≡ true = ground arith in
      let mid = (right + left) / 2 in
      let nl = mid + 1 - left in
      let nr = right - mid in
      let next : mid + 1 ≡ left + nl = omega arith in
      let total : n ≡ nl + nr = omega arith in
      let a = m_sort_depth depth s left mid in
      let first =
        m_sort_depth-Sorts depth left nl mid s (omega arith) next (omega arith) (omega arith) in
      let b = m_sort_depth depth a (left + nl) right in
      let second =
        m_sort_depth-Sorts depth (left + nl) nr right a (omega arith) (omega arith)
          (omega (arith, first.size)) (omega (arith, first.size_temp)) in
      let last =
        merge-Merged b left nl nr (omega arith) (omega arith)
          (omega (arith, second.size, first.size))
          (omega (arith, second.size_temp, first.size_temp)) right (omega arith) in
      rw (go_on, next, total)
        (halves-Sorts left nl nr s a b (merge b left (left + nl) right) (omega arith) (omega arith)
          (omega arith) first second last)
]

-- Called on `n` entries from `left` on, within both arrays, `m_sort` sorts them: they end in
-- ascending order and are a permutation of what they were. No other entry of `numbers` changes but
-- the one before `left`, which may take the value that `temp` held for it.
pub m_sort-Sorts :
    (s : Arrays) (left n right : ℕ)
    → right + 1 ≡ left + n
    → left + n ≤ length s.numbers
    → left + n ≤ length s.temp
    → Sorts left n s (m_sort s left right)
unfolding m_sort
m_sort-Sorts s left n right e fits fits_temp =
    m_sort_depth-Sorts (right + 1 - left) left n right s (omega arith) e fits fits_temp
