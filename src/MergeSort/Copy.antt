-- ===== src/MergeSort/Copy.antt =====
-- kadai3/mergesort.c: the last loop of `merge`, and with it what `merge` does to the arrays.
use excc.Common.{
  ℕ, zero, suc, ◌+◌, ◌-◌, ◌≤◌, ◌<◌, ◌≡◌, refl, sym, ap, ◌∙◌, ◌⊎◌, inl, inr, List, arith, length,
  set, length-set, get_or-set,
}
use excc.MergeSort.{Arrays, at, copy_back, merge}
use excc.MergeSort.Spec.{interleave, length-interleave}
use excc.MergeSort.Slices.{
  slice, write_at, length-slice, slice-eq, length-write_at, get_or-write_at, slice-write_at,
}
use excc.MergeSort.Merge.{three_loops}

-- `rounds` entries below `end` are copied; a round past the start of the array is a stray store.
record Copied (rounds end : ℕ) (s r : Arrays) : Type 0 where
  temp : r.temp ≡ s.temp
  stray : r.stray ≡ s.stray + (rounds - end)
  size : length r.numbers ≡ length s.numbers
  inside : (j : ℕ) → j < end → end ≤ j + rounds → at r.numbers j ≡ at s.temp j
  outside : (j : ℕ) → (j + rounds < end) ⊎ (end ≤ j) → at r.numbers j ≡ at s.numbers j

copy_back_lem :
    (rounds end : ℕ) (s : Arrays)
    → end ≤ length s.numbers
    → Copied rounds end s (copy_back rounds end s)
unfolding copy_back
copy_back_lem zero end s h = record {
  temp = refl;
  stray = omega arith;
  size = refl;
  inside = λ j p q. absurd (omega arith);
  outside = λ j o. refl;
}
copy_back_lem (suc rounds) zero s h =
    let c = copy_back_lem rounds zero (record s { stray = s.stray + 1 }) h in
    record {
      temp = c.temp;
      stray = omega (arith, c.stray);
      size = c.size;
      inside = λ j p q. absurd (omega arith);
      outside = λ j o. c.outside j (inr (omega arith));
    }
copy_back_lem (suc rounds) (suc right) s h =
    let n = length-set s.numbers right (at s.temp right) in
    let store = λ (j : ℕ). get_or-set s.numbers right j (at s.temp right) 0 (omega arith) in
    let c =
      copy_back_lem rounds right (record s { numbers = set s.numbers right (at s.temp right) })
        (omega (arith, n)) in
    record {
      temp = c.temp;
      stray = omega (arith, c.stray);
      size = c.size ∙ n;
      inside = λ j p q. ground (arith, c.inside j, c.outside j, store j);
      outside = λ j o. ground (arith, c.outside j, store j, o);
    }

-- What `merge` does to two neighbouring parts of `nl` and `nr` entries, the first at `left`.
pub record Merged (left nl nr : ℕ) (s r : Arrays) : Type 0 where
  pub size : length r.numbers ≡ length s.numbers
  pub size_temp : length r.temp ≡ length s.temp
  pub merged :
      slice r.numbers left (nl + nr)
      ≡ interleave (slice s.numbers left nl) (slice s.numbers (left + nl) nr)
  pub agree : (j : ℕ) → left ≤ j → j < left + nl + nr → at r.temp j ≡ at r.numbers j
  pub same_temp : (j : ℕ) → (j < left) ⊎ (left + nl + nr ≤ j) → at r.temp j ≡ at s.temp j
  pub same : (j : ℕ) → (suc j < left) ⊎ (left + nl + nr ≤ j) → at r.numbers j ≡ at s.numbers j
  pub spill : (j : ℕ) → suc j ≡ left → at r.numbers j ≡ at s.temp j
  pub stray : r.stray ≡ s.stray + (1 - left)

module _ (s : Arrays) (left nl nr : ℕ) (some_left : 0 < nl) (some_right : 0 < nr)
    (fits : left + nl + nr ≤ length s.numbers) (fits_temp : left + nl + nr ≤ length s.temp) where
  merged_list : List ℕ
  merged_list = interleave (slice s.numbers left nl) (slice s.numbers (left + nl) nr)

  merged_temp : List ℕ
  merged_temp = write_at s.temp left merged_list

  length-merged_list : length merged_list ≡ nl + nr
  unfolding merged_list
  length-merged_list = omega (
    arith,
    length-interleave (slice s.numbers left nl) (slice s.numbers (left + nl) nr),
    length-slice s.numbers left nl,
    length-slice s.numbers (left + nl) nr,
  )

  -- `merge` is the last loop over that.
  merge-copy_back :
      (right : ℕ)
      → right + 1 ≡ left + nl + nr
      → merge s left (left + nl) right
        ≡ copy_back (nl + nr + 1) (left + nl + nr) (record s { temp = merged_temp })
  unfolding merge merged_temp merged_list
  merge-copy_back right e =
      let num : right + 1 - left ≡ nl + nr = omega arith in
      rw (num, e)
        (ap (λ t. copy_back (nl + nr + 1) (left + nl + nr) (record s { temp = t }))
          (three_loops (nl + nr) (nl + nr) nl nr s.numbers (left + nl - 1) right
            (record { temp = s.temp; left = left; mid = left + nl; tmp_pos = left }) (omega arith)
            (omega arith) (omega arith) (omega arith) (omega arith)))

  -- `temp` before the last loop.
  merged_temp-at : (j : ℕ) → (j < left) ⊎ (left + nl + nr ≤ j) → at merged_temp j ≡ at s.temp j
  unfolding merged_temp
  merged_temp-at j o = ground (
    arith,
    length-merged_list,
    get_or-write_at s.temp left merged_list j (omega (arith, length-merged_list)),
    o,
  )

  merged_temp-slice : slice merged_temp left (nl + nr) ≡ merged_list
  unfolding merged_temp
  merged_temp-slice =
      rw (← length-merged_list)
        (slice-write_at s.temp left merged_list (omega (arith, length-merged_list)))

  pub merge-Merged :
      (right : ℕ)
      → right + 1 ≡ left + nl + nr
      → Merged left nl nr s (merge s left (left + nl) right)
  merge-Merged right e = rw (merge-copy_back right e) (record {
    size = c.size;
    size_temp = ap length c.temp ∙ (unfold merged_temp in length-write_at s.temp left merged_list);
    merged =
        slice-eq _ merged_temp left (nl + nr) (λ j p q. c.inside j (omega arith) (omega arith))
        ∙ merged_temp-slice
        ∙ (unfold merged_list in refl);
    agree = λ j p q. rw c.temp (sym (c.inside j q (omega arith)));
    same_temp = λ j o. rw c.temp (merged_temp-at j o);
    same = λ j o. ground (arith, c.outside j, o);
    spill = λ j q. c.inside j (omega arith) (omega arith) ∙ merged_temp-at j (inl (omega arith));
    stray = omega (arith, c.stray);
  })
    where
      c :
          Copied
            (nl + nr + 1)
            (left + nl + nr)
            (record s { temp = merged_temp })
            (copy_back (nl + nr + 1) (left + nl + nr) (record s { temp = merged_temp }))
      c = copy_back_lem (nl + nr + 1) (left + nl + nr) (record s { temp = merged_temp }) fits
