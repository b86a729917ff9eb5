-- ===== src/MergeSort/Merge.antt =====
-- kadai3/mergesort.c: `merge` stores what merging the two parts of the array gives.
use excc.Common.{
  ℕ, zero, suc, ◌+◌, ◌≤◌, ◌≡◌, refl, ◌∙◌, List, [], ◌∷◌, arith, Bool-cases, inl, inr, leb, ◌&&◌,
  true, false, if◌then◌else◌,
}
use excc.MergeSort.{at, Cursor, take_left, take_mid, both_loop, left_loop, mid_loop}
use excc.MergeSort.Spec.{interleave}
use excc.MergeSort.Slices.{slice, write_at}

left_loop_lem :
    (fuel n : ℕ) (numbers : List ℕ) (left_end : ℕ) (c : Cursor)
    → n ≤ fuel
    → c.left + n ≡ suc left_end
    → left_loop fuel numbers left_end c ≡ record {
      temp = write_at c.temp c.tmp_pos (slice numbers c.left n);
      left = c.left + n;
      mid = c.mid;
      tmp_pos = c.tmp_pos + n;
    }
unfolding left_loop take_left slice write_at
left_loop_lem zero zero numbers left_end c h e = ground arith
left_loop_lem zero (suc n) numbers left_end c h e = absurd (omega arith)
left_loop_lem (suc fuel) zero numbers left_end c h e = ground arith
left_loop_lem (suc fuel) (suc n) numbers left_end c h e =
    let later =
      left_loop_lem fuel n numbers left_end (take_left numbers c) (omega arith) (omega arith) in
    ground (arith, later)

mid_loop_lem :
    (fuel n : ℕ) (numbers : List ℕ) (right : ℕ) (c : Cursor)
    → n ≤ fuel
    → c.mid + n ≡ suc right
    → (mid_loop fuel numbers right c).temp ≡ write_at c.temp c.tmp_pos (slice numbers c.mid n)
unfolding mid_loop take_mid slice write_at
mid_loop_lem zero zero numbers right c h e = ground arith
mid_loop_lem zero (suc n) numbers right c h e = absurd (omega arith)
mid_loop_lem (suc fuel) zero numbers right c h e = ground arith
mid_loop_lem (suc fuel) (suc n) numbers right c h e =
    let later =
      mid_loop_lem fuel n numbers right (take_mid numbers c) (omega arith) (omega arith) in
    ground (arith, later)

-- One part is used up: the first loop ends.
both_loop-stop :
    (fuel : ℕ) (numbers : List ℕ) (left_end right : ℕ) (c : Cursor)
    → leb c.left left_end && leb c.mid right ≡ false
    → both_loop fuel numbers left_end right c ≡ c
unfolding both_loop
both_loop-stop zero numbers left_end right c e = refl
both_loop-stop (suc fuel) numbers left_end right c e = rw e

interleave-nil : (xs : List ℕ) → interleave xs [] ≡ xs
unfolding interleave
interleave-nil [] = refl
interleave-nil (x ∷ xs) = refl

tail_loops :
    (fuel nl nr : ℕ) (numbers : List ℕ) (left_end right : ℕ) (c : Cursor)
    → nl ≤ fuel
    → nr ≤ fuel
    → c.left + nl ≡ suc left_end
    → c.mid + nr ≡ suc right
    → (mid_loop fuel numbers right (left_loop fuel numbers left_end c)).temp
      ≡ write_at
          (write_at c.temp c.tmp_pos (slice numbers c.left nl))
          (c.tmp_pos + nl)
          (slice numbers c.mid nr)
tail_loops fuel nl nr numbers left_end right c hl hr el er =
    rw (left_loop_lem fuel nl numbers left_end c hl el) (mid_loop_lem fuel nr numbers right _ hr er)

both_loop-step :
    (fuel : ℕ) (numbers : List ℕ) (left_end right : ℕ) (c : Cursor)
    → c.left ≤ left_end
    → c.mid ≤ right
    → both_loop (suc fuel) numbers left_end right c
      ≡ both_loop fuel numbers left_end right (
          if leb (at numbers c.left) (at numbers c.mid)
          then take_left numbers c
          else take_mid numbers c)
unfolding both_loop
both_loop-step fuel numbers left_end right c h k = ground arith

module _ (a : List ℕ) (l m nl nr : ℕ) where
  interleave_left :
      leb (at a l) (at a m) ≡ true
      → interleave (slice a l (suc nl)) (slice a m (suc nr))
        ≡ at a l ∷ interleave (slice a (l + 1) nl) (slice a m (suc nr))
  unfolding interleave slice
  interleave_left e = ground arith

  interleave_right :
      leb (at a l) (at a m) ≡ false
      → interleave (slice a l (suc nl)) (slice a m (suc nr))
        ≡ at a m ∷ interleave (slice a l (suc nl)) (slice a (m + 1) nr)
  unfolding interleave slice
  interleave_right e = ground arith

-- What the first three loops leave in `temp`, from `nl` entries on the left and `nr` on the right.
pub three_loops :
    (k fuel nl nr : ℕ) (numbers : List ℕ) (left_end right : ℕ) (c : Cursor)
    → nl + nr ≤ k
    → nl ≤ fuel
    → nr ≤ fuel
    → c.left + nl ≡ suc left_end
    → c.mid + nr ≡ suc right
    → (mid_loop fuel numbers right
        (left_loop fuel numbers left_end (both_loop k numbers left_end right c))).temp
      ≡ write_at c.temp c.tmp_pos (interleave (slice numbers c.left nl) (slice numbers c.mid nr))
unfolding take_left take_mid
three_loops k fuel zero nr numbers left_end right c h hl hr el er =
    rw (both_loop-stop k numbers left_end right c (ground arith)) (
      tail_loops fuel zero nr numbers left_end right c hl hr el er
      ∙ unfold slice write_at interleave in ground arith)
three_loops k fuel (suc nl) zero numbers left_end right c h hl hr el er =
    rw (both_loop-stop k numbers left_end right c (ground arith)) (
      tail_loops fuel (suc nl) zero numbers left_end right c hl hr el er
      ∙ unfold slice write_at interleave in refl)
three_loops zero fuel (suc nl) (suc nr) numbers left_end right c h hl hr el er =
    absurd (omega arith)
three_loops (suc k) fuel (suc nl) (suc nr) numbers left_end right c h hl hr el er =
    elim (Bool-cases (leb (at numbers c.left) (at numbers c.mid))) [
      | inl le ↦
          rw (both_loop-step k numbers left_end right c (omega arith) (omega arith), le)
            (three_loops k fuel nl (suc nr) numbers left_end right (take_left numbers c)
                (omega arith) (omega arith) hr (omega arith) er
              ∙ rw (interleave_left numbers c.left c.mid nl nr le)
                  (unfold write_at in ground arith))
      | inr gt ↦
          rw (both_loop-step k numbers left_end right c (omega arith) (omega arith), gt)
            (three_loops k fuel (suc nl) nr numbers left_end right (take_mid numbers c)
                (omega arith) hl (omega arith) el (omega arith)
              ∙ rw (interleave_right numbers c.left c.mid nl nr gt)
                  (unfold write_at in ground arith))
    ]
