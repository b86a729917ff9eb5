-- ===== src/MergeSort/Reference.antt =====
-- A reference for the programs of kadai3/mergesort.c and conc_merge_sort.c: insertion sort, and why a
-- list has only one ascending permutation.
use mathlib.Core.Path.{ap₂}
use mathlib.Core.List.{Perm, Mem, mem-cons_self, eq-or-mem_of_mem-cons, not-mem-nil}
use mathlib.Core.List.Perm
use mathlib.Core.Logic.{∥∥₁_elim}
use native.Mathlib.Bridge.{le_prop}
use excc.Common.{ℕ, ◌≤◌, ◌≡◌, inl, inr, List, [], ◌∷◌, arith}
use excc.MergeSort.Spec.{interleave, IsSorted, IsLeast, interleave-IsSorted, interleave-perm}

-- Each entry is merged into the sorted rest.
pub insertion_sort : List ℕ → List ℕ
insertion_sort [] = []
insertion_sort (x ∷ xs) = interleave (x ∷ []) (insertion_sort xs)

insertion_sort-IsSorted : (xs : List ℕ) → IsSorted (insertion_sort xs)
unfolding insertion_sort
insertion_sort-IsSorted [] = tt
insertion_sort-IsSorted (x ∷ xs) =
    interleave-IsSorted (x ∷ []) (insertion_sort xs) (tt, tt) (insertion_sort-IsSorted xs)

insertion_sort-perm : (xs : List ℕ) → Perm (insertion_sort xs) xs
unfolding insertion_sort
insertion_sort-perm [] = Perm.rfl
insertion_sort-perm (x ∷ xs) =
    Perm.trans (interleave-perm (x ∷ []) (insertion_sort xs)) (Perm.cons x (insertion_sort-perm xs))

IsLeast-mem : (x y : ℕ) (ys : List ℕ) → IsLeast x ys → Mem y ys → x ≤ y
IsLeast-mem x y [] h m = absurd (not-mem-nil m)
IsLeast-mem x y (z ∷ ys) h m =
    ∥∥₁_elim (eq-or-mem_of_mem-cons m) le_prop
      (λ o. elim o [ inl here ↦ omega arith | inr there ↦ IsLeast-mem x y ys h.1 there ])

heads_le : (x y : ℕ) (xs ys : List ℕ) → IsLeast x xs → Perm (y ∷ ys) (x ∷ xs) → x ≤ y
heads_le x y xs ys h p =
    IsLeast-mem x y (x ∷ xs) (omega arith, h) ((Perm.mem_iff p).0 mem-cons_self)

IsSorted-unique : (xs ys : List ℕ) → IsSorted xs → IsSorted ys → Perm xs ys → xs ≡ ys
IsSorted-unique [] ys s t p = Perm.nil-eq p
IsSorted-unique (x ∷ xs) [] s t p = Perm.eq-nil p
IsSorted-unique (x ∷ xs) (y ∷ ys) s t p =
    let above = heads_le x y xs ys s.0 (Perm.symm p) in
    let below = heads_le y x ys xs t.0 p in
    let heads : x ≡ y = omega arith in
    let tails = Perm.cons_inv (Perm.trans p (Perm.symm (Perm.cons' heads Perm.rfl))) in
    ap₂ ◌∷◌ heads (IsSorted-unique xs ys s.1 t.1 tails)

-- What sorts a list gives what insertion sort gives.
pub insertion_sort_unique : (xs ys : List ℕ) → IsSorted ys → Perm ys xs → ys ≡ insertion_sort xs
insertion_sort_unique xs ys s p =
    IsSorted-unique ys (insertion_sort xs) s (insertion_sort-IsSorted xs)
      (Perm.trans p (Perm.symm (insertion_sort-perm xs)))
