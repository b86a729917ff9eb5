-- ===== src/MergeSort/Spec.antt =====
-- Merging two lists: the specification of `merge` in kadai3/mergesort.c.
use mathlib.Core.List.{Perm, append-nil, perm_middle}
use mathlib.Core.List.Perm
use excc.Common.{
  ℕ, ◌≤◌, ◌≡◌, inl, inr, true, false, List, [], ◌∷◌, ◌++◌, arith, Bool-cases, leb, length, ◌+◌,
}

unfoldable pub interleave : List ℕ → List ℕ → List ℕ
interleave [] ys = ys
interleave (x ∷ xs) [] = x ∷ xs
interleave (x ∷ xs) (y ∷ ys) = elim (leb x y) [
  | true ↦ x ∷ interleave xs (y ∷ ys)
  | false ↦ y ∷ interleave (x ∷ xs) ys
]

-- `x` is at most each entry.
abbrev pub IsLeast : ℕ → List ℕ → Type 0
IsLeast x [] = Unit {0}
IsLeast x (y ∷ ys) = (x ≤ y) × IsLeast x ys

abbrev pub IsSorted : List ℕ → Type 0
IsSorted [] = Unit {0}
IsSorted (x ∷ xs) = IsLeast x xs × IsSorted xs

IsLeast-trans : (x y : ℕ) (ys : List ℕ) → x ≤ y → IsLeast y ys → IsLeast x ys
IsLeast-trans x y [] h l = tt
IsLeast-trans x y (z ∷ ys) h l = (omega arith, IsLeast-trans x y ys h l.1)

IsLeast-interleave :
    (x : ℕ) (ys zs : List ℕ) → IsLeast x ys → IsLeast x zs → IsLeast x (interleave ys zs)
unfolding interleave
IsLeast-interleave x [] zs h k = k
IsLeast-interleave x (y ∷ ys) [] h k = h
IsLeast-interleave x (y ∷ ys) (z ∷ zs) h k =
    ground (arith, IsLeast-interleave x ys (z ∷ zs) h.1 k, IsLeast-interleave x (y ∷ ys) zs h k.1)

pub interleave-IsSorted : (xs ys : List ℕ) → IsSorted xs → IsSorted ys → IsSorted (interleave xs ys)
unfolding interleave
interleave-IsSorted [] ys h k = k
interleave-IsSorted (x ∷ xs) [] h k = h
interleave-IsSorted (x ∷ xs) (y ∷ ys) h k = elim (Bool-cases (leb x y)) [
  | inl le ↦
      let under = IsLeast-trans x y ys (ground arith) k.0 in
      rw (le, interleave)
        (
          IsLeast-interleave x xs (y ∷ ys) h.0 (ground arith, under),
          interleave-IsSorted xs (y ∷ ys) h.1 k,
        )
  | inr gt ↦
      let under = IsLeast-trans y x xs (ground arith) h.0 in
      rw (gt, interleave)
        (
          IsLeast-interleave y (x ∷ xs) ys (ground arith, under) k.0,
          interleave-IsSorted (x ∷ xs) ys h k.1,
        )
]

pub interleave-perm : (xs ys : List ℕ) → Perm (interleave xs ys) (xs ++ ys)
unfolding interleave
interleave-perm [] ys = Perm.rfl
interleave-perm (x ∷ xs) [] = rw (append-nil xs) Perm.rfl
interleave-perm (x ∷ xs) (y ∷ ys) = elim (Bool-cases (leb x y)) [
  | inl le ↦ rw (le, interleave) (Perm.cons x (interleave-perm xs (y ∷ ys)))
  | inr gt ↦
      rw (gt, interleave)
        (Perm.trans (Perm.cons y (interleave-perm (x ∷ xs) ys))
          (Perm.symm (perm_middle (x ∷ xs) ys)))
]

pub length-interleave : (xs ys : List ℕ) → length (interleave xs ys) ≡ length xs + length ys
unfolding interleave
length-interleave [] ys = omega arith
length-interleave (x ∷ xs) [] = omega arith
length-interleave (x ∷ xs) (y ∷ ys) =
    ground (arith, length-interleave xs (y ∷ ys), length-interleave (x ∷ xs) ys)
