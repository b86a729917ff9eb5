-- ===== src/Common/Lists.antt =====
-- Lists measured and indexed by native numbers: the arrays of the programs.
use Prim.Native.Nat.{ℕ, zero, suc, ◌+◌, ◌≤◌, ◌<◌}
use mathlib.Core.Path.{◌≡◌, refl, ap}
use mathlib.Core.Logic.{inl, inr}
use mathlib.Core.Bool.{Bool, true, false}
use mathlib.Core.List.{List, [], ◌∷◌, ◌++◌}
use native.Mathlib.Omega.{arith}
use native.Mathlib.Decide.{dec_lt}
use excc.Common.Tests.{◌==◌, if◌then◌else◌, bit, Bool-cases}

module _ {ℓ} {A : Type ℓ} where
  abbrev pub length : List A → ℕ
  length [] = 0
  length (x ∷ xs) = suc (length xs)

  -- A read out of bounds gives the default.
  abbrev pub get_or : List A → ℕ → A → A
  get_or [] i d = d
  get_or (x ∷ xs) zero d = x
  get_or (x ∷ xs) (suc i) d = get_or xs i d

  -- A write out of bounds changes nothing.
  abbrev pub set : List A → ℕ → A → List A
  set [] i v = []
  set (x ∷ xs) zero v = v ∷ xs
  set (x ∷ xs) (suc i) v = x ∷ set xs i v

  abbrev pub take : ℕ → List A → List A
  take zero xs = []
  take (suc n) [] = []
  take (suc n) (x ∷ xs) = x ∷ take n xs

  abbrev pub drop : ℕ → List A → List A
  drop zero xs = xs
  drop (suc n) [] = []
  drop (suc n) (x ∷ xs) = drop n xs

  abbrev pub replicate : ℕ → A → List A
  replicate zero a = []
  replicate (suc n) a = a ∷ replicate n a

  -- How many entries pass a test.
  unfoldable pub count_if : (A → Bool) → List A → ℕ
  count_if p [] = 0
  count_if p (x ∷ xs) = bit (p x) + count_if p xs

  -- The weights of the entries, added up.
  unfoldable pub total_of : (A → ℕ) → List A → ℕ
  total_of f [] = 0
  total_of f (x ∷ xs) = f x + total_of f xs

module _ {ℓ} {A : Type ℓ} where
  pub length-append : (xs ys : List A) → length (xs ++ ys) ≡ length xs + length ys
  length-append [] ys = omega arith
  length-append (x ∷ xs) ys = omega (arith, length-append xs ys)

  pub length-set : (xs : List A) (i : ℕ) (v : A) → length (set xs i v) ≡ length xs
  length-set [] i v = refl
  length-set (x ∷ xs) zero v = refl
  length-set (x ∷ xs) (suc i) v = ap suc (length-set xs i v)

  pub length-take-le : (n : ℕ) (xs : List A) → length (take n xs) ≤ n
  length-take-le zero xs = omega arith
  length-take-le (suc n) [] = omega arith
  length-take-le (suc n) (x ∷ xs) = omega (arith, length-take-le n xs)

  -- Taking at least the length takes all.
  pub take-all : (n : ℕ) (xs : List A) → length xs ≤ n → take n xs ≡ xs
  take-all zero [] h = refl
  take-all zero (x ∷ xs) h = elim h [ ]
  take-all (suc n) [] h = refl
  take-all (suc n) (x ∷ xs) h = ap (◌∷◌ x) (take-all n xs (omega arith))

  pub get_or-set :
      (xs : List A) (i j : ℕ) (v d : A)
      → i < length xs
      → get_or (set xs i v) j d ≡ (if i == j then v else get_or xs j d)
  get_or-set [] i j v d h = elim h [ ]
  get_or-set (x ∷ xs) zero zero v d h = refl
  get_or-set (x ∷ xs) zero (suc j) v d h = ground arith
  get_or-set (x ∷ xs) (suc i) zero v d h = ground arith
  get_or-set (x ∷ xs) (suc i) (suc j) v d h = ground (arith, get_or-set xs i j v d)

  -- Replacing one entry trades its weight for the new one's.
  pub count_if-set :
      (p : A → Bool) (xs : List A) (i : ℕ) (v d : A)
      → i < length xs
      → count_if p (set xs i v) + bit (p (get_or xs i d)) ≡ count_if p xs + bit (p v)
  unfolding count_if
  count_if-set p [] i v d h = elim h [ ]
  count_if-set p (x ∷ xs) zero v d h = omega arith
  count_if-set p (x ∷ xs) (suc i) v d h = omega (arith, count_if-set p xs i v d (omega arith))

  pub total_of-set :
      (f : A → ℕ) (xs : List A) (i : ℕ) (v d : A)
      → i < length xs
      → total_of f (set xs i v) + f (get_or xs i d) ≡ total_of f xs + f v
  unfolding total_of
  total_of-set f [] i v d h = elim h [ ]
  total_of-set f (x ∷ xs) zero v d h = omega arith
  total_of-set f (x ∷ xs) (suc i) v d h = omega (arith, total_of-set f xs i v d (omega arith))

  pub count_if-le : (p : A → Bool) (xs : List A) → count_if p xs ≤ length xs
  unfolding count_if
  count_if-le p [] = omega arith
  count_if-le p (x ∷ xs) = ground (arith, count_if-le p xs)

  -- An entry that passes is counted.
  pub count_if-pos :
      (p : A → Bool) (xs : List A) (i : ℕ) (d : A)
      → i < length xs
      → p (get_or xs i d) ≡ true
      → 0 < count_if p xs
  unfolding count_if
  count_if-pos p [] i d h e = elim h [ ]
  count_if-pos p (x ∷ xs) zero d h e = ground arith
  count_if-pos p (x ∷ xs) (suc i) d h e = omega (arith, count_if-pos p xs i d (omega arith) e)

  -- Two entries that pass weigh two.
  count_if-pair :
      (p : A → Bool) (xs : List A) (i j : ℕ) (d : A)
      → i < j
      → j < length xs
      → p (get_or xs i d) ≡ true
      → p (get_or xs j d) ≡ true
      → 1 < count_if p xs
  unfolding count_if
  count_if-pair p [] i j d h k e f = elim k [ ]
  count_if-pair p (x ∷ xs) i zero d h k e f = elim h [ ]
  count_if-pair p (x ∷ xs) zero (suc j) d h k e f =
      ground (arith, count_if-pos p xs j d (omega arith) f)
  count_if-pair p (x ∷ xs) (suc i) (suc j) d h k e f =
      omega (arith, count_if-pair p xs i j d (omega arith) (omega arith) e f)

  -- Where at most one entry passes, two that pass are one.
  pub count_if_unique :
      (p : A → Bool) (xs : List A) (i j : ℕ) (d : A)
      → count_if p xs ≤ 1
      → i < length xs
      → j < length xs
      → p (get_or xs i d) ≡ true
      → p (get_or xs j d) ≡ true
      → i ≡ j
  count_if_unique p xs i j d few hi hj e f = elim (dec_lt i j) [
    | yes less ↦ absurd (omega (arith, count_if-pair p xs i j d less hj e f))
    | no more ↦ elim (dec_lt j i) [
      | yes less ↦ absurd (omega (arith, count_if-pair p xs j i d less hi f e))
      | no fewer ↦ omega arith
    ]
  ]

  -- If some entry passes, there is one.
  pub count_if-witness :
      (p : A → Bool) (xs : List A) (d : A)
      → 0 < count_if p xs
      → (i : ℕ) × (i < length xs) × (p (get_or xs i d) ≡ true)
  unfolding count_if
  count_if-witness p [] d h = elim h [ ]
  count_if-witness p (x ∷ xs) d h = elim (Bool-cases (p x)) [
    | inl here ↦ (0, omega arith, here)
    | inr past ↦
        let (i, below, e) = count_if-witness p xs d (ground arith) in (suc i, omega arith, e)
  ]

  -- If fewer pass than there are entries, some entry does not.
  pub count_if-missing :
      (p : A → Bool) (xs : List A) (d : A)
      → count_if p xs < length xs
      → (i : ℕ) × (i < length xs) × (p (get_or xs i d) ≡ false)
  unfolding count_if
  count_if-missing p [] d h = elim h [ ]
  count_if-missing p (x ∷ xs) d h = elim (Bool-cases (p x)) [
    | inr here ↦ (0, omega arith, here)
    | inl past ↦
        let (i, below, e) = count_if-missing p xs d (ground arith) in (suc i, omega arith, e)
  ]

  pub count_if-all :
      (p : A → Bool) (xs : List A) (d : A)
      → ((i : ℕ) → i < length xs → p (get_or xs i d) ≡ true)
      → count_if p xs ≡ length xs
  unfolding count_if
  count_if-all p [] d h = refl
  count_if-all p (x ∷ xs) d h =
      ground (arith, h 0 (omega arith), count_if-all p xs d (λ i below. h (suc i) (omega arith)))

  -- If as many pass as there are entries, every entry does.
  pub count_if-full :
      (p : A → Bool) (xs : List A) (i : ℕ) (d : A)
      → count_if p xs ≡ length xs
      → i < length xs
      → p (get_or xs i d) ≡ true
  unfolding count_if
  count_if-full p [] i d e h = elim h [ ]
  count_if-full p (x ∷ xs) zero d e h = ground (arith, count_if-le p xs)
  count_if-full p (x ∷ xs) (suc i) d e h =
      count_if-full p xs i d (ground (arith, count_if-le p xs)) (omega arith)

  -- If none passes, no entry does.
  pub count_if-zero :
      (p : A → Bool) (xs : List A) (i : ℕ) (d : A)
      → count_if p xs ≡ 0
      → i < length xs
      → p (get_or xs i d) ≡ false
  unfolding count_if
  count_if-zero p [] i d e h = elim h [ ]
  count_if-zero p (x ∷ xs) zero d e h = ground arith
  count_if-zero p (x ∷ xs) (suc i) d e h = count_if-zero p xs i d (ground arith) (omega arith)

  pub get_or-replicate : (n i : ℕ) (a : A) → get_or (replicate n a) i a ≡ a
  get_or-replicate zero i a = refl
  get_or-replicate (suc n) zero a = refl
  get_or-replicate (suc n) (suc i) a = get_or-replicate n i a

  pub count_if-replicate :
      (p : A → Bool) (n : ℕ) (a : A) → p a ≡ false → count_if p (replicate n a) ≡ 0
  unfolding count_if
  count_if-replicate p zero a e = refl
  count_if-replicate p (suc n) a e = ground (arith, count_if-replicate p n a e)

  pub length-replicate : (n : ℕ) (a : A) → length (replicate n a) ≡ n
  length-replicate zero a = refl
  length-replicate (suc n) a = ap suc (length-replicate n a)

  pub count_if-append :
      (p : A → Bool) (xs ys : List A) → count_if p (xs ++ ys) ≡ count_if p xs + count_if p ys
  unfolding count_if
  count_if-append p [] ys = omega arith
  count_if-append p (x ∷ xs) ys = omega (arith, count_if-append p xs ys)

  -- What passes one test passes another.
  pub count_if-imp :
      (p q : A → Bool) (xs : List A)
      → ((x : A) → p x ≡ true → q x ≡ true)
      → count_if p xs ≤ count_if q xs
  unfolding count_if
  count_if-imp p q [] h = omega arith
  count_if-imp p q (x ∷ xs) h = ground (arith, h x, count_if-imp p q xs h)

  -- No entry can pass both.
  pub count_if-disjoint :
      (p q : A → Bool) (xs : List A)
      → ((x : A) → p x ≡ true → q x ≡ false)
      → count_if p xs + count_if q xs ≤ length xs
  unfolding count_if
  count_if-disjoint p q [] h = omega arith
  count_if-disjoint p q (x ∷ xs) h = ground (arith, h x, count_if-disjoint p q xs h)
