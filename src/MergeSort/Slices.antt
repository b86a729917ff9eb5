-- ===== src/MergeSort/Slices.antt =====
-- Parts of an array as lists, and runs of stores.
use excc.Common.{
  ℕ, zero, suc, ◌+◌, ◌≤◌, ◌<◌, ◌≡◌, refl, sym, ap, ◌∙◌, List, [], ◌∷◌, ◌++◌, arith, length, get_or,
  set, length-set, get_or-set, take, drop, ltb, if◌then◌else◌,
}

-- a[lo], ..., a[lo + n - 1]
unfoldable pub slice : List ℕ → ℕ → ℕ → List ℕ
slice a lo zero = []
slice a lo (suc n) = get_or a lo 0 ∷ slice a (suc lo) n

-- a[pos] = x, a[pos + 1] = y, ...
unfoldable pub write_at : List ℕ → ℕ → List ℕ → List ℕ
write_at a pos [] = a
write_at a pos (x ∷ xs) = write_at (set a pos x) (suc pos) xs

pub length-slice : (a : List ℕ) (lo n : ℕ) → length (slice a lo n) ≡ n
unfolding slice
length-slice a lo zero = refl
length-slice a lo (suc n) = ap suc (length-slice a (suc lo) n)

pub slice-append :
    (a : List ℕ) (lo m n : ℕ) → slice a lo m ++ slice a (lo + m) n ≡ slice a lo (m + n)
unfolding slice
slice-append a lo zero n = ground arith
slice-append a lo (suc m) n =
    let sum : suc m + n ≡ suc (m + n) = omega arith in
    let start : lo + suc m ≡ suc lo + m = omega arith in
    rw (sum, start) (ap (◌∷◌ (get_or a lo 0)) (slice-append a (suc lo) m n))

-- Slices agree where the arrays do.
pub slice-eq :
    (a b : List ℕ) (lo n : ℕ)
    → ((j : ℕ) → lo ≤ j → j < lo + n → get_or a j 0 ≡ get_or b j 0)
    → slice a lo n ≡ slice b lo n
unfolding slice
slice-eq a b lo zero h = refl
slice-eq a b lo (suc n) h =
    ground (arith, h lo, slice-eq a b (suc lo) n (λ j p q. h j (omega arith) (omega arith)))

pub length-write_at : (a : List ℕ) (pos : ℕ) (xs : List ℕ) → length (write_at a pos xs) ≡ length a
unfolding write_at
length-write_at a pos [] = refl
length-write_at a pos (x ∷ xs) = length-write_at (set a pos x) (suc pos) xs ∙ length-set a pos x

pub get_or-write_at :
    (a : List ℕ) (pos : ℕ) (xs : List ℕ) (j : ℕ)
    → pos + length xs ≤ length a
    → (j < pos → get_or (write_at a pos xs) j 0 ≡ get_or a j 0)
      × (pos + length xs ≤ j → get_or (write_at a pos xs) j 0 ≡ get_or a j 0)
unfolding write_at
get_or-write_at a pos [] j h = ((λ p. refl), λ p. refl)
get_or-write_at a pos (x ∷ xs) j h =
    let here = get_or-set a pos j x 0 (omega arith) in
    let (low, high) =
      get_or-write_at (set a pos x) (suc pos) xs j (omega (arith, length-set a pos x)) in
    ((λ p. ground (arith, here, low)), λ p. ground (arith, here, high))

pub slice-write_at :
    (a : List ℕ) (pos : ℕ) (xs : List ℕ)
    → pos + length xs ≤ length a
    → slice (write_at a pos xs) pos (length xs) ≡ xs
unfolding slice write_at
slice-write_at a pos [] h = refl
slice-write_at a pos (x ∷ xs) h =
    let size = length-set a pos x in
    ground (
      arith,
      get_or-set a pos pos x 0,
      get_or-write_at (set a pos x) (suc pos) xs pos (omega (arith, size)),
      slice-write_at (set a pos x) (suc pos) xs (omega (arith, size)),
    )

slice-cons : (x : ℕ) (a : List ℕ) (lo n : ℕ) → slice (x ∷ a) (suc lo) n ≡ slice a lo n
unfolding slice
slice-cons x a lo zero = refl
slice-cons x a lo (suc n) = ap (◌∷◌ (get_or a lo 0)) (slice-cons x a (suc lo) n)

pub take-slice : (n : ℕ) (a : List ℕ) → n ≤ length a → take n a ≡ slice a 0 n
unfolding slice
take-slice zero a h = refl
take-slice (suc n) [] h = absurd (omega arith)
take-slice (suc n) (x ∷ a) h = ap (◌∷◌ x) (take-slice n a (omega arith) ∙ sym (slice-cons x a 0 n))

pub slice-all : (a : List ℕ) → slice a 0 (length a) ≡ a
unfolding slice
slice-all [] = refl
slice-all (x ∷ a) = ap (◌∷◌ x) (slice-cons x a 0 (length a) ∙ slice-all a)

-- The first `n` entries of one array over those of another.
pub get_or-take-drop :
    (n : ℕ) (a b : List ℕ) (j : ℕ)
    → n ≤ length a
    → n ≤ length b
    → get_or (take n a ++ drop n b) j 0 ≡ (if ltb j n then get_or a j 0 else get_or b j 0)
get_or-take-drop zero a b j h k = ground arith
get_or-take-drop (suc n) [] b j h k = absurd (omega arith)
get_or-take-drop (suc n) (x ∷ a) [] j h k = absurd (omega arith)
get_or-take-drop (suc n) (x ∷ a) (y ∷ b) zero h k = ground arith
get_or-take-drop (suc n) (x ∷ a) (y ∷ b) (suc j) h k = ground (arith, get_or-take-drop n a b j)

pub length-take-drop :
    (n : ℕ) (a b : List ℕ)
    → n ≤ length a
    → n ≤ length b
    → (length (take n a) ≡ n) × (length (take n a ++ drop n b) ≡ length b)
length-take-drop zero a b h k = (refl, refl)
length-take-drop (suc n) [] b h k = absurd (omega arith)
length-take-drop (suc n) (x ∷ a) [] h k = absurd (omega arith)
length-take-drop (suc n) (x ∷ a) (y ∷ b) h k =
    let (p, q) = length-take-drop n a b (omega arith) (omega arith) in (ap suc p, ap suc q)
