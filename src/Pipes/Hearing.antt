-- ===== src/Pipes/Hearing.antt =====
-- kadai3/two-way-pipe.c: a message with a NUL behind it, cut and read.
use mathlib.Core.List.{append_assoc}
use excc.Common.{
  ℕ, zero, suc, ◌≤◌, ◌≡◌, refl, ap, ◌∙◌, List, [], ◌∷◌, ◌++◌, length, take, take-all,
  length-take-le, arith,
}
use excc.Common.Text.{c_string, HasNoNul, c_string-nul}
use excc.ChatClient.{stored}
use excc.Pipes.{bufsize}

-- A message and what lies behind it, cut behind its end.
pub take-over :
    (n : ℕ) (text rest : List ℕ)
    → length text ≤ n
    → (tail : List ℕ) × (take (suc n) (text ++ 0 ∷ rest) ≡ text ++ 0 ∷ tail)
take-over n [] rest h = (take n rest, refl)
take-over zero (x ∷ xs) rest h = absurd (omega (arith, h))
take-over (suc n) (x ∷ xs) rest h =
    let (tail, e) = take-over n xs rest (omega (arith, h)) in (tail, ap (◌∷◌ x) e)

-- The same, cut before its end.
pub take-inside :
    (n : ℕ) (text rest : List ℕ) → n ≤ length text → take n (text ++ rest) ≡ take n text
take-inside zero text rest h = refl
take-inside (suc n) [] rest h = absurd (omega (arith, h))
take-inside (suc n) (x ∷ xs) rest h = ap (◌∷◌ x) (take-inside n xs rest (omega (arith, h)))

pub length-take : (n : ℕ) (text : List ℕ) → n ≤ length text → length (take n text) ≡ n
length-take zero text h = refl
length-take (suc n) [] h = absurd (omega (arith, h))
length-take (suc n) (x ∷ xs) h = omega (arith, length-take n xs (omega (arith, h)))

pub take-HasNoNul : (n : ℕ) (text : List ℕ) → HasNoNul text → HasNoNul (take n text)
take-HasNoNul zero text h = tt
take-HasNoNul (suc n) [] h = tt
take-HasNoNul (suc n) (x ∷ xs) h = (h.0, take-HasNoNul n xs h.1)

-- What a reader shows of a message that is sent with its NUL.
pub heard-whole :
    (n : ℕ) (text rest buf : List ℕ)
    → HasNoNul text
    → length text ≤ n
    → n ≤ 255
    → c_string (stored buf (take bufsize (take (suc n) (text ++ 0 ∷ rest)))) ≡ text
heard-whole n text rest buf plain fits small =
    let (tail, e) = take-over n text rest fits in
    let size : length (take (suc n) (text ++ 0 ∷ rest)) ≤ bufsize =
      omega (arith, length-take-le (suc n) (text ++ 0 ∷ rest)) in
    ap (λ m. c_string (stored buf m)) (take-all bufsize (take (suc n) (text ++ 0 ∷ rest)) size ∙ e)
    ∙ ap c_string (append_assoc text (0 ∷ tail) _)
    ∙ c_string-nul text _ plain
