-- ===== src/Interrupts/Echoes.antt =====
-- kadai3/signal.c: whatever is typed comes back, in pieces that fit the buffer.
use excc.Common.{
  ℕ, zero, suc, ◌+◌, ◌≤◌, ◌<◌, ◌≡◌, refl, ap, Bool, true, List, [], ◌∷◌, ◌++◌, length, arith,
  Bool-cases, inl, inr, ◌==◌,
}
use excc.Common.Text.{c_string, c_string-all, HasNoNul, newline}
use excc.Interrupts.{
  bufsize, Shown, notice, echo, signal_failed, Ending, returned, prepend, fgets, sigmsg, now, later,
  body, loop, main,
}

-- All calls of `signal` work.
abbrev pub Work : List Bool → Type 0
Work [] = Unit {0}
Work (b ∷ presses) = (b ≡ true) × Work presses

abbrev pub AllWork : List (List Bool) → Type 0
AllWork [] = Unit {0}
AllWork (p ∷ presses) = Work p × AllWork presses

-- The echoed texts, one behind the other.
abbrev pub echoed : List Shown → List ℕ
echoed [] = []
echoed (echo line ∷ out) = line ++ echoed out
echoed (notice ∷ out) = echoed out
echoed (signal_failed ∷ out) = echoed out

-- Each fits the buffer, with its NUL.
abbrev pub AllFit : List Shown → Type 0
AllFit [] = Unit {0}
AllFit (echo line ∷ out) = (length line < bufsize) × AllFit out
AllFit (notice ∷ out) = AllFit out
AllFit (signal_failed ∷ out) = AllFit out

-- The program returns, and what it has shown repeats `typed` in pieces that fit.
abbrev pub Repeats : List ℕ → Ending → Type 0
Repeats typed e = (out : List Shown) × (e ≡ returned out) × (echoed out ≡ typed) × AllFit out

-- What `fgets` takes is not empty, unless nothing is left, and it is the head of what is typed.
record Taken (n : ℕ) (typed line rest : List ℕ) : Type 0 where
  whole : line ++ rest ≡ typed
  short : length line ≤ n
  plain : HasNoNul typed → HasNoNul line × HasNoNul rest
  sizes : length line + length rest ≡ length typed
  nonempty : 0 < n → 0 < length typed → 0 < length line

fgets-Taken : (n : ℕ) (typed : List ℕ) → Taken n typed (fgets n typed).0 (fgets n typed).1
unfolding fgets
fgets-Taken zero typed = record {
  whole = refl;
  short = omega arith;
  plain = λ h. (tt, h);
  sizes = omega arith;
  nonempty = λ p q. omega arith;
}
fgets-Taken (suc n) [] = record {
  whole = refl;
  short = omega arith;
  plain = λ h. (tt, h);
  sizes = omega arith;
  nonempty = λ p q. omega arith;
}
fgets-Taken (suc n) (b ∷ typed) =
    let rest = fgets-Taken n typed in
    elim (Bool-cases (b == newline)) [
      | inl ends ↦ rw ends (record {
        whole = refl;
        short = omega arith;
        plain = λ h. ((h.0, tt), h.1);
        sizes = omega arith;
        nonempty = λ p q. omega arith;
      })
      | inr more ↦ rw more (record {
        whole = ap (◌∷◌ b) rest.whole;
        short = omega (arith, rest.short);
        plain = λ h. let (line, behind) = rest.plain h.1 in ((h.0, line), behind);
        sizes = omega (arith, rest.sizes);
        nonempty = λ p q. omega arith;
      })
    ]

Repeats-sigmsg :
    (presses : List Bool) (typed : List ℕ) (e : Ending)
    → Work presses
    → Repeats typed e
    → Repeats typed (sigmsg presses e)
unfolding sigmsg prepend
Repeats-sigmsg [] typed e w r = r
Repeats-sigmsg (b ∷ presses) typed e w r =
    let (out, here, same, fit) = Repeats-sigmsg presses typed e w.1 r in
    (notice ∷ out, rw (w.0, here) refl, same, fit)

now-Work :
    (presses : List (List Bool)) → AllWork presses → Work (now presses) × AllWork (later presses)
now-Work [] w = (tt, tt)
now-Work (p ∷ presses) w = w

-- A piece is echoed, and the rest is repeated behind it.
body-Repeats :
    (typed line rest : List ℕ) (next : Ending)
    → Taken 255 typed line rest
    → HasNoNul typed
    → (0 < length line → Repeats rest next)
    → Repeats typed (body line next)
unfolding prepend
body-Repeats [] [] rest next t plain r = ([], refl, refl, tt)
body-Repeats (x ∷ typed) [] rest next t plain r =
    absurd (omega (arith, t.nonempty (omega arith) (omega arith)))
body-Repeats typed (b ∷ line) rest next t plain r =
    let (out, here, same, fit) = r (omega arith) in
    let text = c_string-all (b ∷ line) (t.plain plain).0 in
    (
      echo (c_string (b ∷ line)) ∷ out,
      rw here refl,
      rw (text, same) t.whole,
      (rw text (omega (arith, t.short)), fit),
    )

-- The rounds are enough if there are more of them than bytes.
loop-Repeats :
    (rounds : ℕ) (presses : List (List Bool)) (typed : List ℕ)
    → length typed < rounds
    → AllWork presses
    → HasNoNul typed
    → Repeats typed (loop rounds presses typed)
unfolding loop
loop-Repeats zero presses typed h w plain = absurd (omega arith)
loop-Repeats (suc rounds) presses typed h w plain =
    let t = fgets-Taken 255 typed in
    let (here, behind) = now-Work presses w in
    Repeats-sigmsg (now presses) typed _ here (
      body-Repeats typed _ _ _ t plain (λ some.
        loop-Repeats rounds (later presses) _ (omega (arith, t.sizes, some)) behind
          (t.plain plain).1))

-- However often CTRL-C is pressed while the program waits for a line: it goes on to the end of its input
-- and returns. What it has echoed is all that was typed, in its order, cut into pieces of at most 255
-- bytes. (Each call of `signal` works, and what is typed holds no NUL.)
pub main-Repeats :
    (presses : List (List Bool)) (typed : List ℕ)
    → AllWork presses
    → HasNoNul typed
    → Repeats typed (main true presses typed)
unfolding main
main-Repeats presses typed w plain =
    loop-Repeats (suc (length typed)) presses typed (omega arith) w plain
