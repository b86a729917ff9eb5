-- ===== src/Common/Outcome.antt =====
-- Servers as loops: a round turns the state and the kernel's answer into a new state and the calls
-- that it made, or ends the process by `exit`.
use mathlib.Core.Path.{◌≡◌, refl}
use mathlib.Core.List.{List, [], ◌∷◌, ◌++◌}
use Prim.Native.Nat.{ℕ}
use mathlib.Core.Bool.{Bool, true, false}
use excc.Common.Tests.{if◌then◌else◌}

pub data Outcome (S E : Type 0) : Type 0 where
  running : S → List E → Outcome S E
  exited : (code : ℕ) → Outcome S E

module _ {S E : Type 0} where
  unfoldable pub prepend : List E → Outcome S E → Outcome S E
  prepend out (running s out') = running s (out ++ out')
  prepend out (exited code) = exited code

  unfoldable pub resume : Outcome S E → (S → Outcome S E) → Outcome S E
  unfolding prepend
  resume (running s out) next = prepend out (next s)
  resume (exited code) next = exited code

  -- The calls made, where it goes on.
  abbrev pub calls : Outcome S E → List E
  calls (running s out) = out
  calls (exited code) = []

  -- The state that it goes on with.
  abbrev pub after : S → Outcome S E → S
  after s (running t out) = t
  after s (exited code) = s

  -- The state that a round or a run goes on with satisfies `P`; nothing is said of `exit`.
  abbrev pub Running : (S → Type 0) → Outcome S E → Type 0
  Running P (running s out) = P s
  Running P (exited code) = Unit {0}

  pub Running-if :
      (P : S → Type 0) (x y : Outcome S E) (b : Bool)
      → (b ≡ true → Running P x)
      → (b ≡ false → Running P y)
      → Running P (if b then x else y)
  Running-if P x y true p q = p refl
  Running-if P x y false p q = q refl

  Running-map :
      (P Q : S → Type 0) (out : List E) (o : Outcome S E)
      → ((s : S) → P s → Q s)
      → Running P o
      → Running Q (prepend out o)
  unfolding prepend
  Running-map P Q out (running s out') f p = f s p
  Running-map P Q out (exited code) f p = tt

  pub Running-imp :
      (P Q : S → Type 0) (o : Outcome S E) → ((s : S) → P s → Q s) → Running P o → Running Q o
  Running-imp P Q (running s out) f p = f s p
  Running-imp P Q (exited code) f p = tt

  -- It goes on.
  abbrev pub IsRunning : Outcome S E → Type 0
  IsRunning (running s out) = Unit {0}
  IsRunning (exited code) = ⊥

  resume-Running :
      (P Q : S → Type 0) (o : Outcome S E) (rest : S → Outcome S E)
      → Running P o
      → ((s : S) → P s → Running Q (rest s))
      → Running Q (resume o rest)
  unfolding resume
  resume-Running P Q (running s out) rest h k = Running-map Q Q out (rest s) (λ t q. q) (k s h)
  resume-Running P Q (exited code) rest h k = tt

  pub resume-each :
      (P : S → Type 0) (o : Outcome S E) (rest : S → Outcome S E)
      → ((t : S) (out : List E) → o ≡ running t out → Running P (rest t))
      → Running P (resume o rest)
  unfolding resume
  resume-each P (running t out) rest h = Running-map P P out (rest t) (λ u q. q) (h t out refl)
  resume-each P (exited code) rest h = tt

  prepend-IsRunning : (out : List E) (o : Outcome S E) → IsRunning o → IsRunning (prepend out o)
  unfolding prepend
  prepend-IsRunning out (running s out') h = tt
  prepend-IsRunning out (exited code) h = absurd h

  resume-IsRunning :
      (o : Outcome S E) (rest : S → Outcome S E)
      → IsRunning o
      → ((s : S) → IsRunning (rest s))
      → IsRunning (resume o rest)
  unfolding resume
  resume-IsRunning (running s out) rest h k = prepend-IsRunning out (rest s) (k s)
  resume-IsRunning (exited code) rest h k = absurd h

-- Each of the kernel's answers is as `P` says.
abbrev pub Each : {I : Type 0} → (I → Type 0) → List I → Type 0
Each P [] = Unit {0}
Each P (i ∷ is) = P i × Each P is

-- The rounds over a sequence of answers.
module _ {S E I : Type 0} where
  unfoldable pub loop : (S → I → Outcome S E) → S → List I → Outcome S E
  unfolding resume
  loop round s [] = running s []
  loop round s (i ∷ is) = resume (round s i) (λ t. loop round t is)

  -- What each round keeps, a run keeps.
  pub loop-Running :
      (round : S → I → Outcome S E) (P : S → Type 0) (Ok : I → Type 0)
      → ((s : S) (i : I) → P s → Ok i → Running P (round s i))
      → (s : S) (is : List I) → P s
      → Each Ok is
      → Running P (loop round s is)
  unfolding loop
  loop-Running round P Ok keep s [] p ok = p
  loop-Running round P Ok keep s (i ∷ is) p ok =
      resume-Running P P (round s i) _ (keep s i p ok.0)
        λ t q. loop-Running round P Ok keep t is q ok.1

  pub loop-IsRunning :
      (round : S → I → Outcome S E) (Ok : I → Type 0)
      → ((s : S) (i : I) → Ok i → IsRunning (round s i))
      → (s : S) (is : List I) → Each Ok is
      → IsRunning (loop round s is)
  unfolding loop
  loop-IsRunning round Ok keep s [] ok = tt
  loop-IsRunning round Ok keep s (i ∷ is) ok =
      resume-IsRunning (round s i) _ (keep s i ok.0) λ t. loop-IsRunning round Ok keep t is ok.1
