-- ===== src/Interrupts.antt =====
-- kadai3/signal.c: lines are echoed, and CTRL-C does not end the program. What is typed is one list
-- of bytes, of which each `fgets` takes a piece. The presses of CTRL-C are listed for each `fgets`,
-- each with whether the call of `signal` in the handler works. (`fgets` goes on after a handler, as
-- glibc has it.)
pub mod Echoes
mod Tests
use excc.Common.{
  ℕ, zero, suc, ◌-◌, Bool, true, false, List, [], ◌∷◌, ◌++◌, ◌==◌, if◌then◌else◌, length,
}
use excc.Common.Text.{c_string, newline}

abbrev pub bufsize : ℕ
bufsize = 256

-- "\n!! CTRL-C is pressed !!\n\n", "echo: %s" with its text, and the message of `perror`.
pub data Shown : Type 0 where
  notice : Shown
  echo : List ℕ → Shown
  signal_failed : Shown

pub data Ending : Type 0 where
  unfinished : List Shown → Ending
  returned : List Shown → Ending
  exited : (code : ℕ) → List Shown → Ending

unfoldable pub prepend : List Shown → Ending → Ending
prepend out (unfinished more) = unfinished (out ++ more)
prepend out (returned more) = returned (out ++ more)
prepend out (exited code more) = exited code (out ++ more)

-- The bytes that `fgets` takes, at most so many and none behind a line feed, and the others.
unfoldable pub fgets : ℕ → List ℕ → List ℕ × List ℕ
fgets zero typed = ([], typed)
fgets (suc n) [] = ([], [])
fgets (suc n) (b ∷ typed) =
    let (line, rest) = fgets n typed in if b == newline then (b ∷ [], typed) else (b ∷ line, rest)

-- `sigmsg` for each press, and what comes next.
unfoldable pub sigmsg : List Bool → Ending → Ending
unfolding prepend
sigmsg [] next = next
sigmsg (true ∷ presses) next = prepend (notice ∷ []) (sigmsg presses next)
sigmsg (false ∷ presses) next = exited 1 (notice ∷ signal_failed ∷ [])

abbrev pub now : List (List Bool) → List Bool
now [] = []
now (p ∷ presses) = p

abbrev pub later : List (List Bool) → List (List Bool)
later [] = []
later (p ∷ presses) = presses

-- The body of the loop, once `fgets` has taken its piece.
abbrev pub body : List ℕ → Ending → Ending
body [] next = returned []
body (b ∷ line) next = prepend (echo (c_string (b ∷ line)) ∷ []) next

-- The loop, with a number of rounds; it takes at least a byte in each.
unfoldable pub loop : (rounds : ℕ) → List (List Bool) → List ℕ → Ending
loop zero presses typed = unfinished []
loop (suc rounds) presses typed =
    let (line, rest) = fgets (bufsize - 1) typed in
    let next = loop rounds (later presses) rest in sigmsg (now presses) (body line next)

-- `main`; `installs` says whether its own call of `signal` works.
unfoldable pub main : (installs : Bool) → List (List Bool) → List ℕ → Ending
main false presses typed = exited 1 (signal_failed ∷ [])
main true presses typed = loop (suc (length typed)) presses typed
