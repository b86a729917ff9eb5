-- ===== src/Talk/Rounds.antt =====
-- kadai2/simple-talk-server.c and simple-talk-client.c: what is sent and shown in the rounds.
use mathlib.Core.Option.{Option}
use excc.Common.{ℕ, ◌+◌, ◌≡◌, refl, false, List, [], ◌∷◌, ◌++◌, arith, length, drop}
use excc.Common.Text.{newline, IsPlain}
use excc.ChatServer.{ReadResult, bytes}
use excc.ChatClient.{Effect, write, print, close, line}
use excc.Talk.{
  Program, server, client, Memory, Event, ready, fgets, Round, continue, heard, skips, typed,
}
use excc.Talk.Lines.{holding, c_string-end, strip_newline-line}

-- What a round brings: a line that is typed, without its line feed, and bytes that arrive.
pub data Turn : Type 0 where
  turn : (said : Option (List ℕ)) (got : Option (ℕ × List ℕ)) → Turn

abbrev pub answer : Option (ℕ × List ℕ) → Option ReadResult
answer Option.none = Option.none
answer (Option.some (b, bs)) = Option.some (bytes (b ∷ bs))

abbrev pub event : Turn → Event
event (turn Option.none r) = ready Option.none (answer r)
event (turn (Option.some text) r) = ready (Option.some (line (text ++ newline ∷ []))) (answer r)

abbrev pub IsTurn : Turn → Type 0
IsTurn (turn Option.none r) = Unit {0}
IsTurn (turn (Option.some text) r) = IsPlain text

-- The lines that are typed, but for the empty ones that the server leaves out.
abbrev pub sends : Program → List ℕ → List (List ℕ)
sends server [] = []
sends server (c ∷ s) = (c ∷ s) ∷ []
sends client text = text ∷ []

abbrev pub lines : Program → List Turn → List (List ℕ)
lines p [] = []
lines p (turn Option.none r ∷ ts) = lines p ts
lines p (turn (Option.some text) r ∷ ts) = sends p text ++ lines p ts

-- The writes, one by one.
abbrev pub writes : List Effect → List (List ℕ)
writes [] = []
writes (write text ∷ out) = text ∷ writes out
writes (print text ∷ out) = writes out
writes (close ∷ out) = writes out

-- A round goes on, with the given writes.
abbrev GoesOn : Round → List (List ℕ) → Type 0
GoesOn r w = (m : Memory) × (out : List Effect) × (r ≡ continue m out) × (writes out ≡ w)

kept-skips :
    (p : Program) (m : Memory) (text : List ℕ)
    → IsPlain text
    → sends p text ≡ text ∷ []
    → skips p (fgets m (line (text ++ newline ∷ []))) ≡ false
unfolding fgets
kept-skips server m [] h kept = cc
kept-skips server m (c ∷ s) h kept = ground (arith, h.1)
kept-skips client m text h kept = refl

-- A line that is not left out: it is stored and sent without its line feed.
pub typed-line :
    (p : Program) (m : Memory) (text : List ℕ) (r : Option ReadResult)
    → IsPlain text
    → sends p text ≡ text ∷ []
    → typed p m (line (text ++ newline ∷ [])) r ≡ heard p (holding m text) (write text ∷ []) r
unfolding typed
typed-line p m text r h kept =
    rw
      (
        kept-skips p m text h kept,
        strip_newline-line m text h,
        c_string-end text (0 ∷ drop (length text + 2) m.buffer) h,
      )
      refl
