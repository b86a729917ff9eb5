-- ===== src/Echo/Client.antt =====
-- kadai2/echoclient.c: the loop of the echo client. What `fgets` and `read` give is an argument; what
-- `read` returns is not looked at.
use mathlib.Core.List.{append_assoc}
use excc.Common.{ℕ, ◌≤◌, ◌≡◌, refl, ap, ◌∙◌, List, [], ◌∷◌, ◌++◌, drop, length}
use excc.Common.Text.{codes, c_string, HasNoNul, c_string-nul, c_string-over}
use excc.ChatServer.{ReadResult, failed, bytes}
use excc.ChatClient.{Effect, write, print, close, Input, eof, line, stored}

-- The memory of `buf`, with what lies behind its 1024 bytes, and what has been done.
pub data Turn : Type 0 where
  continue : (buf : List ℕ) → List Effect → Turn
  break : List Effect → Turn

abbrev pub prompt : Effect
prompt = print (codes "Enter message: ")

abbrev pub shows : List ℕ → Effect
shows text = print (codes "Received: " ++ text ++ codes "\n")

abbrev pub fgets : List ℕ → List ℕ → List ℕ
fgets buf text = stored buf (text ++ 0 ∷ [])

abbrev pub receive : List ℕ → ReadResult → List ℕ
receive buf failed = buf
receive buf (bytes received) = stored buf received

-- One round of the `while`.
pub turn : (buf : List ℕ) → Input → ReadResult → Turn
turn buf eof r = break (prompt ∷ print (codes "\n") ∷ close ∷ [])
turn buf (line text) r =
    let sent = fgets buf text in
    let got = receive sent r in
    continue got (prompt ∷ write (c_string sent) ∷ shows (c_string got) ∷ [])

-- What is shown for a line, by what `read` has given.
abbrev pub heard : List ℕ → ReadResult → List ℕ
heard text failed = text
heard text (bytes received) = received ++ drop (length received) text

-- No more arrives than was sent, and no NUL.
abbrev pub IsShort : List ℕ → ReadResult → Type 0
IsShort text failed = Unit {0}
IsShort text (bytes received) = HasNoNul received × (length received ≤ length text)

fgets-nul : (buf text : List ℕ) → fgets buf text ≡ text ++ 0 ∷ drop (length (text ++ 0 ∷ [])) buf
fgets-nul buf text = append_assoc text (0 ∷ []) (drop (length (text ++ 0 ∷ [])) buf)

pub c_string-fgets : (buf text : List ℕ) → HasNoNul text → c_string (fgets buf text) ≡ text
c_string-fgets buf text h =
    ap c_string (fgets-nul buf text) ∙ c_string-nul text (drop (length (text ++ 0 ∷ [])) buf) h

over_own :
    (buf text : List ℕ) (r : ReadResult) {shown : List ℕ}
    → HasNoNul text
    → c_string (receive (fgets buf text) r) ≡ shown
    → turn buf (line text) r
      ≡ continue (receive (fgets buf text) r) (prompt ∷ write text ∷ shows shown ∷ [])
unfolding turn
over_own buf text r h e = rw (c_string-fgets buf text h, e) refl

-- For a typed line without a NUL the client prompts, sends the line, and shows what it has received
-- over its own line: whatever of the line was not overwritten is shown as if it had come back. So if
-- the server has gone, or `read` fails, each line is shown whole.
pub turn-shows :
    (buf text : List ℕ) (r : ReadResult)
    → HasNoNul text
    → IsShort text r
    → (next : List ℕ) × (turn buf (line text) r
        ≡ continue next (prompt ∷ write text ∷ shows (heard text r) ∷ []))
unfolding turn
turn-shows buf text failed h short =
    (fgets buf text, over_own buf text failed h (c_string-fgets buf text h))
turn-shows buf text (bytes received) h short = (
  stored (fgets buf text) received,
  over_own buf text (bytes received) h (
      ap (λ m. c_string (stored m received)) (fgets-nul buf text)
      ∙ c_string-over text (drop (length (text ++ 0 ∷ [])) buf) received h short.0 short.1),
)
