-- ===== src/Echo/Exchange.antt =====
-- kadai2/echoclient.c with echoserver.c or lowerechoserver.c: lines go to the server and come back.
use mathlib.Core.List.{append-nil}
use excc.Common.{ℕ, ◌<◌, ◌≡◌, refl, sym, ap, ◌∙◌, List, [], ◌∷◌, ◌++◌, map, arith, length, drop}
use excc.Common.Text.{c_string, HasNoNul, c_string-all}
use excc.Common.Outcome.{Each}
use excc.ChatServer.{bytes}
use excc.ChatClient.{Effect, write, print, close, line, stored}
use excc.Echo.{Program, echo, lower_echo, lower, continue, break, round, convert}
use excc.Echo.Answers.{reply, take-convert}
use excc.Echo.Client.{Turn, turn, fgets, c_string-fgets, prompt, shows, turn-shows}

-- What a round writes to the socket.
abbrev pub written : List Effect → List ℕ
written [] = []
written (write text ∷ out) = text ++ written out
written (print text ∷ out) = written out
written (close ∷ out) = written out

-- The network brings what is written by one `write` to one `read`.
abbrev pub Delivers : (List ℕ → List ℕ) → Type 0
Delivers net = (text : List ℕ) → net text ≡ text

-- What a server makes of bytes without a NUL.
abbrev pub image : Program → List ℕ → List ℕ
image echo text = text
image lower_echo text = map lower text

-- A line that `fgets` gives.
abbrev pub IsLine : List ℕ → Type 0
IsLine text = HasNoNul text × (0 < length text)

length-map-lower : (text : List ℕ) → length (map lower text) ≡ length text
length-map-lower [] = refl
length-map-lower (c ∷ s) = omega (arith, length-map-lower s)

length-image : (p : Program) (text : List ℕ) → length (image p text) ≡ length text
length-image echo text = refl
length-image lower_echo text = length-map-lower text

map-lower-HasNoNul : (text : List ℕ) → HasNoNul text → HasNoNul (map lower text)
map-lower-HasNoNul [] h = tt
map-lower-HasNoNul (c ∷ s) h = (ground (arith, h.0), map-lower-HasNoNul s h.1)

image-HasNoNul : (p : Program) (text : List ℕ) → HasNoNul text → HasNoNul (image p text)
image-HasNoNul echo text h = h
image-HasNoNul lower_echo text h = map-lower-HasNoNul text h

drop-length :
    (over text : List ℕ) → length over ≡ length text → over ++ drop (length over) text ≡ over
drop-length over text e =
    ap (λ n. over ++ drop n text) e ∙ ap (◌++◌ over) (nothing text) ∙ append-nil over
  where
    nothing : (s : List ℕ) → drop (length s) s ≡ []
    nothing [] = refl
    nothing (c ∷ s) = nothing s

reply-image : (p : Program) (text : List ℕ) → HasNoNul text → reply p text ≡ image p text
reply-image echo text h = refl
reply-image lower_echo text h =
    rw (c_string-all text h) (whole (map lower text) text (length-map-lower text))
  where
    whole : (over s : List ℕ) → length over ≡ length s → over ++ drop (length s) s ≡ over
    whole over s e = ap (λ n. over ++ drop n s) (sym e) ∙ drop-length over s e

round-reply :
    (p : Program) (rbuf text : List ℕ)
    → IsLine text
    → (next : List ℕ) × (round p rbuf (bytes text) ≡ continue next (write (image p text) ∷ []))
unfolding round
round-reply p rbuf [] h = absurd (omega (arith, h.1))
round-reply p rbuf (b ∷ bs) h =
    let memory = convert p (stored rbuf (b ∷ bs)) in
    (
      memory,
      ap (λ t. continue memory (write t ∷ []))
          (take-convert p (b ∷ bs) _ ∙ reply-image p (b ∷ bs) h.0),
    )

module _ (net : List ℕ → List ℕ) where
  -- What the client does over some lines. Each side reads what the other has written; the client
  -- writes before it reads.
  pub dialogue : Program → (rbuf buf : List ℕ) → List (List ℕ) → List Effect
  dialogue p rbuf buf [] = []
  dialogue p rbuf buf (text ∷ texts) =
      elim (round p rbuf (bytes (net (c_string (fgets buf text))))) [
        | continue rbuf' answer ↦ elim (turn buf (line text) (bytes (net (written answer)))) [
          | Turn.continue buf' out ↦ out ++ dialogue p rbuf' buf' texts
          | Turn.break out ↦ out
        ]
        | break rbuf' answer ↦ []
      ]

-- What is to be done for each line.
abbrev pub exchanges : Program → List (List ℕ) → List Effect
exchanges p [] = []
exchanges p (text ∷ texts) = prompt ∷ write text ∷ shows (image p text) ∷ exchanges p texts

-- Through the echo server each typed line comes back and is shown as it was, and through the other
-- server in lower case, for any number of lines, whatever the two buffers held before. (A line has a byte
-- at least and no NUL, and the network brings what one `write` sends to one `read`.)
pub dialogue-exchanges :
    (net : List ℕ → List ℕ) (p : Program) (rbuf buf : List ℕ) (texts : List (List ℕ))
    → Delivers net
    → Each IsLine texts
    → dialogue net p rbuf buf texts ≡ exchanges p texts
unfolding dialogue
dialogue-exchanges net p rbuf buf [] delivers h = refl
dialogue-exchanges net p rbuf buf (text ∷ texts) delivers h =
    let (rbuf', served) = round-reply p rbuf text h.0 in
    let (buf', shown) =
      turn-shows buf text (bytes (image p text)) h.0.0
        (image-HasNoNul p text h.0.0, omega (arith, length-image p text)) in
    let sent : net (c_string (fgets buf text)) ≡ text =
      delivers (c_string (fgets buf text)) ∙ c_string-fgets buf text h.0.0 in
    let answer : net (image p text ++ []) ≡ image p text =
      delivers (image p text ++ []) ∙ append-nil (image p text) in
    rw (dialogue, sent, served, answer, shown)
      (rw (drop-length (image p text) text (length-image p text)) (
        ap (λ out. prompt ∷ write text ∷ shows (image p text) ∷ out)
          (dialogue-exchanges net p rbuf' buf' texts delivers h.1)))
