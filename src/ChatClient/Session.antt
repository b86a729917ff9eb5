-- ===== src/ChatClient/Session.antt =====
-- kadai4/chatclient.c: what the loop sends and shows, and when it ends.
use mathlib.Core.Option.{Option}
use mathlib.Core.List.{append_assoc, append-nil}
use excc.Common.{ℕ, ◌≡◌, refl, ◌∙◌, List, [], ◌∷◌, ◌++◌}
use excc.Common.Text.{c_string, HasNoNul, c_string-all}
use excc.Common.Outcome.{Each}
use excc.ChatServer.{ReadResult, failed, bytes}
use excc.ChatClient.{
  Effect, write, print, close, Input, eof, line, Event, select_error, ready, continue, break, typed,
  heard, round, running, returned, after, session,
}

-- What goes to the server, and what to the terminal.
abbrev pub sent : List Effect → List ℕ
sent [] = []
sent (write text ∷ out) = text ++ sent out
sent (print text ∷ out) = sent out
sent (close ∷ out) = sent out

abbrev pub shown : List Effect → List ℕ
shown [] = []
shown (write text ∷ out) = shown out
shown (print text ∷ out) = text ++ shown out
shown (close ∷ out) = shown out

-- What is typed and what is received in a round.
abbrev pub input : Option Input → List ℕ
input (Option.some (line text)) = text
input _ = []

abbrev pub received : Option ReadResult → List ℕ
received (Option.some (bytes text)) = text
received _ = []

abbrev pub all_input : List Event → List ℕ
all_input [] = []
all_input (select_error ∷ es) = all_input es
all_input (ready i r ∷ es) = input i ++ all_input es

abbrev pub all_received : List Event → List ℕ
all_received [] = []
all_received (select_error ∷ es) = all_received es
all_received (ready i r ∷ es) = received r ++ all_received es

-- No failure, no end of the connection, and no NUL in what is typed or received.
abbrev pub IsQuiet : Event → Type 0
IsQuiet select_error = ⊥
IsQuiet (ready i Option.none) = HasNoNul (input i)
IsQuiet (ready i (Option.some failed)) = ⊥
IsQuiet (ready i (Option.some (bytes []))) = ⊥
IsQuiet (ready i (Option.some (bytes (b ∷ bs)))) = HasNoNul (input i) × HasNoNul (b ∷ bs)

pub sent-append : (xs ys : List Effect) → sent (xs ++ ys) ≡ sent xs ++ sent ys
sent-append [] ys = refl
sent-append (write text ∷ xs) ys = rw (sent-append xs ys, append_assoc)
sent-append (print text ∷ xs) ys = sent-append xs ys
sent-append (close ∷ xs) ys = sent-append xs ys

pub shown-append : (xs ys : List Effect) → shown (xs ++ ys) ≡ shown xs ++ shown ys
shown-append [] ys = refl
shown-append (print text ∷ xs) ys = rw (shown-append xs ys, append_assoc)
shown-append (write text ∷ xs) ys = shown-append xs ys
shown-append (close ∷ xs) ys = shown-append xs ys

-- What a round has passed on.
abbrev Passes : Event → List Effect → Type 0
Passes select_error out = ⊥
Passes (ready i r) out = (sent out ≡ input i) × (shown out ≡ received r)

typed-Passes : (i : Option Input) → HasNoNul (input i) → Passes (ready i Option.none) (typed i)
unfolding typed
typed-Passes Option.none h = (refl, refl)
typed-Passes (Option.some eof) h = (refl, refl)
typed-Passes (Option.some (line text)) h = (append-nil (c_string text) ∙ c_string-all text h, refl)

round_traffic :
    (e : Event) → IsQuiet e → (out : List Effect) × (round e ≡ continue out) × Passes e out
unfolding round heard
round_traffic select_error q = absurd q
round_traffic (ready i Option.none) q = (typed i, refl, typed-Passes i q)
round_traffic (ready i (Option.some failed)) q = absurd q
round_traffic (ready i (Option.some (bytes []))) q = absurd q
round_traffic (ready i (Option.some (bytes (b ∷ bs)))) q =
    let (out, said) = typed-Passes i q.0 in
    (
      typed i ++ print (c_string (b ∷ bs)) ∷ [],
      refl,
      (
        sent-append (typed i) _ ∙ append-nil (sent (typed i)) ∙ out,
        shown-append (typed i) _
            ∙ rw (said, append-nil (c_string (b ∷ bs))) (c_string-all (b ∷ bs) q.1),
      ),
    )

-- The answers that end the loop.
abbrev pub Stops : Event → Type 0
Stops select_error = Unit {0}
Stops (ready i Option.none) = ⊥
Stops (ready i (Option.some failed)) = Unit {0}
Stops (ready i (Option.some (bytes []))) = Unit {0}
Stops (ready i (Option.some (bytes (b ∷ bs)))) = ⊥

stops : (e : Event) → Stops e → (out : List Effect) × (round e ≡ break out)
unfolding round heard
stops select_error h = ([], refl)
stops (ready i Option.none) h = absurd h
stops (ready i (Option.some failed)) h = (_, refl)
stops (ready i (Option.some (bytes []))) h = (_, refl)
stops (ready i (Option.some (bytes (b ∷ bs)))) h = absurd h

-- In rounds without a failure or the end of the connection, the client goes on. It sends all that is
-- typed, and shows all that it receives, each in its order, however the stream is cut into pieces.
-- (What is typed and received holds no NUL.) The first failure of `select`, failure of `read` or end of
-- the connection behind them ends it: it closes the socket, and that is its last call.
pub session_ends :
    (es later : List Event) (e : Event)
    → Each IsQuiet es
    → Stops e
    → (out last : List Effect) × (session es ≡ running out)
      × (sent out ≡ all_input es)
      × (shown out ≡ all_received es)
      × (round e ≡ break last)
      × (session (es ++ e ∷ later) ≡ returned (out ++ (last ++ close ∷ [])))
unfolding session after
session_ends [] later e q h =
    let (last, ends) = stops e h in ([], last, refl, refl, refl, ends, rw ends)
session_ends (select_error ∷ es) later e q h = absurd q.0
session_ends (ready i r ∷ es) later e q h =
    let (now, here, pass) = round_traffic (ready i r) q.0 in
    let (out, last, rest, sends, shows, ends, whole) = session_ends es later e q.1 h in
    (
      now ++ out,
      last,
      rw (here, rest),
      sent-append now out ∙ rw (pass.0, sends),
      shown-append now out ∙ rw (pass.1, shows),
      ends,
      rw (here, whole, append_assoc now out),
    )
