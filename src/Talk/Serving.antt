-- ===== src/Talk/Serving.antt =====
-- kadai2/simple-talk-server.c: one client after the other, with one buffer.
use mathlib.Core.Option.{Option}
use excc.Common.{ℕ, ◌<◌, ◌≡◌, refl, ap, ◌∙◌, List, [], ◌∷◌, ◌++◌, length, replicate}
use excc.Common.Text.{codes, newline, IsPlain}
use excc.ChatServer.{bytes}
use excc.ChatClient.{write, print, close, line, eof}
use excc.Talk.{
  server, Memory, Event, ready, round, heard, break, named, waiting, before, greeting, serve,
  prepend,
}
use excc.Talk.Lines.{holding}
use excc.Talk.Sessions.{session-continue, session-break}
use excc.Talk.Stale.{session-eof, typed_alone}

-- The talk with the first client: a line is typed, and the client leaves.
abbrev pub one_line : List ℕ → List Event
one_line text =
    ready (Option.some (line (text ++ newline ∷ []))) Option.none
    ∷ ready Option.none (Option.some (bytes []))
    ∷ []

round-leaves :
    (m : Memory)
    → round server m (ready Option.none (Option.some (bytes [])))
      ≡ break m (print (codes "client disconnected\n") ∷ close ∷ [])
unfolding round heard
round-leaves m = refl

-- A line that is typed for one client stays in the buffer when that client has left. If the terminal's
-- input is at its end by then, it is sent to the next client too, in each round.
pub line_passes_on :
    (m : Memory) (text first second : List ℕ) (n : ℕ)
    → IsPlain text
    → 0 < length text
    → serve m (
        named first (one_line text)
        ∷ named second (replicate n (ready (Option.some eof) Option.none))
        ∷ [])
      ≡ waiting (holding m text) (
          greeting first
          ∷ write text
          ∷ print (codes "client disconnected\n")
          ∷ close
          ∷ greeting second
          ∷ replicate n (write text))
unfolding serve before prepend
line_passes_on m text first second n h some =
    let talk =
      session-continue server m (ready (Option.some (line (text ++ newline ∷ []))) Option.none)
        (ready Option.none (Option.some (bytes [])) ∷ []) (typed_alone server m text h some)
      ∙ ap (prepend (write text ∷ []))
          (session-break server (holding m text) _ [] (round-leaves (holding m text))) in
    rw (serve, talk, session-eof server m text n h some) refl
