-- ===== src/Talk.antt =====
-- kadai2/simple-talk-server.c and simple-talk-client.c: two programs that pass lines between the
-- terminal and one peer, once they are connected. Both have one buffer, into which `fgets` and `read`
-- store in turn; its memory is kept from round to round. What the kernel answers is an argument.
pub mod Lines
pub mod Sessions
pub mod Rounds
pub mod Stale
pub mod Serving
mod Tests
use mathlib.Core.Option.{Option}
use excc.Common.{
  ℕ, zero, suc, Bool, false, List, [], ◌∷◌, ◌++◌, if◌then◌else◌, ◌==◌, length, set, get_or,
}
use excc.Common.Text.{codes, newline, c_string}
use excc.ChatServer.{ReadResult, failed, bytes}
use excc.ChatClient.{Effect, write, print, close, Input, eof, line, stored}

pub data Program : Type 0 where
  server client : Program

-- `buffer` is the memory from the buffer's first byte on, with what lies behind its 128 bytes;
-- `before` is the byte in front of it.
pub record Memory : Type 0 where
  pub before : ℕ
  pub buffer : List ℕ

-- `select` gives 0 or fails; or it says what can be read.
pub data Event : Type 0 where
  unready : Event
  ready : Option Input → Option ReadResult → Event

-- NULL leaves the buffer as it is.
unfoldable pub fgets : Memory → Input → Memory
fgets m eof = m
fgets m (line text) = record m { buffer = stored m.buffer (text ++ 0 ∷ []) }

-- The test of buffer[strlen(buffer) - 1] and the store there, by strlen(buffer).
unfoldable pub strip_last : ℕ → Memory → Memory
strip_last zero m = if m.before == newline then record m { before = 0 } else m
strip_last (suc last) m =
    if get_or m.buffer last 0 == newline then record m { buffer = set m.buffer last 0 } else m

unfoldable pub strip_newline : Memory → Memory
strip_newline m = strip_last (length (c_string m.buffer)) m

pub data Round : Type 0 where
  continue : Memory → List Effect → Round
  break : Memory → List Effect → Round

-- The other side, as it is called on the terminal.
abbrev pub peer : Program → List ℕ
peer server = codes "client"
peer client = codes "server"

-- `read` does not end what it stores by a NUL.
unfoldable pub heard : Program → Memory → List Effect → Option ReadResult → Round
heard p m out Option.none = continue m out
heard p m out (Option.some failed) = break m (out ++ close ∷ [])
heard p m out (Option.some (bytes [])) =
    break m (out ++ print (peer p ++ codes " disconnected\n") ∷ close ∷ [])
heard p m out (Option.some (bytes (b ∷ bs))) =
    let memory = stored m.buffer (b ∷ bs) in
    continue (record m { buffer = memory })
      (out ++ print (peer p ++ codes ": " ++ c_string memory ++ codes "\n") ∷ [])

-- The server leaves a round at an empty line.
abbrev pub skips : Program → Memory → Bool
skips server m = get_or m.buffer 0 0 == newline
skips client m = false

unfoldable pub typed : Program → Memory → Input → Option ReadResult → Round
typed p m i r =
    let filled = fgets m i in
    let stripped = strip_newline filled in
    if skips p filled
    then continue filled []
    else heard p stripped (write (c_string stripped.buffer) ∷ []) r

unfoldable pub round : Program → Memory → Event → Round
round p m unready = continue m []
round p m (ready Option.none r) = heard p m [] r
round p m (ready (Option.some i) r) = typed p m i r

-- The talk goes on, or has been left by `break`.
pub data Ending : Type 0 where
  talking : Memory → List Effect → Ending
  ended : Memory → List Effect → Ending

unfoldable pub prepend : List Effect → Ending → Ending
prepend out (talking m more) = talking m (out ++ more)
prepend out (ended m more) = ended m (out ++ more)

-- The loop over a sequence of answers.
unfoldable pub session : Program → Memory → List Event → Ending
session p m [] = talking m []
session p m (e ∷ es) = elim (round p m e) [
  | continue next out ↦ prepend out (session p next es)
  | break last out ↦ ended last out
]

-- `accept` of the server fails; or it gives a connection. Then `gethostbyaddr` gives NULL, or a name, and
-- the talk begins.
pub data Accepted : Type 0 where
  refused : Accepted
  nameless : Accepted
  named : (h_name : List ℕ) → List Event → Accepted

-- The server talks or waits for a client, has called `exit`, or has gone through a NULL pointer.
pub data Served : Type 0 where
  waiting : Memory → List Effect → Served
  exited : (code : ℕ) → List Effect → Served
  crashed : List Effect → Served

unfoldable pub before : List Effect → Served → Served
before out (waiting m more) = waiting m (out ++ more)
before out (exited code more) = exited code (out ++ more)
before out (crashed more) = crashed (out ++ more)

abbrev pub greeting : List ℕ → Effect
greeting h_name = print (codes "[" ++ h_name ++ codes "]\n")

-- The server's outer loop. All talks have the one buffer.
unfoldable pub serve : Memory → List Accepted → Served
serve m [] = waiting m []
serve m (refused ∷ later) = exited 1 []
serve m (nameless ∷ later) = crashed []
serve m (named h_name events ∷ later) =
    before (greeting h_name ∷ []) (elim (session server m events) [
      | talking last out ↦ waiting last out
      | ended last out ↦ before out (serve last later)
    ])
