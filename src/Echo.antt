-- ===== src/Echo.antt =====
-- kadai2/echoserver.c and lowerechoserver.c: the loops of the echo servers over the clients that connect
-- and over what each sends. The second puts what it has read in lower case first. What `accept`,
-- `gethostbyaddr` and `read` give is an argument.
pub mod Answers
pub mod Client
pub mod Serving
pub mod Exchange
mod Tests
use excc.Common.{
  ℕ, zero, suc, ◌+◌, Bool, true, false, ◌&&◌, List, [], ◌∷◌, ◌++◌, if◌then◌else◌, leb, length, take,
}
use excc.Common.Text.{codes}
use excc.ChatServer.{ReadResult, failed, bytes}
use excc.ChatClient.{Effect, write, print, close, stored}

pub data Program : Type 0 where
  echo lower_echo : Program

abbrev pub is_upper : ℕ → Bool
is_upper c = leb b'A' c && leb c b'Z'

-- One character; `tolower` adds 32 to a capital letter.
abbrev pub lower : ℕ → ℕ
lower c = if is_upper c then c + 32 else c

-- The loop runs to the first NUL of the memory that it is given.
pub tolower_string : List ℕ → List ℕ
tolower_string [] = []
tolower_string (zero ∷ m) = zero ∷ m
tolower_string (suc c ∷ m) = lower (suc c) ∷ tolower_string m

abbrev pub convert : Program → List ℕ → List ℕ
convert echo m = m
convert lower_echo m = tolower_string m

-- The memory from `rbuf` on, with what lies behind its 1024 bytes, and what has been done.
pub data Round : Type 0 where
  continue : (rbuf : List ℕ) → List Effect → Round
  break : (rbuf : List ℕ) → List Effect → Round

-- A failure of `read` is told to the operator only.
pub round : Program → List ℕ → ReadResult → Round
round p rbuf failed = continue rbuf []
round p rbuf (bytes []) = break (convert p rbuf) (write [] ∷ close ∷ [])
round p rbuf (bytes (b ∷ bs)) =
    let memory = convert p (stored rbuf (b ∷ bs)) in
    continue memory (write (take (length (b ∷ bs)) memory) ∷ [])

pub data Ending : Type 0 where
  serving : (rbuf : List ℕ) → List Effect → Ending
  ended : (rbuf : List ℕ) → List Effect → Ending

pub prepend : List Effect → Ending → Ending
prepend out (serving rbuf more) = serving rbuf (out ++ more)
prepend out (ended rbuf more) = ended rbuf (out ++ more)

-- The inner loop over the answers of `read`.
pub connection : Program → List ℕ → List ReadResult → Ending
connection p rbuf [] = serving rbuf []
connection p rbuf (r ∷ rs) = elim (round p rbuf r) [
  | continue next out ↦ prepend out (connection p next rs)
  | break last out ↦ ended last out
]

-- `accept` fails; or it gives a connection. Then `gethostbyaddr` gives NULL, or a name, and `read` its
-- answers.
pub data Accepted : Type 0 where
  refused : Accepted
  nameless : Accepted
  named : (h_name : List ℕ) → List ReadResult → Accepted

-- The server still serves or waits for a client, has called `exit`, or has gone through a NULL pointer.
pub data Served : Type 0 where
  waiting : (rbuf : List ℕ) → List Effect → Served
  exited : (code : ℕ) → List Effect → Served
  crashed : List Effect → Served

pub before : List Effect → Served → Served
before out (waiting rbuf more) = waiting rbuf (out ++ more)
before out (exited code more) = exited code (out ++ more)
before out (crashed more) = crashed (out ++ more)

abbrev pub greeting : List ℕ → Effect
greeting h_name = print (codes "[" ++ h_name ++ codes "]\n")

abbrev pub closed : Effect
closed = print (codes "closed\n")

-- The outer loop over the answers of `accept`.
pub serve : Program → List ℕ → List Accepted → Served
serve p rbuf [] = waiting rbuf []
serve p rbuf (refused ∷ later) = exited 2 []
serve p rbuf (nameless ∷ later) = crashed []
serve p rbuf (named h_name reads ∷ later) =
    before (greeting h_name ∷ []) (elim (connection p rbuf reads) [
      | serving last out ↦ waiting last out
      | ended last out ↦ before (out ++ closed ∷ []) (serve p last later)
    ])
