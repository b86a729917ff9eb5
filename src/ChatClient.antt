-- ===== src/ChatClient.antt =====
-- kadai4/chatclient.c: the TCP chat client after it has connected: the two answers that it waits for,
-- and the loop that passes lines to the server and what the server says to the terminal. What the
-- kernel answers to `read`, `write`, `select` and `fgets` is an argument.
pub mod Answers
pub mod Session
pub mod Joining
mod Tests
use mathlib.Core.Option.{Option}
use excc.Common.{
  ℕ, suc, ◌+◌, ◌-◌, Bool, true, false, List, [], ◌∷◌, ◌++◌, if◌then◌else◌, length, set, take, drop,
  replicate,
}
use excc.Common.Text.{codes, newline, c_string, str_eq}
use excc.ChatServer.{ReadResult, failed, bytes, ack_msg, username_ack_msg, max_buffer_size}

-- The calls with an effect: on the socket, and on the terminal.
pub data Effect : Type 0 where
  write : (bytes : List ℕ) → Effect
  print : (text : List ℕ) → Effect
  close : Effect

-- The memory of `buffer` once `read` has stored its bytes there.
abbrev pub stored : List ℕ → List ℕ → List ℕ
stored buffer received = received ++ drop (length received) buffer

-- buffer[strlen(expected)] = '\0', then strcmp(buffer, expected) == 0
pub is_answer : List ℕ → List ℕ → Bool
is_answer expected buffer = str_eq (c_string (set buffer (length expected) 0)) expected

-- What `strncpy` and the two stores behind it leave in the buffer, and what is then written.
pub name_line : List ℕ → List ℕ
name_line username = take (max_buffer_size - 1) username ++ newline ∷ []

pub name_buffer : List ℕ → List ℕ
name_buffer username =
    name_line username ++ replicate (max_buffer_size - length (name_line username)) 0

-- The client goes on to its loop, or has closed the socket and called `exit(EXIT_FAILURE)`.
pub data Handshake : Type 0 where
  accepted : List Effect → Handshake
  handle_error : List Effect → Handshake

-- After the first answer: the name is sent, and the second answer read. `written` says whether
-- `write` succeeds.
pub register_name : (username : List ℕ) (written : Bool) → ReadResult → Handshake
register_name username false answer = handle_error (write (name_line username) ∷ close ∷ [])
register_name username true failed = handle_error (write (name_line username) ∷ close ∷ [])
register_name username true (bytes []) = handle_error (write (name_line username) ∷ close ∷ [])
register_name username true (bytes (b ∷ bs)) =
    if is_answer username_ack_msg (stored (name_buffer username) (b ∷ bs))
    then accepted (write (name_line username) ∷ [])
    else handle_error (write (name_line username) ∷ close ∷ [])

-- `buffer` is what the uninitialised buffer holds; the first answer decides whether to go on.
pub handshake : (buffer username : List ℕ) → ReadResult → (written : Bool) → ReadResult → Handshake
handshake buffer username failed written answer = handle_error (close ∷ [])
handshake buffer username (bytes []) written answer = handle_error (close ∷ [])
handshake buffer username (bytes (b ∷ bs)) written answer =
    let next = register_name username written answer in
    if is_answer ack_msg (stored buffer (b ∷ bs)) then next else handle_error (close ∷ [])

-- What `fgets` returns: NULL, or a line of at most 127 bytes.
pub data Input : Type 0 where
  eof : Input
  line : List ℕ → Input

-- A round's answers: `select` fails, or says what can be read; none where a descriptor is not ready.
pub data Event : Type 0 where
  select_error : Event
  ready : Option Input → Option ReadResult → Event

pub data Round : Type 0 where
  continue : List Effect → Round
  break : List Effect → Round

pub typed : Option Input → List Effect
typed Option.none = []
typed (Option.some eof) = []
typed (Option.some (line text)) = write (c_string text) ∷ []

pub heard : List Effect → Option ReadResult → Round
heard out Option.none = continue out
heard out (Option.some failed) = break (out ++ print (codes "Server disconnected\n") ∷ [])
heard out (Option.some (bytes [])) = break (out ++ print (codes "Server disconnected\n") ∷ [])
heard out (Option.some (bytes (b ∷ bs))) = continue (out ++ print (c_string (b ∷ bs)) ∷ [])

-- One round of the `while` in `main`.
pub round : Event → Round
round select_error = break []
round (ready input answer) = heard (typed input) answer

-- The client still runs, or has returned 0 from `main`.
pub data Ending : Type 0 where
  running : List Effect → Ending
  returned : List Effect → Ending

pub after : Round → Ending → Ending
after (continue out) (running more) = running (out ++ more)
after (continue out) (returned more) = returned (out ++ more)
after (break out) e = returned (out ++ close ∷ [])

-- The loop over a sequence of answers.
pub session : List Event → Ending
session [] = running []
session (e ∷ es) = after (round e) (session es)
