-- ===== src/Sockets.antt =====
-- The calls by which the programs open their sockets, up to their loops: in Sockets/Servers.antt those of
-- the servers, in Sockets/Clients.antt those of the clients. Whether a call works, and what address a
-- name has, is an argument.
pub mod Servers
pub mod Clients
pub mod Walks
pub mod Openings
pub mod Dialling
pub mod Meeting
mod Tests
use excc.Common.{ℕ, Bool, true, false, List, [], ◌∷◌, ◌++◌}

pub data Kind : Type 0 where
  stream dgram : Kind

-- The calls with an effect outside the process. `setsockopt` is for SO_REUSEADDR, `signal` for SIGALRM; an
-- address is a number.
pub data Call : Type 0 where
  socket : Kind → Call
  setsockopt : Call
  bind : (port : ℕ) → Call
  listen : (backlog : ℕ) → Call
  gethostbyname : (name : List ℕ) → Call
  inet_pton : (text : List ℕ) → Call
  connect : (address port : ℕ) → Call
  sendto : (address port : ℕ) (text : List ℕ) → Call
  signal : Call
  perror : (text : List ℕ) → Call
  error : (text : List ℕ) → Call
  print : (text : List ℕ) → Call
  close : Call

-- The program has come to its loop, or has called `exit`.
pub data Setup : Type 0 where
  opened : List Call → Setup
  exited : (code : ℕ) → List Call → Setup

unfoldable pub prepend : List Call → Setup → Setup
prepend out (opened more) = opened (out ++ more)
prepend out (exited code more) = exited code (out ++ more)

-- A call, what is done before `exit(1)` if it fails, and what comes next if it works.
unfoldable pub attempt : Call → Bool → List Call → Setup → Setup
unfolding prepend
attempt c true wrong next = prepend (c ∷ []) next
attempt c false wrong next = exited 1 (c ∷ wrong)
