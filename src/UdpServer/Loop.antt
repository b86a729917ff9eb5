-- ===== src/UdpServer/Loop.antt =====
-- kadai4/chatserver-udp.c: the main loop.
use mathlib.Core.Option.{Option}
use excc.Common.{ℕ, List, [], ◌∷◌, length}
use excc.Common.Outcome.{Outcome, running, exited, loop}
use excc.Common.Text.{c_string}
use excc.ChatServer.{ClientStatus, none, connecting, connected}
use excc.UdpServer.{
  Address, ClientList, Effect, client, find_client_by_addr, new_client, receive_username,
  handle_massage,
}

-- What the kernel answers in a round: `select` fails, times out, or says that a datagram is there;
-- then `recvfrom` fails, or stores the bytes of the datagram (none of an empty one).
pub data Answer : Type 0 where
  select_error : Answer
  timeout : Answer
  recv_error : Answer
  datagram : (addr : Address) (bytes : List ℕ) → Answer

-- What is done with a datagram of a client in the table, by its status.
unfoldable pub serve_status : ClientStatus → ClientList → ℕ → List ℕ → ℕ → ClientList × List Effect
serve_status none cl i message message_length = (cl, [])
serve_status connecting cl i message message_length = receive_username cl i message
serve_status connected cl i message message_length = handle_massage cl i message message_length

-- What is done with a datagram, by the result of `find_client_by_addr`.
unfoldable pub serve : Option ℕ → ClientList → Address → List ℕ → ℕ → ClientList × List Effect
serve Option.none cl addr message message_length = new_client cl addr
serve (Option.some i) cl addr message message_length =
    serve_status (client cl i).status cl i message message_length

-- One round of the `while` in `main`.
unfoldable pub round : ClientList → Answer → Outcome ClientList Effect
unfolding serve serve_status
round cl select_error = exited 1
round cl timeout = running cl []
round cl recv_error = running cl []
round cl (datagram addr []) = running cl []
round cl (datagram addr (b ∷ bs)) =
    let (cl', out) =
      serve (find_client_by_addr cl addr) cl addr (c_string (b ∷ bs)) (length (b ∷ bs)) in
    running cl' out

-- The loop over a sequence of answers.
unfoldable pub run : ClientList → List Answer → Outcome ClientList Effect
unfolding loop round
run = loop round
