-- ===== src/Datagrams.antt =====
-- kadai2/udp_send.c and udp_receive.c: a program that sends one datagram, and one that shows what it gets.
-- `inet_ntop`, the address as text, is a parameter.
pub mod Showing
mod Tests
use mathlib.Core.Option.{Option}
use excc.Common.{ℕ, ◌+◌, ◌*◌, List, [], ◌∷◌, ◌++◌}
use excc.Common.Text.{codes}
use excc.Sockets.{dgram, Call, socket, gethostbyname, sendto, close, Setup, attempt}
use excc.Sockets.Servers.{tells, datagram_port}
use excc.Sockets.Clients.{Works, usage, unknown, resolve}

-- `main` of udp_send.c; `message` is argv[2].
unfoldable pub udp_send : (program : List ℕ) (args : List (List ℕ)) → Works → Setup
udp_send program (host ∷ message ∷ []) w =
    attempt (socket dgram) w.socket_works (tells (codes "socket")) (
      resolve (gethostbyname host) w.address (unknown host)
        (λ a. Setup.exited 0 (sendto a datagram_port message ∷ close ∷ [])))
udp_send program args w = usage program (codes " hostname message")

-- `sender` of udp_receive.c. The two bytes of the port lie in memory in the order of the network.
pub record Sender : Type 0 where
  pub s_addr : ℕ
  pub high : ℕ
  pub low : ℕ

-- `sender.sin_port`, as a machine reads it that takes the first byte for the low one.
abbrev pub sin_port : Sender → ℕ
sin_port sender = sender.high + 256 * sender.low

-- `recvfrom` fails, or stores bytes of a datagram in `buf`.
pub data Received : Type 0 where
  failed : Received
  datagram : Sender → List ℕ → Received

-- `write` to the terminal, and `printf` of " from [%s:%d]\n".
pub data Shown : Type 0 where
  write : (bytes : List ℕ) → Shown
  from : (senderstr : List ℕ) (port : ℕ) → Shown

-- The receiver still waits, or has told `perror` and called `exit(1)`.
pub data Ending : Type 0 where
  waiting : List Shown → Ending
  exited : (code : ℕ) → List Shown → Ending

pub prepend : List Shown → Ending → Ending
prepend out (waiting more) = waiting (out ++ more)
prepend out (exited code more) = exited code (out ++ more)

-- The loop of udp_receive.c.
pub udp_receive : (inet_ntop : ℕ → List ℕ) → List Received → Ending
udp_receive inet_ntop [] = waiting []
udp_receive inet_ntop (failed ∷ rs) = exited 1 []
udp_receive inet_ntop (datagram sender bytes ∷ rs) =
    prepend (write bytes ∷ from (inet_ntop sender.s_addr) (sin_port sender) ∷ [])
      (udp_receive inet_ntop rs)
