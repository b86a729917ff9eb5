-- ===== src/Sockets/Clients.antt =====
-- The clients of kadai2, kadai3 and kadai4 before their loops. `program` is argv[0], and `args` are the
-- arguments behind it.
use mathlib.Core.Option.{Option}
use excc.Common.{ℕ, Bool, true, false, List, [], ◌∷◌, ◌++◌}
use excc.Common.Text.{codes}
use excc.Sockets.{
  stream, dgram, Call, socket, gethostbyname, inet_pton, connect, signal, perror, error, print,
  close, Setup, opened, exited, prepend, attempt,
}
use excc.Sockets.Servers.{tells, talk_port, chat_port}

-- Which calls work, and the address that `gethostbyname` or `inet_pton` gives.
pub record Works : Type 0 where
  pub socket_works : Bool
  pub address : Option ℕ
  pub connect_works : Bool
  pub signal_works : Bool

abbrev pub usage : (program arguments : List ℕ) → Setup
usage program arguments =
    exited 1 (error (codes "Usage: " ++ program ++ arguments ++ codes "\n") ∷ [])

abbrev pub unknown : (host : List ℕ) → List Call
unknown host = error (codes "unknown host " ++ host ++ codes "\n") ∷ []

-- A call that looks for an address, and what comes next with it.
unfoldable pub resolve : Call → Option ℕ → (wrong : List Call) → (ℕ → Setup) → Setup
unfolding attempt prepend
resolve c Option.none wrong next = attempt c false wrong (next 0)
resolve c (Option.some a) wrong next = attempt c true wrong (next a)

-- kadai2/echoclient.c
unfoldable pub echo_client : (program : List ℕ) (args : List (List ℕ)) → Works → Setup
echo_client program (host ∷ []) w =
    attempt (socket stream) w.socket_works (tells (codes "socket")) (
      resolve (gethostbyname host) w.address (unknown host)
        (λ a. attempt (connect a 10120) w.connect_works (tells (codes "connect")) (opened [])))
echo_client program args w = usage program (codes " hostname")

-- kadai2/simple-talk-client.c
unfoldable pub talk_client : (program : List ℕ) (args : List (List ℕ)) → Works → Setup
talk_client program (host ∷ []) w =
    attempt (socket stream) w.socket_works (tells (codes "socket")) (
      resolve (gethostbyname host) w.address (unknown host)
        (λ a. attempt (connect a talk_port) w.connect_works (tells (codes "connect")) (opened [])))
talk_client program args w = usage program (codes " hostname")

-- kadai3/simple-talk-client.c
unfoldable pub timed_talk_client : (program : List ℕ) (args : List (List ℕ)) → Works → Setup
timed_talk_client program (host ∷ []) w =
    attempt (socket stream) w.socket_works (tells (codes "socket")) (
      resolve (gethostbyname host) w.address (unknown host) (λ a.
        attempt (connect a talk_port) w.connect_works (tells (codes "connect"))
          (attempt signal w.signal_works (tells (codes "signal failed.")) (opened []))))
timed_talk_client program args w = usage program (codes " hostname")

abbrev pub connected_to : List ℕ → Call
connected_to server_ip = print (codes "Connected to server " ++ server_ip ++ codes ":10140\n")

-- What `inet_pton` leaves in an address that was set to 0.
abbrev pub or_zero : Option ℕ → ℕ
or_zero Option.none = 0
or_zero (Option.some a) = a

-- kadai4/chatclient.c, where what `inet_pton` returns is not looked at.
unfoldable pub chat_client : (program : List ℕ) (args : List (List ℕ)) → Works → Setup
chat_client program (server_ip ∷ username ∷ []) w =
    attempt (socket stream) w.socket_works (tells (codes "socket")) (
      attempt (inet_pton server_ip) true [] (
        attempt (connect (or_zero w.address) chat_port) w.connect_works
          (perror (codes "connect") ∷ close ∷ []) (opened (connected_to server_ip ∷ []))))
chat_client program args w = usage program (codes " <server_ip> <username>")

abbrev pub invalid : (server_ip : List ℕ) → List Call
invalid server_ip = error (codes "Invalid server IP: " ++ server_ip ++ codes "\n") ∷ close ∷ []

-- kadai4/chatclient-udp.c
unfoldable pub udp_chat_client : (program : List ℕ) (args : List (List ℕ)) → Works → Setup
udp_chat_client program (server_ip ∷ username ∷ []) w =
    attempt (socket dgram) w.socket_works (tells (codes "socket")) (
      resolve (inet_pton server_ip) w.address (invalid server_ip) (λ a.
        attempt (connect a chat_port) w.connect_works (perror (codes "connect") ∷ close ∷ [])
          (opened (connected_to server_ip ∷ []))))
udp_chat_client program args w = usage program (codes " <server_ip> <username>")
