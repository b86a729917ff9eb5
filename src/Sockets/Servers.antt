-- ===== src/Sockets/Servers.antt =====
-- The servers of kadai2 and kadai4 before their loops. All listen at any address of the host.
use excc.Common.{ℕ, Bool, List, [], ◌∷◌}
use excc.Common.Text.{codes}
use excc.ChatServer.{max_clients}
use excc.Sockets.{
  stream, dgram, Call, socket, setsockopt, bind, listen, perror, Setup, opened, attempt,
}

-- Which calls work.
pub record Works : Type 0 where
  pub socket_works : Bool
  pub setsockopt_works : Bool
  pub bind_works : Bool
  pub listen_works : Bool

abbrev pub tells : List ℕ → List Call
tells text = perror text ∷ []

-- kadai2/echoserver.c
unfoldable pub echo_server : Works → Setup
echo_server w = attempt (socket stream) w.socket_works (tells (codes "socket")) (
    attempt setsockopt w.setsockopt_works (tells (codes "setsockopt")) (
      attempt (bind 10120) w.bind_works (tells (codes "bind"))
        (attempt (listen 5) w.listen_works (tells (codes "listen")) (opened []))))

-- kadai2/lowerechoserver.c
unfoldable pub lower_echo_server : Works → Setup
lower_echo_server w = attempt (socket stream) w.socket_works (tells (codes "socket")) (
    attempt setsockopt w.setsockopt_works (tells (codes "setsockopt")) (
      attempt (bind 10120) w.bind_works (tells (codes "bind"))
        (attempt (listen 5) w.listen_works (tells (codes "listen")) (opened []))))

-- kadai2/simple-talk-server.c; `max_fd` is the backlog.
abbrev pub talk_port : ℕ
talk_port = 10130

abbrev pub max_fd : ℕ
max_fd = 5

unfoldable pub talk_server : Works → Setup
talk_server w = attempt (socket stream) w.socket_works (tells (codes "socket")) (
    attempt setsockopt w.setsockopt_works (tells (codes "setsockopt")) (
      attempt (bind talk_port) w.bind_works (tells (codes "bind"))
        (attempt (listen max_fd) w.listen_works (tells (codes "listen")) (opened []))))

-- kadai4/chatserver.c
abbrev pub chat_port : ℕ
chat_port = 10140

unfoldable pub chat_server : Works → Setup
chat_server w = attempt (socket stream) w.socket_works (tells (codes "socket")) (
    attempt setsockopt w.setsockopt_works (tells (codes "setsockopt")) (
      attempt (bind chat_port) w.bind_works (tells (codes "bind"))
        (attempt (listen max_clients) w.listen_works (tells (codes "listen")) (opened []))))

-- kadai4/chatserver-udp.c
unfoldable pub udp_chat_server : Works → Setup
udp_chat_server w = attempt (socket dgram) w.socket_works (tells (codes "socket")) (
    attempt setsockopt w.setsockopt_works (tells (codes "setsockopt"))
      (attempt (bind chat_port) w.bind_works (tells (codes "bind")) (opened [])))

-- kadai2/udp_receive.c
abbrev pub datagram_port : ℕ
datagram_port = 10000

unfoldable pub udp_receiver : Works → Setup
udp_receiver w =
    attempt (socket dgram) w.socket_works (tells (codes "socket"))
      (attempt (bind datagram_port) w.bind_works (tells (codes "bind")) (opened []))
