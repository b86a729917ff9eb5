-- ===== src/Sockets/Openings.antt =====
-- kadai2 and kadai4: every server opens its socket by a plan, and stops at the first call that fails.
use excc.Common.{ℕ, Bool, List, [], ◌∷◌}
use excc.Common.Text.{codes}
use excc.Sockets.{
  Kind, stream, dgram, Call, socket, setsockopt, bind, listen, connect, signal, Setup, opened,
  attempt,
}
use excc.Sockets.Servers
use excc.Sockets.Servers.{
  tells, echo_server, lower_echo_server, talk_server, chat_server, udp_chat_server, udp_receiver,
}
use excc.Sockets.Walks.{Walks, Walks-none, Walks-more}

pub data Server : Type 0 where
  echo lower_echo talk chat udp_chat receiver : Server

abbrev pub server : Server → Servers.Works → Setup
server echo = echo_server
server lower_echo = lower_echo_server
server talk = talk_server
server chat = chat_server
server udp_chat = udp_chat_server
server receiver = udp_receiver

abbrev pub kind : Server → Kind
kind udp_chat = dgram
kind receiver = dgram
kind _ = stream

abbrev pub port : Server → ℕ
port echo = 10120
port lower_echo = 10120
port talk = 10130
port chat = 10140
port udp_chat = 10140
port receiver = 10000

-- A server makes its socket, lets the port be used again, takes it, and listens, the last on streams only;
-- the receiver does not ask for the second.
abbrev pub plan : Server → List Call
plan receiver = socket dgram ∷ bind (port receiver) ∷ []
plan udp_chat = socket dgram ∷ setsockopt ∷ bind (port udp_chat) ∷ []
plan p = socket stream ∷ setsockopt ∷ bind (port p) ∷ listen 5 ∷ []

abbrev pub works : Server → Servers.Works → List Bool
works receiver w = w.socket_works ∷ w.bind_works ∷ []
works udp_chat w = w.socket_works ∷ w.setsockopt_works ∷ w.bind_works ∷ []
works p w = w.socket_works ∷ w.setsockopt_works ∷ w.bind_works ∷ w.listen_works ∷ []

-- What `perror` is given when a call fails.
abbrev pub name : Call → List ℕ
name (socket k) = codes "socket"
name setsockopt = codes "setsockopt"
name (bind p) = codes "bind"
name (listen n) = codes "listen"
name (connect a p) = codes "connect"
name signal = codes "signal failed."
name _ = []

abbrev pub told : Call → List Call
told c = tells (name c)

listener :
    (p : ℕ) (w : Servers.Works)
    → Walks told
        (socket stream ∷ setsockopt ∷ bind p ∷ listen 5 ∷ [])
        (w.socket_works ∷ w.setsockopt_works ∷ w.bind_works ∷ w.listen_works ∷ [])
        (attempt (socket stream) w.socket_works (told (socket stream)) (
          attempt setsockopt w.setsockopt_works (told setsockopt) (
            attempt
              (bind p)
              w.bind_works
              (told (bind p))
              (attempt (listen 5) w.listen_works (told (listen 5)) (opened [])))))
listener p w = Walks-more (socket stream) w.socket_works (
    Walks-more setsockopt w.setsockopt_works
      (Walks-more (bind p) w.bind_works (Walks-more (listen 5) w.listen_works (Walks-none))))

-- Every server makes the calls of its plan in their order. If all work it comes to its loop; if not, it
-- stops at the first that fails, tells its name, and exits with 1.
pub server_opens : (p : Server) (w : Servers.Works) → Walks told (plan p) (works p w) (server p w)
unfolding echo_server lower_echo_server talk_server chat_server udp_chat_server udp_receiver
server_opens echo w = listener 10120 w
server_opens lower_echo w = listener 10120 w
server_opens talk w = listener 10130 w
server_opens chat w = listener 10140 w
server_opens udp_chat w =
    Walks-more (socket dgram) w.socket_works
      (Walks-more setsockopt w.setsockopt_works (Walks-more (bind 10140) w.bind_works (Walks-none)))
server_opens receiver w =
    Walks-more (socket dgram) w.socket_works (Walks-more (bind 10000) w.bind_works (Walks-none))
