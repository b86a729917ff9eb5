-- ===== src/Sockets/Tests.antt =====
-- The openings of kadai2, kadai3 and kadai4 at concrete answers.
use mathlib.Core.Option.{Option}
use excc.Common.{◌≡◌, refl, true, false, List, [], ◌∷◌}
use excc.Common.Text.{codes}
use excc.Sockets.{
  Call, stream, socket, setsockopt, bind, listen, gethostbyname, connect, signal, perror, exited,
  prepend, attempt,
}
use excc.Sockets.Servers
use excc.Sockets.Servers.{chat_server, talk_server}
use excc.Sockets.Clients
use excc.Sockets.Clients.{chat_client, timed_talk_client}
use excc.Sockets.Dialling.{timed_talk, chat, Opens, client-Opens}
use excc.Sockets.Meeting.{Calls, socket_after, no_socket, client_meets_server}

-- The port is taken.
abbrev port_taken : Servers.Works
port_taken = record {
  socket_works = true;
  setsockopt_works = true;
  bind_works = false;
  listen_works = true;
}

taken :
    chat_server port_taken
    ≡ exited 1 (socket stream ∷ setsockopt ∷ bind 10140 ∷ perror (codes "bind") ∷ [])
unfolding chat_server attempt prepend
taken = refl

abbrev up : Servers.Works
up = record { socket_works = true; setsockopt_works = true; bind_works = true; listen_works = true }

abbrev reachable : Clients.Works
reachable = record {
  socket_works = true;
  address = Option.some 1;
  connect_works = true;
  signal_works = true;
}

client-Opens_example :
    Opens chat (codes "chatclient") (codes "127.0.0.1" ∷ codes "bob" ∷ []) reachable
client-Opens_example =
    client-Opens chat (codes "chatclient") (codes "127.0.0.1" ∷ codes "bob" ∷ []) reachable

-- What the client of kadai3 and the talk server do.
abbrev mine : List Call
mine = socket stream ∷ gethostbyname (codes "host") ∷ connect 1 10130 ∷ signal ∷ []

abbrev its : List Call
its = socket stream ∷ setsockopt ∷ bind 10130 ∷ listen 5 ∷ []

client_meets_server_example : Calls 1 (socket_after mine no_socket) (socket_after its no_socket)
unfolding timed_talk_client talk_server attempt prepend Clients.resolve
client_meets_server_example =
    client_meets_server timed_talk (codes "client") (codes "host" ∷ []) reachable up mine its refl
      refl
