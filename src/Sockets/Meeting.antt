-- ===== src/Sockets/Meeting.antt =====
-- kadai2, kadai3 and kadai4: where a client and its server have both come to their loops, the client has
-- called the server. `Sock` is what the calls that work make of a socket.
use mathlib.Core.Option.{Option}
use excc.Common.{ℕ, ◌≡◌, refl, sym, ◌∙◌, inl, inr, Bool, true, false, List, [], ◌∷◌, get_or, arith}
use excc.Sockets.{Kind, stream, Call, socket, bind, listen, connect, opened}
use excc.Sockets.Servers
use excc.Sockets.Clients
use excc.Sockets.Clients.{usage, or_zero}
use excc.Sockets.Walks.{Walks-opened}
use excc.Sockets.Openings.{server, plan, server_opens}
use excc.Sockets.Dialling.{
  Client, echo, talk, timed_talk, chat, udp_chat, client, server_of, path, client-Opens,
}

pub record Sock : Type 0 where
  pub made : Option Kind
  pub bound : Option ℕ
  pub listening : Bool
  pub peer : Option (ℕ × ℕ)

abbrev pub does : Call → Sock → Sock
does (socket k) s = record s { made = Option.some k }
does (bind p) s = record s { bound = Option.some p }
does (listen n) s = record s { listening = true }
does (connect a p) s = record s { peer = Option.some (a, p) }
does _ s = s

abbrev pub socket_after : List Call → Sock → Sock
socket_after [] s = s
socket_after (c ∷ cs) s = socket_after cs (does c s)

abbrev pub no_socket : Sock
no_socket = record {
  made = Option.none;
  bound = Option.none;
  listening = false;
  peer = Option.none;
}

abbrev pub is_stream : Option Kind → Bool
is_stream (Option.some stream) = true
is_stream _ = false

-- The sockets are of one kind, one is connected to the port that the other is bound to at the address, and
-- if they are streams, the other listens.
abbrev pub Calls : (address : ℕ) (mine its : Sock) → Type 0
Calls address mine its =
    (mine.made ≡ its.made)
    × ((p : ℕ) × (its.bound ≡ Option.some p) × (mine.peer ≡ Option.some (address, p)))
    × (its.listening ≡ is_stream its.made)

path-Calls :
    (c : Client) (host : List ℕ) (address : ℕ)
    → Calls address
        (socket_after (path c host address) no_socket)
        (socket_after (plan (server_of c)) no_socket)
path-Calls echo host address = (refl, (10120, refl, refl), refl)
path-Calls talk host address = (refl, (10130, refl, refl), refl)
path-Calls timed_talk host address = (refl, (10130, refl, refl), refl)
path-Calls chat host address = (refl, (10140, refl, refl), refl)
path-Calls udp_chat host address = (refl, (10140, refl, refl), refl)

usage-opened :
    (program arguments : List ℕ) (cs : List Call) → usage program arguments ≡ opened cs → ⊥
usage-opened program arguments cs e = ground arith

client-path :
    (c : Client) (program : List ℕ) (args : List (List ℕ)) (w : Clients.Works) (cs : List Call)
    → client c program args w ≡ opened cs
    → cs ≡ path c (get_or args 0 []) (or_zero w.address)
client-path c program args w cs e = elim (client-Opens c program args w) [
  | inl (right, walks) ↦ Walks-opened walks e
  | inr (wrong, told) ↦ absurd (usage-opened program _ cs (sym told ∙ e))
]

-- If a client and its server have both come to their loops, the client's socket is connected to the
-- port that the server's is bound to, at the address that was found (0, if the TCP chat client was
-- given none); both are of one kind, and the server listens if and only if they are streams.
pub client_meets_server :
    (c : Client) (program : List ℕ) (args : List (List ℕ)) (w : Clients.Works) (v : Servers.Works)
    (cs ss : List Call)
    → client c program args w ≡ opened cs
    → server (server_of c) v ≡ opened ss
    → Calls (or_zero w.address) (socket_after cs no_socket) (socket_after ss no_socket)
client_meets_server c program args w v cs ss mine its =
    rw (client-path c program args w cs mine, Walks-opened (server_opens (server_of c) v) its)
      (path-Calls c (get_or args 0 []) (or_zero w.address))
