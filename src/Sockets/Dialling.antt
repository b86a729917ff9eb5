-- ===== src/Sockets/Dialling.antt =====
-- kadai2, kadai3 and kadai4: every client opens its socket by a plan too, and calls its server.
use excc.Common.{ℕ, ◌≡◌, ◌≢◌, ◌⊎◌, inl, inr, refl, Bool, true, List, [], ◌∷◌, length, get_or, arith}
use excc.Common.Text.{codes}
use excc.Sockets.{
  Kind, stream, dgram, Call, socket, gethostbyname, inet_pton, connect, signal, perror, print,
  close, Setup, attempt,
}
use excc.Sockets.Clients
use excc.Sockets.Clients.{
  usage, unknown, invalid, resolve, or_zero, connected_to, echo_client, talk_client,
  timed_talk_client, chat_client, udp_chat_client,
}
use excc.Sockets.Walks.{is_some, Walks, Walks-none, Walks-more, Walks-address}
use excc.Sockets.Openings.{Server, kind, port, told}

pub data Client : Type 0 where
  echo talk timed_talk chat udp_chat : Client

abbrev pub client : Client → (program : List ℕ) (args : List (List ℕ)) → Clients.Works → Setup
client echo = echo_client
client talk = talk_client
client timed_talk = timed_talk_client
client chat = chat_client
client udp_chat = udp_chat_client

-- The server that a client is for. (The echo client may speak to either.)
abbrev pub server_of : Client → Server
server_of echo = Server.echo
server_of talk = Server.talk
server_of timed_talk = Server.talk
server_of chat = Server.chat
server_of udp_chat = Server.udp_chat

-- The names of the arguments that a client takes, and their number.
abbrev pub arguments : Client → List ℕ
arguments chat = codes " <server_ip> <username>"
arguments udp_chat = codes " <server_ip> <username>"
arguments _ = codes " hostname"

abbrev pub arity : Client → ℕ
arity chat = 2
arity udp_chat = 2
arity _ = 1

-- How a client finds an address, and what it does once it has connected.
abbrev pub finds : Client → List ℕ → Call
finds chat host = inet_pton host
finds udp_chat host = inet_pton host
finds _ host = gethostbyname host

abbrev pub greets : Client → List ℕ → List Call
greets timed_talk host = signal ∷ []
greets chat host = connected_to host ∷ []
greets udp_chat host = connected_to host ∷ []
greets _ host = []

abbrev pub path : Client → (host : List ℕ) (address : ℕ) → List Call
path c host address =
    socket (kind (server_of c))
    ∷ finds c host
    ∷ connect address (port (server_of c))
    ∷ greets c host

-- Which of these work: the TCP chat client goes on where its `inet_pton` fails.
abbrev pub goes : Client → Clients.Works → List Bool
goes timed_talk w = w.socket_works ∷ is_some w.address ∷ w.connect_works ∷ w.signal_works ∷ []
goes chat w = w.socket_works ∷ true ∷ w.connect_works ∷ true ∷ []
goes udp_chat w = w.socket_works ∷ is_some w.address ∷ w.connect_works ∷ true ∷ []
goes _ w = w.socket_works ∷ is_some w.address ∷ w.connect_works ∷ []

-- What is done before `exit(1)`: only the chat clients close the socket, and not all of it is told.
abbrev pub excuse : Client → (host : List ℕ) → Call → List Call
excuse chat host (connect a p) = perror (codes "connect") ∷ close ∷ []
excuse udp_chat host (connect a p) = perror (codes "connect") ∷ close ∷ []
excuse udp_chat host (inet_pton text) = invalid host
excuse c host (gethostbyname text) = unknown host
excuse chat host (inet_pton text) = []
excuse c host (print text) = []
excuse c host call = told call

-- A client's calls, with the right number of arguments; or only its usage.
abbrev pub Opens : Client → (program : List ℕ) (args : List (List ℕ)) → Clients.Works → Type 0
Opens c program args w =
    ((length args ≡ arity c)
      × Walks (excuse c (get_or args 0 [])) (path c (get_or args 0 []) (or_zero w.address))
          (goes c w) (client c program args w))
    ⊎ ((length args ≢ arity c) × (client c program args w ≡ usage program (arguments c)))

dials :
    (k : Kind) (host : List ℕ) (p : ℕ) (greet : List Call) (works : List Bool) (w : Clients.Works)
    (find : Call) (wrong : Call → List Call) (next : Setup)
    → Walks wrong greet works next
    → Walks wrong
        (socket k ∷ find ∷ connect (or_zero w.address) p ∷ greet)
        (w.socket_works ∷ is_some w.address ∷ w.connect_works ∷ works)
        (attempt (socket k) w.socket_works (wrong (socket k)) (
          resolve find w.address (wrong find) (λ a.
            attempt (connect a p) w.connect_works (wrong (connect (or_zero w.address) p)) next)))
dials k host p greet works w find wrong next more = Walks-more (socket k) w.socket_works (
    Walks-address (λ a. connect a p ∷ greet) _ find w.address
      (Walks-more (connect (or_zero w.address) p) w.connect_works more))

-- A client whose arguments are not as many as they should be tells how it is used and exits with 1.
-- Another makes the calls of its plan in their order: it makes a socket of the kind of its server, finds
-- the address, connects to it at the server's port, and some make one call more. If all work it comes to
-- its loop; if not, it stops at the first that fails, says so, and exits with 1. (The TCP chat client
-- does not stop where `inet_pton` fails.)
pub client-Opens :
    (c : Client) (program : List ℕ) (args : List (List ℕ)) (w : Clients.Works)
    → Opens c program args w
unfolding echo_client talk_client timed_talk_client chat_client udp_chat_client attempt
client-Opens echo program [] w = inr (λ e. absurd (omega (arith, e)), refl)
client-Opens echo program (host ∷ []) w =
    inl (refl, dials stream host 10120 [] [] w (gethostbyname host) (excuse echo host) _ Walks-none)
client-Opens echo program (host ∷ x ∷ xs) w = inr (λ e. absurd (omega (arith, e)), refl)
client-Opens talk program [] w = inr (λ e. absurd (omega (arith, e)), refl)
client-Opens talk program (host ∷ []) w =
    inl (refl, dials stream host 10130 [] [] w (gethostbyname host) (excuse talk host) _ Walks-none)
client-Opens talk program (host ∷ x ∷ xs) w = inr (λ e. absurd (omega (arith, e)), refl)
client-Opens timed_talk program [] w = inr (λ e. absurd (omega (arith, e)), refl)
client-Opens timed_talk program (host ∷ []) w = inl (
  refl,
  dials stream host 10130 (signal ∷ []) (w.signal_works ∷ []) w (gethostbyname host)
      (excuse timed_talk host) _ (Walks-more signal w.signal_works Walks-none),
)
client-Opens timed_talk program (host ∷ x ∷ xs) w = inr (λ e. absurd (omega (arith, e)), refl)
client-Opens chat program [] w = inr (λ e. absurd (omega (arith, e)), refl)
client-Opens chat program (host ∷ []) w = inr (λ e. absurd (omega (arith, e)), refl)
client-Opens chat program (host ∷ username ∷ []) w = inl (
  refl,
  Walks-more (socket stream) w.socket_works (
      Walks-more (inet_pton host) true (
        Walks-more (connect (or_zero w.address) 10140) w.connect_works
          (Walks-more (connected_to host) true Walks-none))),
)
client-Opens chat program (host ∷ username ∷ x ∷ xs) w = inr (λ e. absurd (omega (arith, e)), refl)
client-Opens udp_chat program [] w = inr (λ e. absurd (omega (arith, e)), refl)
client-Opens udp_chat program (host ∷ []) w = inr (λ e. absurd (omega (arith, e)), refl)
client-Opens udp_chat program (host ∷ username ∷ []) w = inl (
  refl,
  dials dgram host 10140 (connected_to host ∷ []) (true ∷ []) w (inet_pton host)
      (excuse udp_chat host) _ (Walks-more (connected_to host) true Walks-none),
)
client-Opens udp_chat program (host ∷ username ∷ x ∷ xs) w =
    inr (λ e. absurd (omega (arith, e)), refl)
