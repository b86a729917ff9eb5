-- ===== src/ChatServer/Loop.antt =====
-- kadai4/chatserver.c: `new_client` and the main loop. What the kernel answers is an argument: one
-- `Select` for each round of the loop.
use mathlib.Core.Option.{Option}
use excc.Common.{ℕ, zero, suc, ◌+◌, Bool, List, [], ◌∷◌, ◌++◌, leb, ltb, if◌then◌else◌, set, take}
use excc.Common.Outcome.{Outcome, running, exited, loop}
use excc.ChatServer.{
  ClientInfo, ClientList, ClientStatus, none, connecting, connected, Effect, accept, write, close,
  ReadResult, is_none, client, ack_msg, reject_msg, max_clients, receive_username, handle_massage,
}

-- What `accept` returns: -1, or the descriptor of a new connection.
pub data Accepted : Type 0 where
  refused : Accepted
  socket : ℕ → Accepted

-- The kernel's answers in one round: which descriptors are readable, and what the calls return
-- that read them. `stack` is what the uninitialised buffer for a name holds by then.
pub record Ready : Type 0 where
  pub listening : Bool
  pub accepted : Accepted
  pub readable : ℕ → Bool
  pub received : ℕ → ReadResult
  pub stack : ℕ → List ℕ

pub data Select : Type 0 where
  error : Select
  ready : Ready → Select

-- The loop of `new_client` over the slots, from index `k` on.
unfoldable pub free_slot : ℕ → List ClientInfo → Option ℕ
free_slot k [] = Option.none
free_slot k (c ∷ cs) =
    let rest = free_slot (suc k) cs in if is_none c.status then Option.some k else rest

unfoldable pub admit : ClientList → ℕ → Option ℕ → ClientList × List Effect
admit cl fd Option.none = (cl, [])
admit cl fd (Option.some i) =
    let c = client cl i in
    (
      record cl {
        clients = set cl.clients i (record c { socket = fd; status = connecting });
        client_count = cl.client_count + 1;
      },
      write fd ack_msg ∷ [],
    )

-- `new_client` after a successful `accept`.
unfoldable pub new_client : ClientList → ℕ → ClientList × List Effect
unfolding admit free_slot
new_client cl fd =
    if leb cl.max_client cl.client_count
    then (cl, write fd reject_msg ∷ close fd ∷ [])
    else admit cl fd (free_slot 0 (take cl.max_client cl.clients))

-- The first loop of a round: the descriptors given to `select`, and `max_fd`.
unfoldable pub watch : List ClientInfo → List ℕ → ℕ → List ℕ × ℕ
watch [] fds max_fd = (fds, max_fd)
watch (c ∷ cs) fds max_fd =
    watch cs (if is_none c.status then fds else c.socket ∷ fds)
      (if ltb max_fd c.socket then c.socket else max_fd)

-- The second loop's body for one slot, by the slot's status.
unfoldable pub serve_status : ClientStatus → Ready → ClientList → ℕ → ClientList × List Effect
serve_status none r cl i = (cl, [])
serve_status connecting r cl i =
    let fd = (client cl i).socket in
    if r.readable fd then receive_username cl i (r.stack fd) (r.received fd) else (cl, [])
serve_status connected r cl i =
    let fd = (client cl i).socket in
    if r.readable fd then handle_massage cl i (r.received fd) else (cl, [])

unfoldable pub serve_client : Ready → ClientList → ℕ → ClientList × List Effect
serve_client r cl i = serve_status (client cl i).status r cl i

-- The second loop: `n` slots from index `i` on.
unfoldable pub serve_clients : Ready → ℕ → ClientList → ℕ → ClientList × List Effect
serve_clients r zero cl i = (cl, [])
serve_clients r (suc n) cl i =
    let (cl', out) = serve_client r cl i in
    let (cl'', out') = serve_clients r n cl' (suc i) in (cl'', out ++ out')

unfoldable pub accept_client : ClientList → Accepted → Outcome ClientList Effect
accept_client cl refused = exited 1
accept_client cl (socket fd) = let (cl', out) = new_client cl fd in running cl' (accept fd ∷ out)

-- One round of the `while` in `main`.
unfoldable pub round : ClientList → Select → Outcome ClientList Effect
unfolding accept_client
round cl error = exited 1
round cl (ready r) =
    let (cl', out) = serve_clients r max_clients cl 0 in
    if r.listening then accept_client cl r.accepted else running cl' out

-- The loop over a sequence of answers.
unfoldable pub run : ClientList → List Select → Outcome ClientList Effect
unfolding loop
run = loop round
