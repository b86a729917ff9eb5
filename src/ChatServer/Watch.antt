-- ===== src/ChatServer/Watch.antt =====
-- kadai4/chatserver.c: the descriptors that a round hands to `select`, and when a run ends.
use mathlib.Core.List.{Mem, mem-cons_self, mem-cons_of_mem}
use excc.Common.{
  ℕ, zero, suc, ◌+◌, ◌≤◌, ◌<◌, ◌≡◌, ◌≢◌, true, List, [], ◌∷◌, arith, get_or, ltb, if◌then◌else◌,
}
use excc.Common.Outcome.{Each, IsRunning, loop-IsRunning}
use excc.ChatServer.{ClientInfo, ClientList, vacant, is_none, client}
use excc.ChatServer.Loop.{Select, error, ready, refused, watch, run, round, accept_client}
use excc.ChatServer.Invariant.{in_use}

watch_mono :
    (cs : List ClientInfo) (fds : List ℕ) (max_fd : ℕ)
    → (max_fd ≤ (watch cs fds max_fd).1) × ((fd : ℕ) → Mem fd fds → Mem fd (watch cs fds max_fd).0)
unfolding watch
watch_mono [] fds max_fd = (omega arith, λ fd m. m)
watch_mono (c ∷ cs) fds max_fd =
    let fds' = if is_none c.status then fds else c.socket ∷ fds in
    let top = if ltb max_fd c.socket then c.socket else max_fd in
    let (rises, keeps) = watch_mono cs fds' top in
    (ground (arith, rises), λ fd m. keeps fd (ground (arith, m, mem-cons_of_mem c.socket m)))

watch-slot :
    (cs : List ClientInfo) (fds : List ℕ) (max_fd i : ℕ)
    → in_use (get_or cs i vacant) ≡ true
    → Mem (get_or cs i vacant).socket (watch cs fds max_fd).0
      × ((get_or cs i vacant).socket ≤ (watch cs fds max_fd).1)
unfolding watch
watch-slot [] fds max_fd i e = cc
watch-slot (c ∷ cs) fds max_fd (suc i) e = watch-slot cs _ _ i e
watch-slot (c ∷ cs) fds max_fd zero e =
    let fds' = if is_none c.status then fds else c.socket ∷ fds in
    let top = if ltb max_fd c.socket then c.socket else max_fd in
    let (rises, keeps) = watch_mono cs fds' top in
    (keeps c.socket (ground (arith, mem-cons_self {a = c.socket} {l = fds})), ground (arith, rises))

-- Every descriptor that the second loop tests and reads, the listening one and the socket of each
-- slot in use, is in the set given to `select` and below its bound `max_fd + 1`.
pub watch-covers :
    (cl : ClientList) (server_sock i : ℕ)
    → in_use (client cl i) ≡ true
    → let (fds, max_fd) = watch cl.clients (server_sock ∷ []) server_sock in
      Mem server_sock fds
      × (server_sock < max_fd + 1)
      × Mem (client cl i).socket fds
      × ((client cl i).socket < max_fd + 1)
watch-covers cl server_sock i e =
    let (rises, keeps) = watch_mono cl.clients (server_sock ∷ []) server_sock in
    let (in_set, below) = watch-slot cl.clients (server_sock ∷ []) server_sock i e in
    (keeps server_sock mem-cons_self, omega arith, in_set, omega arith)

-- The kernel's answers that let a round go on: `select` works, and so does each `accept` called for.
abbrev pub IsSound : Select → Type 0
IsSound error = ⊥
IsSound (ready r) = r.listening ≡ true → r.accepted ≢ refused

abbrev pub AreSound : List Select → Type 0
AreSound = Each IsSound

round-IsRunning : (cl : ClientList) (s : Select) → IsSound s → IsRunning (round cl s)
unfolding round accept_client
round-IsRunning cl error h = absurd h
round-IsRunning cl (ready r) h = ground (arith, h)

-- The server does not stop of itself: it goes on through any run in which `select` does not fail and
-- no `accept` fails that it calls.
pub run-IsRunning : (cl : ClientList) (ss : List Select) → AreSound ss → IsRunning (run cl ss)
unfolding run
run-IsRunning = loop-IsRunning round IsSound round-IsRunning
