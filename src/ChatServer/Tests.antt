-- ===== src/ChatServer/Tests.antt =====
-- kadai4/chatserver.c: runs of the server at concrete inputs, and the theorems at some of them.
use excc.Common.{
  ◌≢◌, get_or-replicate, ℕ, ◌+◌, ◌-◌, ◌≤◌, ◌≡◌, refl, true, false, List, [], ◌∷◌, arith, ◌==◌,
  replicate, zero, suc, get_or,
}
use excc.Common.Text.{codes, c_string, str_eq, strchr}
use excc.Common.Outcome.{running, Running}
use excc.ChatServer.{
  ClientInfo, ClientList, Effect, is_none, connecting, connected, accept, write, close, failed,
  bytes, vacant, init, username, stored, username_ack_msg, username_reject_msg, ack_msg, name_taken,
  register_client_name, write_all_clients, write_each, join_message, receive_username, client,
  handle_massage, broadcast_message, chat_line,
}
use excc.ChatServer.Loop.{
  Select, ready, refused, socket, run, round, new_client, serve_client, serve_status, serve_clients,
}
use excc.ChatServer.Invariant.{IsValid, init-IsValid, active}
use excc.ChatServer.Steps.{AreTidy}
use excc.ChatServer.Changes.{Reach-IsValid}
use excc.ChatServer.Runs.{run-Reach}
use excc.ChatServer.Capacity.{run-IsValid, lost_capacity}
use excc.ChatServer.Names.{username_unterminated}
use excc.Room.{Served}
use excc.Room.Seats
use excc.ChatServer.Seats.{room, is_seated, AreDistinct}
use excc.ChatServer.Wire.{opens, mail}
use excc.ChatServer.Attending.{Acts}
use excc.ChatServer.Refinement.{AllWork, events, run_attends}

-- A round in which a connection comes in on `fd`, and one in which a text arrives on it.
abbrev pub connects : ℕ → Select
connects fd = ready (record {
  listening = true;
  accepted = socket fd;
  readable = λ n. false;
  received = λ n. failed;
  stack = λ n. [];
})

abbrev pub says : ℕ → List ℕ → Select
says fd text = ready (record {
  listening = false;
  accepted = refused;
  readable = λ n. n == fd;
  received = λ n. bytes text;
  stack = λ n. [];
})

abbrev bob : ClientInfo
bob = record { socket = 4; name = codes "bob"; status = connected }

-- The second is gone, and still counted.
abbrev leaked : ClientList
leaked = record { clients = bob ∷ replicate 4 vacant; client_count = 2; max_client = 5 }

-- Two clients ask for one name; the first then says something that is longer than a name.
abbrev greeting : List ℕ
greeting = codes "hello everybody, how are you?\n"

abbrev rivals : List Select
rivals =
    connects 4 ∷ says 4 (codes "bob\n") ∷ connects 5 ∷ says 5 (codes "bob\n") ∷ says 4 greeting ∷ []

leaked_named : (j : ℕ) → (client leaked j).status ≢ connecting
leaked_named zero e = cc
leaked_named (suc j) e = cc (get_or-replicate 4 j vacant)

rivals-AreTidy : AreTidy init rivals
unfolding run round new_client serve_clients serve_client serve_status receive_username
    register_client_name name_taken write_all_clients write_each join_message username c_string
    strchr str_eq handle_massage broadcast_message chat_line
rivals-AreTidy = (
  (λ e. cc),
  (
    (λ e j h s q. refl),
    ((λ e. cc), ((λ e j h s q. refl), ((λ e j h s q. absurd (leaked_named j s)), tt))),
  ),
)

run-rivals :
    run init rivals
    ≡ running leaked (
        accept 4
        ∷ write 4 ack_msg
        ∷ write 4 username_ack_msg
        ∷ write 4 (codes "bob joined\n")
        ∷ accept 5
        ∷ write 5 ack_msg
        ∷ write 5 username_reject_msg
        ∷ close 5
        ∷ write 4 (codes "bob: hello everybody, how are you?\n")
        ∷ [])
unfolding run round new_client serve_clients serve_client serve_status receive_username
    register_client_name name_taken write_all_clients write_each join_message username c_string
    strchr str_eq handle_massage broadcast_message chat_line
run-rivals = refl

leaked-IsValid : IsValid leaked
leaked-IsValid = rw run-rivals at (run-IsValid rivals rivals-AreTidy)

run-IsValid_example : Running IsValid (run init rivals)
run-IsValid_example = run-IsValid rivals rivals-AreTidy

-- A third client has come, and has no name yet.
abbrev visited : ClientList
visited = record {
  clients = bob ∷ record { socket = 6; name = []; status = connecting } ∷ replicate 3 vacant;
  client_count = 3;
  max_client = 5;
}

run-visit : run leaked (connects 6 ∷ []) ≡ running visited (accept 6 ∷ write 6 ack_msg ∷ [])
unfolding run round new_client
run-visit = refl

visited-IsValid : IsValid visited
visited-IsValid =
    Reach-IsValid leaked-IsValid
      (rw run-visit at (run-Reach leaked-IsValid (connects 6 ∷ []) ((λ e. cc), tt)))

lost_capacity_example :
    Running (λ cl. active cl + (2 - active leaked) ≤ 5) (run leaked (connects 6 ∷ []))
lost_capacity_example = lost_capacity leaked (connects 6 ∷ []) leaked-IsValid ((λ e. cc), tt)

abbrev joined : ClientList
joined = record visited {
  clients =
      bob ∷ record { socket = 6; name = codes "eve"; status = connected } ∷ replicate 3 vacant;
}

-- An earlier name shows through.
username_unterminated_example :
    username (stored (codes "xxxmallory\n") (codes "eve")) ≡ (codes "evemallory", [])
username_unterminated_example =
    username_unterminated (codes "eve") (codes "xxx") (codes "mallory") [] (omega arith)
      (omega arith) refl

-- No slot is in use at the start.
init-AreDistinct : AreDistinct init.clients
init-AreDistinct i j u w e = absurd (ground (arith, free 5 i))
  where
    free : (n i : ℕ) → is_none (get_or (replicate n vacant) i vacant).status ≡ true
    free zero i = refl
    free (suc n) zero = refl
    free (suc n) (suc i) = free n i

rivals-AllWork : AllWork (λ fd. false) init rivals
unfolding run round new_client serve_clients serve_client serve_status receive_username
    register_client_name name_taken write_all_clients write_each join_message username c_string
    strchr str_eq opens handle_massage broadcast_message chat_line
rivals-AllWork = (
  ((λ e. cc), (λ n. tt), refl),
  (
    ((λ e j h s q. refl), (λ n. omega arith), tt),
    (
      ((λ e. cc), (λ n. tt), refl),
      (
        ((λ e j h s q. refl), (λ n. omega arith), tt),
        (((λ e j h s q. absurd (leaked_named j s)), (λ n. omega arith), tt), tt),
      ),
    ),
  ),
)

run_attends_example :
    (m : ClientList) × (out : List Effect) × (run init rivals ≡ running m out)
    × Served Acts (room init) (events init rivals) (room m) (λ fd. mail out fd false)
    × ((fd : ℕ) → opens out fd false ≡ is_seated m fd)
unfolding Seats.seat_in
run_attends_example =
    run_attends (λ fd. false) init rivals init-IsValid init-AreDistinct (λ fd. refl) rivals-AllWork
