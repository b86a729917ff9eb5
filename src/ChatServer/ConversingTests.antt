-- ===== src/ChatServer/ConversingTests.antt =====
-- kadai4/chatserver.c with kadai4/chatclient.c: a line that goes from one of two clients to the other.
use mathlib.Core.Option.{none, some}
use excc.Common.{
  ◌≢◌, ℕ, zero, suc, ◌≡◌, refl, List, [], ◌∷◌, ◌++◌, arith, get_or-replicate, replicate,
}
use excc.Common.Text.{codes, c_string, str_eq, strchr}
use excc.Common.Outcome.{running}
use excc.ChatServer.{
  ClientList, client, connecting, accept, write, connected, bytes, vacant, init, username,
  username_ack_msg, ack_msg, name_taken, register_client_name, handle_massage, chat_line,
  broadcast_message, write_all_clients, write_each, join_message, receive_username,
}
use excc.ChatServer.Tests.{connects, says}
use excc.ChatServer.Loop.{Select, run, round, new_client, serve_client, serve_status, serve_clients}
use excc.ChatServer.Invariant.{IsValid}
use excc.ChatServer.Steps.{AreTidy}
use excc.ChatServer.Capacity.{run-IsValid}
use excc.ChatServer.Wire.{opens, mail}
use excc.ChatServer.Seats.{is_seated, AreDistinct}
use excc.ChatServer.Refinement.{AllWork}
use excc.Room.Seats
use excc.ChatClient
use excc.ChatClient.{Event, line, session}
use excc.ChatClient.Session.{sent, shown}
use excc.ChatServer.Conversing.{typed_is_shown}

abbrev arrivals : List Select
arrivals = connects 4 ∷ says 4 (codes "bob\n") ∷ connects 6 ∷ says 6 (codes "eve\n") ∷ []

arrivals-AreTidy : AreTidy init arrivals
unfolding round new_client serve_clients serve_client serve_status receive_username
    register_client_name name_taken write_all_clients write_each join_message username c_string
    strchr str_eq
arrivals-AreTidy = ((λ e. cc), ((λ e j h s q. refl), ((λ e. cc), ((λ e j h s q. refl), tt))))

-- Both are registered.
abbrev lobby : ClientList
lobby = record {
  clients =
      record { socket = 4; name = codes "bob"; status = connected }
      ∷ record { socket = 6; name = codes "eve"; status = connected }
      ∷ replicate 3 vacant;
  client_count = 2;
  max_client = 5;
}

run-arrivals :
    run init arrivals
    ≡ running lobby (
        accept 4
        ∷ write 4 ack_msg
        ∷ write 4 username_ack_msg
        ∷ write 4 (codes "bob joined\n")
        ∷ accept 6
        ∷ write 6 ack_msg
        ∷ write 6 username_ack_msg
        ∷ write 4 (codes "eve joined\n")
        ∷ write 6 (codes "eve joined\n")
        ∷ [])
unfolding run round new_client serve_clients serve_client serve_status receive_username
    register_client_name name_taken write_all_clients write_each join_message username c_string
    strchr str_eq
run-arrivals = refl

lobby-IsValid : IsValid lobby
lobby-IsValid = rw run-arrivals at (run-IsValid arrivals arrivals-AreTidy)

lobby-AreDistinct : AreDistinct lobby.clients
lobby-AreDistinct zero zero u w e = refl
lobby-AreDistinct zero (suc zero) u w e = cc
lobby-AreDistinct (suc zero) zero u w e = cc
lobby-AreDistinct (suc zero) (suc zero) u w e = refl
lobby-AreDistinct zero (suc (suc j)) u w e = ground (arith, get_or-replicate 3 j vacant)
lobby-AreDistinct (suc zero) (suc (suc j)) u w e = ground (arith, get_or-replicate 3 j vacant)
lobby-AreDistinct (suc (suc i)) j u w e = ground (arith, get_or-replicate 3 i vacant)

lobby_named : (j : ℕ) → (client lobby j).status ≢ connecting
lobby_named zero e = cc
lobby_named (suc zero) e = cc
lobby_named (suc (suc j)) e = cc (get_or-replicate 3 j vacant)

abbrev greeting : List ℕ
greeting = codes "hello everybody, how are you?\n"

abbrev bob_says : List Select
bob_says = says 4 greeting ∷ []

bob_says-AllWork : AllWork (is_seated lobby) lobby bob_says
unfolding round serve_clients serve_client serve_status opens
bob_says-AllWork = (((λ e j h s q. absurd (lobby_named j s)), (λ n. omega arith), tt), tt)

abbrev bob_types : List Event
bob_types = ChatClient.ready (some (line greeting)) none ∷ []

-- It comes in two pieces.
abbrev eve_reads : List Event
eve_reads =
    ChatClient.ready none (some (bytes (codes "bob: hello every")))
    ∷ ChatClient.ready none (some (bytes (codes "body, how are you?\n")))
    ∷ []

typed_is_shown_example :
    (here there : List ChatClient.Effect) × (session bob_types ≡ ChatClient.running here)
    × (sent here ≡ greeting)
    × (session eve_reads ≡ ChatClient.running there)
    × (shown there ≡ codes "bob: " ++ sent here)
unfolding Seats.seat_in mail run round serve_clients serve_client serve_status handle_massage
    broadcast_message chat_line write_all_clients write_each c_string str_eq
typed_is_shown_example =
    typed_is_shown (is_seated lobby) lobby bob_says 4 6 (codes "bob") (codes "eve") bob_types
      eve_reads lobby-IsValid lobby-AreDistinct (λ fd. refl) bob_says-AllWork refl refl
      (omega arith) (omega arith) refl refl refl
