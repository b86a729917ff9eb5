-- ===== src/UdpServer/Tests.antt =====
-- kadai4/chatserver-udp.c: runs of the server at concrete inputs, and the theorems at some of them.
use excc.Common.{ℕ, zero, suc, ◌<◌, ◌≡◌, ◌≢◌, refl, true, List, [], ◌∷◌, arith, replicate}
use excc.Common.Text.{codes, c_string, str_eq, strchr}
use excc.Common.Outcome.{running, Running}
use excc.ChatServer.{connecting, connected, ack_msg, username_ack_msg}
use excc.UdpServer.{
  Address, ClientInfo, ClientList, Effect, sendto, vacant, init, client, find_client_by_addr,
  find_addr, same_addr, new_client, admit, find_free_slot, find_free, receive_username, username,
  register_client_name, name_taken, write_all_clients, write_other_clients, send_others, send_each,
  join_message,
}
use excc.UdpServer.Loop.{Answer, timeout, recv_error, datagram, run}
use excc.UdpServer.Invariant.{IsValid, init-IsValid, is_member}
use excc.UdpServer.Capacity.{TurnsAway, run_exact, full_forever}
use excc.UdpServer.Seats.{room}
use excc.UdpServer.Mail.{mail}
use excc.UdpServer.Serving.{Answers}
use excc.UdpServer.Refinement.{texts, run_refines}
use excc.Room.{Served}

abbrev pub at_port : ℕ → Address
at_port port = record { sin_family = 2; sin_port = port; s_addr = 1 }

abbrev pub says : ℕ → List ℕ → Answer
says port text = datagram (at_port port) text

-- Two clients say hello; the first takes the name that the second asks for too.
abbrev rivals : List Answer
rivals =
    says 1 (codes "HELLO\n")
    ∷ says 1 (codes "bob\n")
    ∷ timeout
    ∷ says 2 (codes "HELLO\n")
    ∷ recv_error
    ∷ []

abbrev pub bob : ClientInfo
bob = record { addr = at_port 1; name = codes "bob"; status = connected }

abbrev waiting : ClientInfo
waiting = record { addr = at_port 2; name = []; status = connecting }

abbrev visited : ClientList
visited = record { clients = bob ∷ waiting ∷ replicate 3 vacant; client_count = 2; max_client = 5 }

run-rivals :
    run init rivals
    ≡ running visited (
        sendto (at_port 1) ack_msg
        ∷ sendto (at_port 1) username_ack_msg
        ∷ sendto (at_port 1) (codes "bob joined\n")
        ∷ sendto (at_port 2) ack_msg
        ∷ [])
unfolding run find_client_by_addr find_addr same_addr new_client admit find_free_slot find_free
    receive_username username register_client_name name_taken write_all_clients send_each
    join_message c_string strchr str_eq
run-rivals = refl

visited-IsValid : IsValid visited
visited-IsValid = rw run-rivals at (run_exact rivals)

-- The sender is left out by its address.
others_hear :
    write_other_clients visited.clients 5 (codes "hi\n") waiting
    ≡ sendto (at_port 1) (codes "hi\n") ∷ []
unfolding write_other_clients send_others same_addr
others_hear = refl

run_exact_example : Running IsValid (run init rivals)
run_exact_example = run_exact rivals

-- The name is cut at fifteen bytes.
abbrev long_name : List ℕ
long_name = codes "eve of the destiny"

abbrev eve : ClientInfo
eve = record { addr = at_port 2; name = codes "eve of the dest"; status = connected }

-- Five clients come and register.
abbrev joins : ℕ → List ℕ → List Answer → List Answer
joins port name rest = says port (codes "HELLO\n") ∷ says port name ∷ rest

abbrev five_join : List Answer
five_join =
    joins 1 (codes "a")
      (joins 2 (codes "b") (joins 3 (codes "c") (joins 4 (codes "d") (joins 5 (codes "e") []))))

abbrev member : ℕ → List ℕ → ClientInfo
member port name = record { addr = at_port port; name = name; status = connected }

abbrev full : ClientList
full = record {
  clients =
      member 1 (codes "a")
      ∷ member 2 (codes "b")
      ∷ member 3 (codes "c")
      ∷ member 4 (codes "d")
      ∷ member 5 (codes "e")
      ∷ [];
  client_count = 5;
  max_client = 5;
}

full-IsValid : IsValid full
unfolding run find_client_by_addr find_addr same_addr new_client admit find_free_slot find_free
    receive_username username register_client_name name_taken write_all_clients send_each
    join_message c_string strchr str_eq
full-IsValid = run_exact five_join

all_members : (j : ℕ) → j < 5 → is_member full j ≡ true
all_members zero h = refl
all_members (suc zero) h = refl
all_members (suc (suc zero)) h = refl
all_members (suc (suc (suc zero))) h = refl
all_members (suc (suc (suc (suc zero)))) h = refl
all_members (suc (suc (suc (suc (suc j))))) h = absurd (omega arith)

no_member_at_six : (j : ℕ) → j < 5 → (client full j).addr ≢ at_port 6
no_member_at_six zero h e = ground arith
no_member_at_six (suc zero) h e = ground arith
no_member_at_six (suc (suc zero)) h e = ground arith
no_member_at_six (suc (suc (suc zero))) h e = ground arith
no_member_at_six (suc (suc (suc (suc zero)))) h e = ground arith
no_member_at_six (suc (suc (suc (suc (suc j))))) h e = absurd (omega arith)

full_forever_example :
    Running (λ m. TurnsAway m (at_port 6)) (run full (timeout ∷ says 3 (codes "hi") ∷ []))
full_forever_example =
    full_forever full (timeout ∷ says 3 (codes "hi") ∷ []) (at_port 6) full-IsValid all_members
      no_member_at_six

-- What the room at the start is promised for the rivals.
run_refines_example :
    (m : ClientList) × (out : List Effect) × (run init rivals ≡ running m out)
    × Served Answers (room init) (texts rivals) (room m) (mail out)
run_refines_example = run_refines init rivals init-IsValid (omega arith)
