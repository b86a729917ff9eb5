-- ===== src/UdpServer/ConversingTests.antt =====
-- kadai4/chatserver-udp.c with kadai4/chatclient-udp.c: a line that goes from one of two clients to the
-- other. `take` stands for `recv`.
use mathlib.Core.Option.{none, some}
use excc.Common.{ℕ, ◌≡◌, refl, true, List, [], ◌∷◌, ◌++◌, arith, take, replicate, map}
use excc.Common.Text.{codes, c_string, str_eq, strchr}
use excc.Common.Outcome.{running, calls}
use excc.ChatServer.{connected, ack_msg, username_ack_msg}
use excc.UdpServer.{
  ClientInfo, ClientList, sendto, vacant, init, find_client_by_addr, find_addr, same_addr,
  new_client, admit, find_free_slot, find_free, receive_username, username, register_client_name,
  name_taken, write_all_clients, send_each, join_message,
}
use excc.UdpServer.Tests.{at_port, says, bob}
use excc.UdpServer.Loop.{Answer, run}
use excc.UdpServer.Invariant.{IsValid}
use excc.UdpServer.Capacity.{run_exact}
use excc.UdpServer.Mail.{mail}
use excc.UdpServer.Conversing.{udp_typed_is_shown}
use excc.Room.Seats
use excc.ChatClient
use excc.ChatClient.{line, ready}
use excc.ChatClient.Session.{sent, shown}
use excc.UdpClient
use excc.UdpClient.{session}
use excc.UdpClient.Session.{gets}

abbrev recv : ℕ → List ℕ → List ℕ
recv n d = take n d

abbrev arrivals : List Answer
arrivals =
    says 1 (codes "HELLO\n")
    ∷ says 1 (codes "bob\n")
    ∷ says 2 (codes "HELLO\n")
    ∷ says 2 (codes "eve\n")
    ∷ []

abbrev eve : ClientInfo
eve = record { addr = at_port 2; name = codes "eve"; status = connected }

-- Both are registered.
abbrev lobby : ClientList
lobby = record { clients = bob ∷ eve ∷ replicate 3 vacant; client_count = 2; max_client = 5 }

run-arrivals :
    run init arrivals
    ≡ running lobby (
        sendto (at_port 1) ack_msg
        ∷ sendto (at_port 1) username_ack_msg
        ∷ sendto (at_port 1) (codes "bob joined\n")
        ∷ sendto (at_port 2) ack_msg
        ∷ sendto (at_port 2) username_ack_msg
        ∷ sendto (at_port 1) (codes "eve joined\n")
        ∷ sendto (at_port 2) (codes "eve joined\n")
        ∷ [])
unfolding run find_client_by_addr find_addr same_addr new_client admit find_free_slot find_free
    receive_username username register_client_name name_taken write_all_clients send_each
    join_message c_string strchr str_eq
run-arrivals = refl

lobby-IsValid : IsValid lobby
lobby-IsValid = rw run-arrivals at (run_exact arrivals)

-- 126 bytes are typed, and 126 + 5 are too many.
abbrev typed_line : List ℕ
typed_line = replicate 125 b'x' ++ codes "\n"

udp_typed_is_shown_example :
    (here there : List ChatClient.Effect) × (session recv
        ((true, ready (some (line typed_line)) none) ∷ [])
      ≡ UdpClient.running here)
    × (sent here ≡ typed_line)
    × (session recv (map gets (mail (calls (run lobby (says 1 typed_line ∷ []))) (at_port 2)))
        ≡ UdpClient.running there)
    × (shown there ≡ take 127 (codes "bob: " ++ sent here))
unfolding Seats.seat_in c_string str_eq same_addr
udp_typed_is_shown_example =
    udp_typed_is_shown recv (λ n d. refl) lobby (says 1 typed_line ∷ []) (at_port 1) (at_port 2)
      (codes "bob") (codes "eve") ((true, ready (some (line typed_line)) none) ∷ []) lobby-IsValid
      (omega arith) refl refl (omega arith) ((refl, omega arith), tt) refl refl
