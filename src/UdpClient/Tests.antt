-- ===== src/UdpClient/Tests.antt =====
-- kadai4/chatclient-udp.c: the theorems at concrete inputs. `take` stands for `recv`.
use mathlib.Core.Option.{Option}
use excc.Common.{ℕ, ◌≡◌, refl, Bool, true, false, List, [], ◌∷◌, arith, take}
use excc.Common.Text.{codes, c_string}
use excc.Common.Outcome.{running}
use excc.ChatServer.{connected, bytes, ack_msg, username_ack_msg}
use excc.ChatClient.{accepted, write, close, name_line, Event, ready, line}
use excc.UdpServer.{
  Address, ClientList, Effect, sendto, init, client, find_client_by_addr, find_addr, same_addr,
  name_taken,
}
use excc.UdpServer.Loop.{datagram}
use excc.UdpServer.Loop
use excc.UdpServer.Invariant.{init-IsValid}
use excc.UdpClient.{
  hello, handshake, round, session, failure, after, typed, send_datagram, then_heard,
}
use excc.UdpClient.Joining.{udp_client_joins}

abbrev recv : ℕ → List ℕ → List ℕ
recv n d = take n d

abbrev talk : List (Bool × Event)
talk =
    (true, ready (Option.some (line (codes "hi\n"))) Option.none)
    ∷ (true, ready Option.none (Option.some (bytes (codes "eve: hi\n"))))
    ∷ []

-- A `send` that fails ends the client.
send_fails :
    session recv ((false, ready (Option.some (line (codes "x"))) Option.none) ∷ talk)
    ≡ failure (write (codes "x") ∷ close ∷ [])
unfolding session after round typed send_datagram then_heard c_string
send_fails = refl

abbrev here : Address
here = record { sin_family = 2; sin_port = 9; s_addr = 1 }

udp_client_joins_example :
    (i : ℕ) × (m n : ClientList) × (more : List Effect) × (Loop.round init (datagram here hello)
      ≡ running m (sendto here ack_msg ∷ []))
    × (handshake recv (codes "eve") true (bytes ack_msg) true (bytes username_ack_msg)
        ≡ accepted (write hello ∷ write (name_line (codes "eve")) ∷ []))
    × (Loop.round m (datagram here (name_line (codes "eve")))
        ≡ running n (sendto here username_ack_msg ∷ more))
    × (client n i ≡ record { addr = here; name = codes "eve"; status = connected })
unfolding find_client_by_addr find_addr same_addr name_taken
udp_client_joins_example =
    udp_client_joins recv (λ n d. refl) init here (codes "eve") init-IsValid refl (omega arith)
      (omega arith) (omega arith) refl
