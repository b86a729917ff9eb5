-- ===== src/Datagrams/Tests.antt =====
-- kadai2/udp_send.c and udp_receive.c: what is sent and shown at concrete answers.
use mathlib.Core.Option.{Option}
use excc.Common.{ℕ, ◌≡◌, ◌↔◌, refl, true, [], ◌∷◌, arith}
use excc.Common.Text.{codes}
use excc.Sockets.{dgram, socket, gethostbyname, sendto, close, exited, attempt, prepend}
use excc.Sockets.Clients.{resolve}
use excc.Datagrams.{Sender, udp_send, waiting, write, from, udp_receive}
use excc.Datagrams.Showing.{arrives, shows_sender_iff}

sends :
    udp_send (codes "udp_send") (codes "host" ∷ codes "hi" ∷ []) (record {
      socket_works = true;
      address = Option.some 1;
      connect_works = true;
      signal_works = true;
    })
    ≡ exited 0
        (socket dgram ∷ gethostbyname (codes "host") ∷ sendto 1 10000 (codes "hi") ∷ close ∷ [])
unfolding udp_send attempt prepend resolve
sends = refl

-- From port 50000, which is 195 * 256 + 80.
abbrev far : Sender
far = record { s_addr = 1; high = 195; low = 80 }

shows_sender_iff_example :
    (p : ℕ) × (udp_receive (λ a. codes "127.0.0.1") (arrives far (codes "hi") ∷ [])
      ≡ waiting (write (codes "hi") ∷ from (codes "127.0.0.1") p ∷ []))
    × (p ≡ 20675)
    × ((p ≡ 50000) ↔ (far.high ≡ far.low))
shows_sender_iff_example = shows_sender_iff (λ a. codes "127.0.0.1") far (codes "hi") (omega arith)
