-- ===== src/Datagrams/Showing.antt =====
-- kadai2/udp_receive.c: what the receiver shows of a datagram.
use excc.Common.{ℕ, ◌+◌, ◌*◌, ◌≤◌, ◌≡◌, ◌↔◌, ap, List, [], ◌∷◌, length, take, take-all, arith}
use excc.Datagrams.{
  Sender, Received, datagram, write, from, waiting, prepend, udp_receive, sin_port,
}

-- What `recvfrom` stores of a message in its 1024 bytes.
abbrev pub arrives : Sender → (message : List ℕ) → Received
arrives sender message = datagram sender (take 1024 message)

-- The number of the port.
abbrev pub port : Sender → ℕ
port sender = 256 * sender.high + sender.low

same-sin_port : (sender : Sender) → sender.high ≡ sender.low → sin_port sender ≡ port sender
same-sin_port sender e = omega (arith, e)

sin_port-same : (sender : Sender) → sin_port sender ≡ port sender → sender.high ≡ sender.low
sin_port-same sender e = omega (arith, e)

-- A message of at most 1024 bytes is shown whole, with the name that `inet_ntop` gives to the sender's
-- address. The port behind it is read with its two bytes the wrong way round (on a machine that takes the
-- first byte for the low one): it is the sender's if and only if the two are the same.
pub shows_sender_iff :
    (inet_ntop : ℕ → List ℕ) (sender : Sender) (message : List ℕ)
    → length message ≤ 1024
    → (p : ℕ) × (udp_receive inet_ntop (arrives sender message ∷ [])
        ≡ waiting (write message ∷ from (inet_ntop sender.s_addr) p ∷ []))
      × (p ≡ 256 * sender.low + sender.high)
      × ((p ≡ port sender) ↔ (sender.high ≡ sender.low))
unfolding udp_receive prepend
shows_sender_iff inet_ntop sender message fits = (
  sin_port sender,
  ap (λ m. waiting (write m ∷ from (inet_ntop sender.s_addr) (sin_port sender) ∷ []))
      (take-all 1024 message fits),
  omega arith,
  (sin_port-same sender, same-sin_port sender),
)
