-- ===== src/UdpServer/Mail.antt =====
-- kadai4/chatserver-udp.c: which datagrams reach an address.
use excc.Common.{
  ℕ, suc, ◌≤◌, ◌≡◌, refl, sym, ◌∙◌, inl, inr, ◌&&◌, List, [], ◌∷◌, ◌++◌, arith, Bool-cases,
  if◌then◌else◌, get_or, length, length-append, take-all, map,
}
use excc.Common.Text.{newline}
use excc.Room.{Mail, to_member}
use excc.UdpServer.{Address, ClientInfo, Effect, sendto, vacant, same_addr, send_each, list_each}
use excc.UdpServer.Invariant.{in_use, same_addr_iff}
use excc.Room.Seats
use excc.UdpServer.Seats.{addr_of, name_of, status_of, seat_in, names, AreDistinct, Absent}

-- The datagrams to one address, in order.
unfoldable pub mail : List Effect → Mail Address
mail [] addr = []
mail (sendto to message ∷ out) addr =
    let rest = mail out addr in if same_addr to addr then message ∷ rest else rest

pub mail_only :
    (a : Address) (message : List ℕ) (b : Address)
    → mail (sendto a message ∷ []) b ≡ (if same_addr a b then message ∷ [] else [])
unfolding mail
mail_only a message b = ground arith

pub mail-cons :
    (a : Address) (message : List ℕ) (out : List Effect) (b : Address)
    → mail (sendto a message ∷ out) b ≡ (if same_addr a b then message ∷ [] else []) ++ mail out b
unfolding mail
mail-cons a message out b = ground arith

pub mail-append : (xs ys : List Effect) (b : Address) → mail (xs ++ ys) b ≡ mail xs b ++ mail ys b
unfolding mail
mail-append [] ys b = refl
mail-append (sendto to message ∷ xs) ys b = ground (arith, mail-append xs ys b)

-- The datagrams of one message to all members.
mail-none :
    (message : List ℕ) (cs : List ClientInfo) (addr : Address)
    → Absent cs addr
    → mail (send_each message cs) addr ≡ []
unfolding mail send_each
mail-none message [] addr h = refl
mail-none message (c ∷ cs) addr h =
    ground (arith, h 0, same_addr_iff c.addr addr, mail-none message cs addr (λ j. h (suc j)))

pub mail-send_each :
    (message : List ℕ) (cs : List ClientInfo) (addr : Address)
    → AreDistinct cs
    → mail (send_each message cs) addr ≡ to_member message (seat_in cs addr)
unfolding mail Seats.seat_in send_each
mail-send_each message [] addr d = refl
mail-send_each message (c ∷ cs) addr d = elim (Bool-cases (in_use c && same_addr c.addr addr)) [
  | inl here ↦
      let same : c.addr ≡ addr = (same_addr_iff c.addr addr).0 (ground arith) in
      let rest : mail (send_each message cs) addr ≡ [] = mail-none message cs addr (λ j u e.
        let first : 0 ≡ suc j = d 0 (suc j) (ground arith) u (same ∙ sym e) in omega arith) in
      ground (arith, rest)
  | inr other ↦
      let rest =
        mail-send_each message cs addr
          (Seats.tail-AreDistinct addr_of name_of status_of vacant same_addr c cs d) in
      ground (arith, rest)
]

pub mail-list_each :
    (to : Address) (cs : List ClientInfo) (b : Address)
    → ((j : ℕ) → length (get_or cs j vacant).name ≤ 15)
    → mail (list_each to cs) b
      ≡ (if same_addr to b then map (λ n. n ++ newline ∷ []) (names cs) else [])
unfolding mail list_each Seats.names
mail-list_each to [] b short = ground arith
mail-list_each to (c ∷ cs) b short = ground (
  arith,
  mail-list_each to cs b (λ j. short (suc j)),
  take-all 127 (c.name ++ newline ∷ [])
      (omega (arith, length-append c.name (newline ∷ []), short 0)),
)
