-- ===== src/ChatServer/Deliveries.antt =====
-- kadai4/chatserver.c: what the loops over the clients write to a descriptor.
use excc.Common.{
  ℕ, suc, ◌≤◌, ◌≡◌, refl, sym, ◌∙◌, inl, inr, Bool, true, false, ◌&&◌, ◌==◌, List, [], ◌∷◌, ◌++◌,
  arith, Bool-cases, if◌then◌else◌, get_or, length, length-append, take-all, map,
}
use excc.Common.Text.{newline}
use excc.ChatServer.{ClientInfo, vacant, write_each, list_each}
use excc.ChatServer.Invariant.{in_use}
use excc.ChatServer.Wire.{opens, mail}
use excc.Room.{to_member}
use excc.Room.Seats
use excc.ChatServer.Seats.{
  socket_of, name_of, status_of, same_fd, seat_in, names, AreDistinct, Absent,
}

pub opens-write_each :
    (message : List ℕ) (cs : List ClientInfo) (fd : ℕ) (o : Bool)
    → opens (write_each message cs) fd o ≡ o
unfolding opens write_each
opens-write_each message [] fd o = refl
opens-write_each message (c ∷ cs) fd o = ground (arith, opens-write_each message cs fd o)

pub opens-list_each :
    (to : ℕ) (cs : List ClientInfo) (fd : ℕ) (o : Bool) → opens (list_each to cs) fd o ≡ o
unfolding opens list_each
opens-list_each to [] fd o = refl
opens-list_each to (c ∷ cs) fd o = ground (arith, opens-list_each to cs fd o)

-- Nothing reaches a descriptor that is not open, or that no client has.
pub mail_closed :
    (message : List ℕ) (cs : List ClientInfo) (fd : ℕ) → mail (write_each message cs) fd false ≡ []
unfolding mail write_each
mail_closed message [] fd = refl
mail_closed message (c ∷ cs) fd = ground (arith, mail_closed message cs fd)

mail-none :
    (message : List ℕ) (cs : List ClientInfo) (fd : ℕ) (o : Bool)
    → Absent cs fd
    → mail (write_each message cs) fd o ≡ []
unfolding mail write_each
mail-none message [] fd o h = refl
mail-none message (c ∷ cs) fd o h = ground (arith, h 0, mail-none message cs fd o (λ j. h (suc j)))

pub mail-write_each :
    (message : List ℕ) (cs : List ClientInfo) (fd : ℕ)
    → AreDistinct cs
    → mail (write_each message cs) fd true ≡ to_member message (seat_in cs fd)
unfolding mail Seats.seat_in write_each
mail-write_each message [] fd d = refl
mail-write_each message (c ∷ cs) fd d = elim (Bool-cases (in_use c && (c.socket == fd))) [
  | inl here ↦
      let same : c.socket ≡ fd = ground arith in
      let rest : mail (write_each message cs) fd true ≡ [] = mail-none message cs fd true (λ j u e.
        let first : 0 ≡ suc j = d 0 (suc j) (ground arith) u (same ∙ sym e) in omega arith) in
      ground (arith, rest)
  | inr other ↦
      let rest =
        mail-write_each message cs fd
          (Seats.tail-AreDistinct socket_of name_of status_of vacant same_fd c cs d) in
      ground (arith, rest)
]

pub mail-list_each :
    (to : ℕ) (cs : List ClientInfo) (fd : ℕ) (o : Bool)
    → ((j : ℕ) → length (get_or cs j vacant).name ≤ 15)
    → mail (list_each to cs) fd o
      ≡ (if (to == fd) && o then map (λ n. n ++ newline ∷ []) (names cs) else [])
unfolding mail list_each Seats.names
mail-list_each to [] fd o short = ground arith
mail-list_each to (c ∷ cs) fd o short = ground (
  arith,
  mail-list_each to cs fd o (λ j. short (suc j)),
  take-all 127 (c.name ++ newline ∷ [])
      (omega (arith, length-append c.name (newline ∷ []), short 0)),
)
