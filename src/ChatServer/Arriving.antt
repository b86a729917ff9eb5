-- ===== src/ChatServer/Arriving.antt =====
-- kadai4/chatserver.c: a connection is let in or turned away as the room is to do it.
use mathlib.Core.Option.{Option}
use excc.Common.{
  ℕ, ◌+◌, ◌≤◌, ◌<◌, ◌≡◌, refl, subst, inl, inr, true, false, ◌==◌, List, [], ◌∷◌, arith, Bool-cases,
  Option-cases, length, set, dec_lt,
}
use excc.Common.Outcome.{running}
use excc.ChatServer.{
  ClientInfo, ClientList, none, connecting, Effect, accept, write, close, client, vacant, ack_msg,
  reject_msg,
}
use excc.ChatServer.Loop.{socket, accept_client}
use excc.ChatServer.Invariant.{IsValid}
use excc.ChatServer.Changes.{Change, Change-IsValid}
use excc.ChatServer.Capacity.{new_client_cases}
use excc.ChatServer.Wire.{opens, mail}
use excc.Room.{arrives, came, turn_away, let_in, silent, hear}
use excc.Room.Seats
use excc.ChatServer.Seats.{
  socket_of, name_of, status_of, same_fd, same_fd_iff, seat_in, is_seated, AreDistinct, Absent,
}
use excc.ChatServer.Slots.{Passes}

nobody_there :
    (cl : ClientList) (fd : ℕ) → is_seated cl fd ≡ false → seat_in cl.clients fd ≡ Option.none
nobody_there cl fd e = elim (Option-cases (seat_in cl.clients fd)) [
  | inl nobody ↦ nobody
  | inr (s, there) ↦ absurd (ground (arith, there))
]

-- A new connection, on a descriptor that no client has.
module _ {cl : ClientList} (v : IsValid cl) (d : AreDistinct cl.clients) (fd : ℕ)
    (new : is_seated cl fd ≡ false) where
  nobody : seat_in cl.clients fd ≡ Option.none
  nobody = nobody_there cl fd new

  absent : Absent cl.clients fd
  absent =
      Seats.seat_in-Absent socket_of name_of status_of vacant same_fd same_fd_iff refl cl.clients fd
        d nobody

  closed : (b : ℕ) → (fd == b) ≡ true → is_seated cl b ≡ false
  closed b own = let same : fd ≡ b = ground arith in subst (λ a. is_seated cl a ≡ false) same new

  away-Passes :
      5 ≤ cl.client_count
      → Passes cl (arrives fd ∷ []) cl (accept fd ∷ write fd reject_msg ∷ close fd ∷ [])
  unfolding opens mail
  away-Passes full = record {
    served =
        hear (came nobody (turn_away nobody full refl (λ b. refl)))
          (silent {mail = λ b. []} (λ b. refl)) (λ b. ground arith);
    tracks = λ b. ground (arith, closed b);
    valid = v;
    distinct = d;
  }

  let_in-Passes :
      (i : ℕ)
      → i < 5
      → (client cl i).status ≡ none
      → cl.client_count < 5
      → Passes cl
          (arrives fd ∷ [])
          (record cl {
            clients = set cl.clients i (record (client cl i) { socket = fd; status = connecting });
            client_count = cl.client_count + 1;
          })
          (accept fd ∷ write fd ack_msg ∷ [])
  unfolding opens mail
  let_in-Passes i inside free space =
      let c : ClientInfo = record (client cl i) { socket = fd; status = connecting } in
      let below : i < length cl.clients = omega (arith, inside, v.slots) in
      let sits =
        Seats.seat_in-set socket_of name_of status_of vacant same_fd same_fd_iff cl.clients i c
          below (λ u. absurd (ground arith)) (λ j other. absent j) in
      record {
        served =
            hear (came nobody (let_in nobody space sits refl (λ b. refl)))
              (silent {mail = λ b. []} (λ b. refl)) (λ b. ground arith);
        tracks = λ b. elim (Bool-cases (fd == b)) [
          | inl own ↦ rw own (rw (sits b, own) refl)
          | inr other ↦ rw other (rw (sits b, other) refl)
        ];
        valid = Change-IsValid v (Change.arrive i fd inside free space);
        distinct =
            Seats.AreDistinct-set socket_of name_of status_of vacant same_fd same_fd_iff cl.clients
              i c below d (λ j other w. absent j);
      }

  pub accept-Passes :
      (m : ClientList) × (now : List Effect) × (accept_client cl (socket fd) ≡ running m now)
      × Passes cl (arrives fd ∷ []) m now
  unfolding accept_client
  accept-Passes =
      let (away, in_) = new_client_cases cl fd v in
      elim (dec_lt cl.client_count 5) [
        | no full ↦
            let five : cl.client_count ≡ 5 = omega (arith, v.bounded) in
            (cl, _, rw (away five) refl, away-Passes (omega arith))
        | yes space ↦
            let (i, inside, free, goes) = in_ space in
            (_, _, rw goes refl, let_in-Passes i inside free space)
      ]
