-- ===== src/ChatServer/Attending.antt =====
-- kadai4/chatserver.c: each handler does for a client what the room is to do.
use mathlib.Core.Option.{Option}
use excc.Common.{
  ℕ, ◌<◌, ◌≡◌, ◌≢◌, refl, sym, ap, ◌∙◌, ◌⊎◌, inl, inr, Bool, true, false, ◌==◌, List, [], ◌∷◌, ◌++◌,
  arith, Bool-cases, Option-cases, if◌then◌else◌, length, get_or, set,
}
use excc.Common.Text.{codes, str_eq}
use excc.ChatServer.{
  ClientInfo, ClientList, none, connecting, connected, Effect, close, client, vacant, username,
  client_disconnected, write_all_clients, write_each,
}
use excc.ChatServer.Invariant.{in_use, IsValid, all_slots, client-set}
use excc.ChatServer.Changes.{Change-IsValid, in_use_pos}
use excc.ChatServer.Steps.{client_disconnected-Change}
use excc.ChatServer.Messages.{disconnect_message_fits}
use excc.ChatServer.Wire.{opens, mail}
use excc.ChatServer.Deliveries.{opens-write_each, mail_closed, mail-write_each}
use excc.Room.{Seat, Room, Mail, Event, leaves, Attends, left, waiting, member, farewell}
use excc.Room.Seats
use excc.ChatServer.Seats.{
  socket_of, name_of, status_of, same_fd, same_fd_iff, seat_of, seat_in, is_seated, room,
  AreDistinct, seat_in-at,
}

pub in_use_cases :
    (c : ClientInfo) → in_use c ≡ true → (c.status ≡ connecting) ⊎ (c.status ≡ connected)
in_use_cases c u = ground arith

farewell-none : (s : Seat) → farewell s Option.none ≡ []
farewell-none waiting = refl
farewell-none (member name) = refl

abbrev pub is_list : List ℕ → Bool
is_list text = str_eq text (codes "/list\n")

abbrev pub read_name : List ℕ → List ℕ
read_name memory = (username memory).0

-- What the room is to do: a client that is refused its name does not give its place back.
abbrev pub Acts : Room ℕ → Event ℕ → Room ℕ → Mail ℕ → Type 0
Acts = Attends same_fd read_name is_list 0

-- What reaches each descriptor; the open ones are those of the clients that sit in the room.
abbrev pub mail_from : ClientList → List Effect → Mail ℕ
mail_from cl out fd = mail out fd (is_seated cl fd)

-- After the calls, the open descriptors are those of the clients again.
abbrev pub Tracks : ClientList → ClientList → List Effect → Type 0
Tracks cl m out = (fd : ℕ) → opens out fd (is_seated cl fd) ≡ is_seated m fd

-- A handler for slot `i` does what the room is to do for the event.
pub record Keeps (cl : ClientList) (i : ℕ) (e : Event ℕ) (m : ClientList) (out : List Effect)
    : Type 0 where
  pub acts : Acts (room cl) e (room m) (mail_from cl out)
  pub tracks : Tracks cl m out
  pub valid : IsValid m
  pub distinct : AreDistinct m.clients
  pub others : (j : ℕ) → i ≢ j → client m j ≡ client cl j

module _ {cl : ClientList} (v : IsValid cl) (d : AreDistinct cl.clients) (i : ℕ)
    (inside : i < 5) where
  below : i < length cl.clients
  below = omega (arith, inside, v.slots)

  pub others_stay :
      (c : ClientInfo) (j : ℕ) → i ≢ j → get_or (set cl.clients i c) j vacant ≡ client cl j
  others_stay c j other = ground (arith, client-set v i inside c j)

  pub own_seat :
      in_use (client cl i) ≡ true → seat_in cl.clients (client cl i).socket ≡ seat_of (client cl i)
  own_seat u = seat_in-at cl.clients i d u

  -- The slot is set free.
  module _ (c : ClientInfo) (u : in_use (client cl i) ≡ true) (gone : in_use c ≡ false) where
    pub freed :
        (fd : ℕ)
        → seat_in (set cl.clients i c) fd
          ≡ (if (client cl i).socket == fd then Option.none else seat_in cl.clients fd)
    freed =
        Seats.seat_in-free socket_of name_of status_of vacant same_fd same_fd_iff cl.clients i c
          below gone u d

    pub freed-AreDistinct : AreDistinct (set cl.clients i c)
    freed-AreDistinct =
        Seats.AreDistinct-set socket_of name_of status_of vacant same_fd same_fd_iff cl.clients i c
          below d (λ j other w. absurd (ground arith))

  -- The slot gets another name or status.
  module _ (c : ClientInfo) (u : in_use (client cl i) ≡ true)
      (same : c.socket ≡ (client cl i).socket) where
    pub renamed :
        (fd : ℕ)
        → seat_in (set cl.clients i c) fd
          ≡ (if (client cl i).socket == fd then seat_of c else seat_in cl.clients fd)
    renamed fd =
        Seats.seat_in-set socket_of name_of status_of vacant same_fd same_fd_iff cl.clients i c
          below (λ w. sym same) (λ j other w e. other (d i j u w (sym (e ∙ same)))) fd
        ∙ ap (λ a. if a == fd then seat_of c else seat_in cl.clients fd) same

    pub renamed-AreDistinct : AreDistinct (set cl.clients i c)
    renamed-AreDistinct =
        Seats.AreDistinct-set socket_of name_of status_of vacant same_fd same_fd_iff cl.clients i c
          below d (λ j other p w e. other (d i j u w (sym (e ∙ same))))

  -- The slot is set free and the socket closed; then `out` reaches the others.
  leaving-Keeps :
      (s : Seat) (out : List Effect)
      → in_use (client cl i) ≡ true
      → seat_of (client cl i) ≡ Option.some s
      → ((fd : ℕ) (o : Bool) → opens out fd o ≡ o)
      → ((fd : ℕ) → mail out fd false ≡ [])
      → ((fd : ℕ) → mail out fd true ≡ farewell s (seat_in cl.clients fd))
      → Keeps cl i
          (leaves (client cl i).socket)
          (client_disconnected cl i).0
          (close (client cl i).socket ∷ out)
  unfolding client_disconnected opens mail
  leaving-Keeps s out u seat still lost told =
      let sd = (client cl i).socket in
      let gone : ClientInfo = record (client cl i) { socket = 0; status = none } in
      let rest : (fd : ℕ) → mail out fd (is_seated cl fd) ≡ farewell s (seat_in cl.clients fd) =
        λ fd. elim (Option-cases (seat_in cl.clients fd)) [
          | inl nobody ↦ rw nobody (lost fd ∙ sym (farewell-none s))
          | inr (there, e) ↦ rw e (told fd ∙ rw e refl)
        ] in
      record {
        acts =
            left s (own_seat u ∙ seat) (freed gone u refl)
              (omega (arith, v.counted, in_use_pos v i inside u))
              (λ fd. elim (Bool-cases (sd == fd)) [
                | inl own ↦ rw own (lost fd)
                | inr other ↦ rw other (rest fd)
              ]);
        tracks = λ fd.
            still fd (if sd == fd then false else is_seated cl fd) ∙ elim (Bool-cases (sd == fd)) [
              | inl own ↦ ground (arith, freed gone u refl fd)
              | inr other ↦ ground (arith, freed gone u refl fd)
            ];
        valid = Change-IsValid v (client_disconnected-Change v i inside u);
        distinct = freed-AreDistinct gone u refl;
        others = others_stay gone;
      }

  pub client_disconnected-Keeps :
      in_use (client cl i) ≡ true
      → Keeps cl i
          (leaves (client cl i).socket)
          (client_disconnected cl i).0
          (client_disconnected cl i).1
  unfolding client_disconnected write_all_clients opens mail
  client_disconnected-Keeps u = elim (in_use_cases (client cl i) u) [
    | inl e ↦
        rw (e, client_disconnected)
          (leaving-Keeps waiting [] u (rw e refl) (λ fd o. refl) (λ fd. refl) (λ fd. refl))
    | inr e ↦
        let name = (client cl i).name in
        rw
          (
            e,
            client_disconnected,
            disconnect_message_fits name (v.short i),
            write_all_clients,
            all_slots v,
          )
          (leaving-Keeps (member name) (write_each (name ++ codes " is disconnected\n") cl.clients)
            u (rw e refl) (λ fd o. opens-write_each _ cl.clients fd o)
            (λ fd. mail_closed _ cl.clients fd) (λ fd. mail-write_each _ cl.clients fd d))
  ]
