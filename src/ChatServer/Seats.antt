-- ===== src/ChatServer/Seats.antt =====
-- kadai4/chatserver.c: who sits in the room of a client table. A client is known by its socket.
use mathlib.Core.Option.{Option}
use mathlib.Core.List.{Mem}
use excc.Common.{ℕ, ◌≡◌, ◌≢◌, ◌↔◌, refl, ◌∙◌, Bool, true, false, ◌==◌, List, [], ◌∷◌, arith, get_or}
use excc.Common.Text.{str_eq_iff}
use excc.ChatServer.{ClientStatus, ClientInfo, ClientList, vacant, name_taken}
use excc.ChatServer.Invariant.{in_use, name_taken-true}
use excc.Room.{Seat, member, Room}
use excc.Room.Seats

abbrev pub socket_of : ClientInfo → ℕ
socket_of c = c.socket

abbrev pub name_of : ClientInfo → List ℕ
name_of c = c.name

abbrev pub status_of : ClientInfo → ClientStatus
status_of c = c.status

abbrev pub same_fd : ℕ → ℕ → Bool
same_fd a b = a == b

pub same_fd_iff : (a b : ℕ) → (same_fd a b ≡ true) ↔ (a ≡ b)
same_fd_iff a b = ((λ e. ground arith), λ e. ground arith)

abbrev pub seat_in : List ClientInfo → ℕ → Option Seat
seat_in = Seats.seat_in socket_of name_of status_of vacant same_fd

abbrev pub seat_of : ClientInfo → Option Seat
seat_of = Seats.seat_of socket_of name_of status_of vacant same_fd

-- The room of a table.
abbrev pub room : ClientList → Room ℕ
room cl = record { seat = seat_in cl.clients; occupied = cl.client_count }

abbrev pub names : List ClientInfo → List (List ℕ)
names = Seats.names socket_of name_of status_of vacant same_fd

-- No two entries in use have one socket.
abbrev pub AreDistinct : List ClientInfo → Type 0
AreDistinct = Seats.AreDistinct socket_of name_of status_of vacant same_fd

abbrev pub Absent : List ClientInfo → ℕ → Type 0
Absent = Seats.Absent socket_of name_of status_of vacant same_fd

-- Whether a client sits somewhere.
abbrev pub is_some : Option Seat → Bool
is_some Option.none = false
is_some (Option.some s) = true

abbrev pub is_seated : ClientList → ℕ → Bool
is_seated cl fd = is_some (seat_in cl.clients fd)

pub seat_in-at :
    (cs : List ClientInfo) (j : ℕ)
    → AreDistinct cs
    → in_use (get_or cs j vacant) ≡ true
    → seat_in cs (get_or cs j vacant).socket ≡ seat_of (get_or cs j vacant)
seat_in-at = Seats.seat_in-at socket_of name_of status_of vacant same_fd same_fd_iff refl

pub name_taken-seat :
    (name : List ℕ) (cs : List ClientInfo)
    → AreDistinct cs
    → name_taken name cs ≡ true
    → (fd : ℕ) × (seat_in cs fd ≡ Option.some (member name))
name_taken-seat name cs d e =
    let (j, inside, there, same) = name_taken-true name cs e in
    let up : (get_or cs j vacant).status ≡ ClientStatus.connected = ground arith in
    ((get_or cs j vacant).socket, seat_in-at cs j d (ground arith) ∙ rw (up, same) refl)

pub name_free-seat :
    (name : List ℕ) (cs : List ClientInfo) (fd : ℕ)
    → name_taken name cs ≡ false
    → seat_in cs fd ≢ Option.some (member name)
unfolding name_taken Seats.seat_in
name_free-seat name [] fd e f = cc
name_free-seat name (x ∷ cs) fd e f =
    ground (arith, str_eq_iff x.name name, name_free-seat name cs fd)

pub names-Taken :
    (cs : List ClientInfo) (name : List ℕ)
    → AreDistinct cs
    → Mem name (names cs)
    → ∥ ((fd : ℕ) × (seat_in cs fd ≡ Option.some (member name))) ∥₁
names-Taken = Seats.names-Taken socket_of name_of status_of vacant same_fd same_fd_iff refl

pub Taken-names :
    (cs : List ClientInfo) (name : List ℕ) (fd : ℕ)
    → seat_in cs fd ≡ Option.some (member name)
    → Mem name (names cs)
Taken-names = Seats.Taken-names socket_of name_of status_of vacant same_fd
