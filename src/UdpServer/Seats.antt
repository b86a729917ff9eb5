-- ===== src/UdpServer/Seats.antt =====
-- kadai4/chatserver-udp.c: who sits in the room of a client table.
use mathlib.Core.Option.{Option}
use mathlib.Core.List.{Mem}
use excc.Common.{
  ℕ, suc, ◌<◌, ◌≡◌, ◌≢◌, refl, ◌∙◌, inl, inr, true, false, ◌&&◌, List, [], ◌∷◌, arith, Bool-cases,
  if◌then◌else◌, get_or, set, length,
}
use excc.Common.Text.{str_eq, str_eq_iff}
use excc.ChatServer.{ClientStatus, is_connected, connected}
use excc.Room.{Seat, member, Room}
use excc.Room.Seats
use excc.UdpServer.{Address, ClientInfo, ClientList, vacant, same_addr, name_taken}
use excc.UdpServer.Invariant.{in_use, same_addr_iff}

abbrev pub addr_of : ClientInfo → Address
addr_of c = c.addr

abbrev pub name_of : ClientInfo → List ℕ
name_of c = c.name

abbrev pub status_of : ClientInfo → ClientStatus
status_of c = c.status

abbrev pub seat_in : List ClientInfo → Address → Option Seat
seat_in = Seats.seat_in addr_of name_of status_of vacant same_addr

abbrev pub seat_of : ClientInfo → Option Seat
seat_of = Seats.seat_of addr_of name_of status_of vacant same_addr

-- The room of a table.
abbrev pub room : ClientList → Room Address
room cl = record { seat = seat_in cl.clients; occupied = cl.client_count }

abbrev pub names : List ClientInfo → List (List ℕ)
names = Seats.names addr_of name_of status_of vacant same_addr

-- No two entries in use have one address.
abbrev pub AreDistinct : List ClientInfo → Type 0
AreDistinct = Seats.AreDistinct addr_of name_of status_of vacant same_addr

abbrev pub Absent : List ClientInfo → Address → Type 0
Absent = Seats.Absent addr_of name_of status_of vacant same_addr

pub seat_in-none :
    (cs : List ClientInfo) (addr : Address) → Absent cs addr → seat_in cs addr ≡ Option.none
seat_in-none = Seats.seat_in-none addr_of name_of status_of vacant same_addr same_addr_iff

pub seat_in-at :
    (cs : List ClientInfo) (j : ℕ)
    → AreDistinct cs
    → in_use (get_or cs j vacant) ≡ true
    → seat_in cs (get_or cs j vacant).addr ≡ seat_of (get_or cs j vacant)
seat_in-at = Seats.seat_in-at addr_of name_of status_of vacant same_addr same_addr_iff refl

pub seat_in-set :
    (cs : List ClientInfo) (i : ℕ) (c : ClientInfo)
    → i < length cs
    → (in_use (get_or cs i vacant) ≡ true → (get_or cs i vacant).addr ≡ c.addr)
    → ((j : ℕ) → i ≢ j → in_use (get_or cs j vacant) ≡ true → (get_or cs j vacant).addr ≢ c.addr)
    → (b : Address)
    → seat_in (set cs i c) b ≡ (if same_addr c.addr b then seat_of c else seat_in cs b)
seat_in-set = Seats.seat_in-set addr_of name_of status_of vacant same_addr same_addr_iff

pub names-Taken :
    (cs : List ClientInfo) (name : List ℕ)
    → AreDistinct cs
    → Mem name (names cs)
    → ∥ ((b : Address) × (seat_in cs b ≡ Option.some (member name))) ∥₁
names-Taken = Seats.names-Taken addr_of name_of status_of vacant same_addr same_addr_iff refl

pub Taken-names :
    (cs : List ClientInfo) (name : List ℕ) (b : Address)
    → seat_in cs b ≡ Option.some (member name)
    → Mem name (names cs)
Taken-names = Seats.Taken-names addr_of name_of status_of vacant same_addr

name_taken-true :
    (name : List ℕ) (cs : List ClientInfo)
    → name_taken name cs ≡ true
    → (j : ℕ) × ((get_or cs j vacant).status ≡ connected) × ((get_or cs j vacant).name ≡ name)
unfolding name_taken
name_taken-true name [] e = cc
name_taken-true name (x ∷ cs) e = elim (Bool-cases (is_connected x.status && str_eq x.name name)) [
  | inl here ↦ (0, ground arith, ground (arith, str_eq_iff x.name name))
  | inr other ↦
      let (j, there, same) = name_taken-true name cs (ground arith) in (suc j, there, same)
]

pub name_taken-seat :
    (name : List ℕ) (cs : List ClientInfo)
    → AreDistinct cs
    → name_taken name cs ≡ true
    → (b : Address) × (seat_in cs b ≡ Option.some (member name))
name_taken-seat name cs d e =
    let (j, there, same) = name_taken-true name cs e in
    ((get_or cs j vacant).addr, seat_in-at cs j d (ground arith) ∙ rw (there, same) refl)

pub name_free-seat :
    (name : List ℕ) (cs : List ClientInfo) (b : Address)
    → name_taken name cs ≡ false
    → seat_in cs b ≢ Option.some (member name)
unfolding name_taken Seats.seat_in
name_free-seat name [] b e f = cc
name_free-seat name (x ∷ cs) b e f =
    ground (arith, str_eq_iff x.name name, name_free-seat name cs b)
