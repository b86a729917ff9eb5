-- ===== src/ChatServer.antt =====
-- kadai4/chatserver.c: the TCP chat server, its table of clients and the handlers of its main loop.
-- A handler takes the table, and a client by its index in it (the C code passes `&clients[i]`). It
-- returns the new table and the calls that it made on sockets, in order. The names as C strings,
-- without the NUL. What the server prints on its own terminal is left out.
pub mod Loop
pub mod Invariant
pub mod Changes
pub mod Others
pub mod Steps
pub mod Runs
pub mod Capacity
pub mod Messages
pub mod Names
pub mod Watch
pub mod Seats
pub mod Wire
pub mod Deliveries
pub mod Attending
pub mod Answering
pub mod Slots
pub mod Arriving
pub mod Refinement
pub mod Conversing
mod Tests
mod ConversingTests
use Prim.Native.Nat.{ℕ}
use mathlib.Core.Option
use mathlib.Core.Option.{Option}
use excc.Common.{
  zero, suc, ◌+◌, ◌-◌, ◌≡◌, Bool, true, false, not, ◌&&◌, ◌||◌, List, [], ◌∷◌, ◌++◌, leb, ltb, ◌==◌,
  if◌then◌else◌, length, get_or, set, take, drop, replicate,
}
use excc.Common.Text.{codes, newline, c_string, str_eq, strchr, snprintf}

abbrev pub max_clients : ℕ
max_clients = 5

abbrev pub max_username_length : ℕ
max_username_length = 16

abbrev pub max_buffer_size : ℕ
max_buffer_size = 128

abbrev pub ack_msg : List ℕ
ack_msg = codes "REQUEST ACCEPTED\n"

abbrev pub reject_msg : List ℕ
reject_msg = codes "REQUEST REJECTED\n"

abbrev pub username_ack_msg : List ℕ
username_ack_msg = codes "USERNAME REGISTERED\n"

abbrev pub username_reject_msg : List ℕ
username_reject_msg = codes "USERNAME REJECTED\n"

pub data ClientStatus : Type 0 where
  none connecting connected : ClientStatus

pub record ClientInfo : Type 0 where
  pub socket : ℕ
  pub name : List ℕ
  pub status : ClientStatus

pub record ClientList : Type 0 where
  pub clients : List ClientInfo
  pub client_count : ℕ
  pub max_client : ℕ

-- The calls that a handler makes; `accept` has given the descriptor. `stray_store` is a store outside the buffer that it is meant for.
pub data Effect : Type 0 where
  accept : (fd : ℕ) → Effect
  write : (fd : ℕ) (bytes : List ℕ) → Effect
  close : (fd : ℕ) → Effect
  stray_store : Effect

-- What `read` returns: -1, or the bytes that it stored (none of them at the end of the stream).
pub data ReadResult : Type 0 where
  failed : ReadResult
  bytes : List ℕ → ReadResult

abbrev pub is_none : ClientStatus → Bool
is_none none = true
is_none _ = false

abbrev pub is_connected : ClientStatus → Bool
is_connected connected = true
is_connected _ = false

-- A slot as `main` sets it up.
abbrev pub vacant : ClientInfo
vacant = record { socket = 0; name = []; status = none }

abbrev pub init : ClientList
init = record { clients = replicate max_clients vacant; client_count = 0; max_client = max_clients }

-- client_list->clients[i]; the indices of the code lie within the table.
abbrev pub client : ClientList → ℕ → ClientInfo
client cl i = get_or cl.clients i vacant

abbrev pub put : ClientList → ℕ → ClientInfo → ClientList
put cl i c = record cl { clients = set cl.clients i c }

pub write_each : List ℕ → List ClientInfo → List Effect
write_each message [] = []
write_each message (c ∷ cs) =
    let rest = write_each message cs in
    if is_connected c.status then write c.socket message ∷ rest else rest

-- The handlers that pass `clients` for the list and `max_clients` for the sender pass the same
-- address, and the sender is not used.
pub write_all_clients : ClientList → List ℕ → List Effect
write_all_clients cl message = write_each message (take cl.max_client cl.clients)

-- The sender is left out by its place in the table, `i` counted from `k`.
write_others : ℕ → ℕ → List ℕ → List ClientInfo → List Effect
write_others k i message [] = []
write_others k i message (c ∷ cs) =
    let rest = write_others (suc k) i message cs in
    if is_connected c.status && not (k == i) then write c.socket message ∷ rest else rest

pub write_other_clients : List ClientInfo → ℕ → List ℕ → ℕ → List Effect
write_other_clients clients max message i = write_others 0 i message (take max clients)

pub disconnect_message : List ℕ → List ℕ
disconnect_message name =
    snprintf (max_username_length + length (codes "%s is disconnected\n"))
      (name ++ codes " is disconnected\n")

pub client_disconnected : ClientList → ℕ → ClientList × List Effect
client_disconnected cl i =
    let c = client cl i in
    let farewell =
      if is_connected c.status then write_all_clients cl (disconnect_message c.name) else [] in
    (
      record cl {
        clients = set cl.clients i (record c { socket = 0; status = none });
        client_count = cl.client_count - 1;
      },
      close c.socket ∷ farewell,
    )

-- The test of the loop in `register_client_name`.
unfoldable pub name_taken : List ℕ → List ClientInfo → Bool
name_taken name [] = false
name_taken name (c ∷ cs) = (is_connected c.status && str_eq c.name name) || name_taken name cs

pub join_message : List ℕ → List ℕ
join_message name =
    snprintf (max_username_length + length (codes "%s joined\n")) (name ++ codes " joined\n")

pub register_client_name : ClientList → ℕ → List ℕ → ClientList × List Effect
register_client_name cl i name =
    let c = client cl i in
    let joined = record c { name = take (max_username_length - 1) name; status = connected } in
    if name_taken name (take cl.max_client cl.clients)
    then (put cl i vacant, write c.socket username_reject_msg ∷ close c.socket ∷ [])
    else (
      put cl i joined,
      write c.socket username_ack_msg
          ∷ write_all_clients (put cl i joined) (join_message joined.name),
    )

-- The memory from the buffer's first byte on, once `read` has stored its bytes there.
abbrev pub stored : List ℕ → List ℕ → List ℕ
stored stack received = received ++ drop (length received) stack

-- The user name that is read off that memory, and the stores outside the buffer on the way.
pub username : List ℕ → List ℕ × List Effect
username memory = elim (strchr (c_string memory) newline) [
  | Option.none ↦ (c_string (take (max_username_length - 1) memory), [])
  | Option.some p ↦
      (take p (c_string memory), if ltb p max_username_length then [] else stray_store ∷ [])
]

-- `stack` is what the uninitialised buffer and the memory behind it hold.
pub receive_username : ClientList → ℕ → List ℕ → ReadResult → ClientList × List Effect
receive_username cl i stack failed = client_disconnected cl i
receive_username cl i stack (bytes []) = client_disconnected cl i
receive_username cl i stack (bytes (b ∷ bs)) =
    let (name, stray) = username (stored stack (b ∷ bs)) in
    let (cl', out) = register_client_name cl i name in (cl', stray ++ out)

pub list_each : ℕ → List ClientInfo → List Effect
list_each fd [] = []
list_each fd (c ∷ cs) =
    let rest = list_each fd cs in
    if is_connected c.status
    then write fd (snprintf max_buffer_size (c.name ++ newline ∷ [])) ∷ rest
    else rest

pub all_username : ClientList → ℕ → List Effect
all_username cl i = list_each (client cl i).socket (take cl.max_client cl.clients)

pub chat_line : List ℕ → List ℕ → List ℕ
chat_line name message =
    snprintf (max_username_length + max_buffer_size + length (codes "%s: %s"))
      (name ++ codes ": " ++ message)

pub broadcast_message : ClientList → ℕ → List ℕ → List Effect
broadcast_message cl i message = write_all_clients cl (chat_line (client cl i).name message)

-- The store at `message_buffer[bytes_received]` comes before the test of `bytes_received`.
pub handle_massage : ClientList → ℕ → ReadResult → ClientList × List Effect
handle_massage cl i failed = let (cl', out) = client_disconnected cl i in (cl', stray_store ∷ out)
handle_massage cl i (bytes []) = client_disconnected cl i
handle_massage cl i (bytes (b ∷ bs)) =
    let message = c_string (b ∷ bs) in
    if str_eq message (codes "/list\n")
    then (cl, all_username cl i)
    else (cl, broadcast_message cl i message)
