-- ===== src/UdpServer.antt =====
-- kadai4/chatserver-udp.c: the UDP chat server, its table of clients, the handlers and the main loop.
-- It shares the message texts and limits of chatserver.c, and knows a client by the address that its
-- datagrams come from. A handler takes the table, and a client by its index; it returns the new table
-- and the datagrams that it sent, in order. What the kernel answers is an argument, one `Answer` for
-- each round of the loop. What the server prints on its own terminal is left out.
pub mod Loop
pub mod Invariant
pub mod Changes
pub mod Rounds
pub mod Capacity
pub mod Messages
pub mod Seats
pub mod Mail
pub mod Serving
pub mod Refinement
pub mod Conversing
mod Tests
mod ConversingTests
use mathlib.Core.Option.{Option}
use excc.Common.{
  ℕ, zero, suc, ◌+◌, ◌-◌, Bool, true, false, not, ◌&&◌, ◌||◌, List, [], ◌∷◌, ◌++◌, leb, ◌==◌,
  if◌then◌else◌, length, get_or, set, take, replicate,
}
use excc.Common.Text.{codes, newline, c_string, str_eq, strchr, snprintf}
use excc.ChatServer.{
  ClientStatus, none, connecting, connected, is_none, is_connected, max_clients, ack_msg,
  reject_msg, username_ack_msg, username_reject_msg, max_username_length, max_buffer_size,
}

pub record Address : Type 0 where
  pub sin_family : ℕ
  pub sin_port : ℕ
  pub s_addr : ℕ

abbrev pub zero_addr : Address
zero_addr = record { sin_family = 0; sin_port = 0; s_addr = 0 }

pub record ClientInfo : Type 0 where
  pub addr : Address
  pub name : List ℕ
  pub status : ClientStatus

pub record ClientList : Type 0 where
  pub clients : List ClientInfo
  pub client_count : ℕ
  pub max_client : ℕ

-- A call of `sendto`.
pub data Effect : Type 0 where
  sendto : (addr : Address) (bytes : List ℕ) → Effect

abbrev pub vacant : ClientInfo
vacant = record { addr = zero_addr; name = []; status = none }

abbrev pub init : ClientList
init = record { clients = replicate max_clients vacant; client_count = 0; max_client = max_clients }

-- client_list->clients[i]; the indices of the code lie within the table.
abbrev pub client : ClientList → ℕ → ClientInfo
client cl i = get_or cl.clients i vacant

abbrev pub put : ClientList → ℕ → ClientInfo → ClientList
put cl i c = record cl { clients = set cl.clients i c }

unfoldable pub same_addr : Address → Address → Bool
same_addr a b =
    (a.sin_family == b.sin_family) && ((a.sin_port == b.sin_port) && (a.s_addr == b.s_addr))

-- The loop of `find_client_by_addr`, from index `k` on; none stands for -1.
unfoldable pub find_addr : ℕ → Address → List ClientInfo → Option ℕ
find_addr k addr [] = Option.none
find_addr k addr (c ∷ cs) =
    let rest = find_addr (suc k) addr cs in
    if not (is_none c.status) && same_addr c.addr addr then Option.some k else rest

unfoldable pub find_client_by_addr : ClientList → Address → Option ℕ
find_client_by_addr cl addr = find_addr 0 addr (take cl.max_client cl.clients)

-- The loop of `find_free_slot`.
pub find_free : ℕ → List ClientInfo → Option ℕ
find_free k [] = Option.none
find_free k (c ∷ cs) =
    let rest = find_free (suc k) cs in if is_none c.status then Option.some k else rest

pub find_free_slot : ClientList → Option ℕ
find_free_slot cl = find_free 0 (take cl.max_client cl.clients)

-- `new_client` with the result of `find_free_slot`.
pub admit : ClientList → Address → Option ℕ → ClientList × List Effect
admit cl addr Option.none = (cl, sendto addr reject_msg ∷ [])
admit cl addr (Option.some i) =
    if leb cl.max_client cl.client_count then (cl, sendto addr reject_msg ∷ []) else (
      record cl {
        clients = set cl.clients i (record { addr = addr; name = []; status = connecting });
        client_count = cl.client_count + 1;
      },
      sendto addr ack_msg ∷ [],
    )

pub new_client : ClientList → Address → ClientList × List Effect
new_client cl addr = admit cl addr (find_free_slot cl)

pub send_each : List ℕ → List ClientInfo → List Effect
send_each message [] = []
send_each message (c ∷ cs) =
    let rest = send_each message cs in
    if is_connected c.status then sendto c.addr message ∷ rest else rest

-- Every call passes `strlen(message)` for the length.
pub write_all_clients : ClientList → List ℕ → List Effect
write_all_clients cl message = send_each message (take cl.max_client cl.clients)

send_others : List ℕ → Address → List ClientInfo → List Effect
send_others message sender [] = []
send_others message sender (c ∷ cs) =
    let rest = send_others message sender cs in
    if is_connected c.status && not (same_addr c.addr sender)
    then sendto c.addr message ∷ rest
    else rest

pub write_other_clients : List ClientInfo → ℕ → List ℕ → ClientInfo → List Effect
write_other_clients clients max message sender = send_others message sender.addr (take max clients)

-- The test of the loop in `register_client_name`.
unfoldable pub name_taken : List ℕ → List ClientInfo → Bool
name_taken name [] = false
name_taken name (c ∷ cs) = (is_connected c.status && str_eq c.name name) || name_taken name cs

-- `join_msg` has room for the name and `sizeof` the template, its NUL included.
pub join_message : List ℕ → List ℕ
join_message name =
    snprintf (max_username_length + (length (codes "%s joined\n") + 1)) (name ++ codes " joined\n")

pub register_client_name : ClientList → ℕ → List ℕ → ClientList × List Effect
register_client_name cl i name =
    let c = client cl i in
    let joined = record c { name = take (max_username_length - 1) name; status = connected } in
    if name_taken name (take cl.max_client cl.clients)
    then (
      record cl {
        clients = set cl.clients i (record c { name = []; status = none });
        client_count = cl.client_count - 1;
      },
      sendto c.addr username_reject_msg ∷ [],
    )
    else (
      put cl i joined,
      sendto c.addr username_ack_msg
          ∷ write_all_clients (put cl i joined) (join_message joined.name),
    )

-- The name that `receive_username` reads off the message, a C string.
pub username : List ℕ → List ℕ
username message =
    let buffer = take (max_username_length - 1) message in
    elim (strchr buffer newline) [ Option.none ↦ buffer | Option.some p ↦ take p buffer ]

pub receive_username : ClientList → ℕ → List ℕ → ClientList × List Effect
receive_username cl i message = register_client_name cl i (username message)

-- No other function calls it.
pub client_disconnected : ClientList → ℕ → ClientList
client_disconnected cl i = put cl i vacant

pub list_each : Address → List ClientInfo → List Effect
list_each to [] = []
list_each to (c ∷ cs) =
    let rest = list_each to cs in
    if is_connected c.status
    then sendto to (snprintf max_buffer_size (c.name ++ newline ∷ [])) ∷ rest
    else rest

pub all_username : ClientList → ℕ → List Effect
all_username cl i = list_each (client cl i).addr (take cl.max_client cl.clients)

pub chat_line : List ℕ → List ℕ → List ℕ
chat_line name message =
    snprintf (max_username_length + max_buffer_size + 8) (name ++ codes ": " ++ message)

pub broadcast_message : ClientList → ℕ → List ℕ → List Effect
broadcast_message cl i message = write_all_clients cl (chat_line (client cl i).name message)

pub handle_massage : ClientList → ℕ → List ℕ → ℕ → ClientList × List Effect
handle_massage cl i message message_length =
    if message_length == 0
    then (cl, [])
    else if str_eq message (codes "/list\n") || str_eq message (codes "/list")
    then (cl, all_username cl i)
    else (cl, broadcast_message cl i message)
