-- ===== src/ChatServer/Messages.antt =====
-- kadai4/chatserver.c: which bytes go to which client.
use mathlib.Core.List.{filter, mem-map_of_mem, mem-cons_self, mem-cons_of_mem, Mem}
use excc.Common.{
  ℕ, zero, suc, ◌≤◌, ◌<◌, ◌≡◌, ◌≢◌, refl, ap, true, false, List, [], ◌∷◌, ◌++◌, map, arith,
  Bool-cases, inl, inr, length, length-append, take-all, get_or,
}
use excc.Common.Text.{codes, newline, c_string, str_eq, str_eq_iff, length-c_string}
use excc.ChatServer.{
  ClientInfo, ClientList, ClientStatus, none, connecting, connected, Effect, write, close, bytes,
  is_connected, vacant, client, put, write_each, write_all_clients, disconnect_message,
  client_disconnected, name_taken, join_message, register_client_name, list_each, all_username,
  chat_line, broadcast_message, handle_massage, username_ack_msg,
}
use excc.ChatServer.Invariant.{is_member, IsValid, all_slots, name_taken-false}
use excc.ChatServer.Changes.{Change-IsValid, join}

pub none-ne-connected : none ≢ connected
none-ne-connected e = cc

pub connecting-ne-connected : connecting ≢ connected
connecting-ne-connected e = cc

unfoldable pub dec_connected : (s : ClientStatus) → Dec (s ≡ connected)
dec_connected none = no none-ne-connected
dec_connected connecting = no connecting-ne-connected
dec_connected connected = yes refl

-- The registered clients, in the order of their slots.
abbrev pub members : List ClientInfo → List ClientInfo
members = filter (λ c. dec_connected c.status)

-- One write of the message to each.
abbrev pub to_each : List ℕ → List ClientInfo → List Effect
to_each message = map (λ c. write c.socket message)

write_each-members :
    (message : List ℕ) (cs : List ClientInfo) → write_each message cs ≡ to_each message (members cs)
unfolding write_each
write_each-members message [] = refl
write_each-members message (c ∷ cs) = ground (arith, write_each-members message cs)

pub write_all-members :
    {cl : ClientList} (message : List ℕ)
    → IsValid cl
    → write_all_clients cl message ≡ to_each message (members cl.clients)
unfolding write_all_clients
write_all-members {cl} message v = rw (all_slots v) (write_each-members message cl.clients)

-- The array for the message holds it, for a name and a message that fit their own arrays.
pub chat_line_fits :
    (name message : List ℕ)
    → length name ≤ 15
    → length message ≤ 127
    → chat_line name message ≡ name ++ codes ": " ++ message
unfolding chat_line
chat_line_fits name message h k = take-all 149 _ (
    omega (
      arith,
      length-append name (codes ": " ++ message),
      length-append (name ++ codes ": ") message,
      length-append name (codes ": "),
    ))

pub join_message_fits :
    (name : List ℕ) → length name ≤ 15 → join_message name ≡ name ++ codes " joined\n"
unfolding join_message
join_message_fits name h = take-all 25 _ (omega (arith, length-append name (codes " joined\n")))

pub disconnect_message_fits :
    (name : List ℕ)
    → length name ≤ 15
    → disconnect_message name ≡ name ++ codes " is disconnected\n"
unfolding disconnect_message
disconnect_message_fits name h =
    take-all 34 _ (omega (arith, length-append name (codes " is disconnected\n")))

list_each-members :
    (fd : ℕ) (cs : List ClientInfo)
    → ((j : ℕ) → length (get_or cs j vacant).name ≤ 15)
    → list_each fd cs ≡ map (λ c. write fd (c.name ++ newline ∷ [])) (members cs)
unfolding list_each
list_each-members fd [] short = refl
list_each-members fd (c ∷ cs) short = ground (
  arith,
  list_each-members fd cs (λ j. short (suc j)),
  take-all 127 (c.name ++ newline ∷ [])
      (omega (arith, length-append c.name (newline ∷ []), short 0)),
)

-- On a valid table, the line "/list" of a registered client makes the server write the name of each
-- registered client and a line feed, one write for each in the order of the slots, to that client
-- and to nobody else. The table stays.
pub handle_massage_list :
    (cl : ClientList) (i b : ℕ) (bs : List ℕ)
    → IsValid cl
    → c_string (b ∷ bs) ≡ codes "/list\n"
    → handle_massage cl i (bytes (b ∷ bs))
      ≡ (cl, map (λ c. write (client cl i).socket (c.name ++ newline ∷ [])) (members cl.clients))
unfolding handle_massage all_username
handle_massage_list cl i b bs v list =
    rw ((str_eq_iff _ _).1 list, all_slots v)
      (ap (λ out. (cl, out)) (list_each-members (client cl i).socket cl.clients v.short))

member-mem :
    (cs : List ClientInfo) (i : ℕ)
    → is_connected (get_or cs i vacant).status ≡ true
    → Mem (get_or cs i vacant) (members cs)
member-mem [] i e = cc
member-mem (c ∷ cs) zero e = ground (arith, mem-cons_self {a = c} {l = members cs})
member-mem (c ∷ cs) (suc i) e =
    let there = member-mem cs i e in ground (arith, there, mem-cons_of_mem c there)

-- On a valid table, when a registered client goes, its socket is closed first; then every registered
-- client, the one that went among them, is written its name and " is disconnected\n". So there is
-- one write to the closed descriptor.
pub client_disconnected_member :
    (cl : ClientList) (i : ℕ)
    → IsValid cl
    → is_member cl i ≡ true
    → let farewell = (client cl i).name ++ codes " is disconnected\n" in
      ((client_disconnected cl i).1
        ≡ close (client cl i).socket ∷ to_each farewell (members cl.clients))
      × Mem (write (client cl i).socket farewell) (to_each farewell (members cl.clients))
unfolding client_disconnected
client_disconnected_member cl i v e = (
  rw (e, disconnect_message_fits (client cl i).name (v.short i), write_all-members _ v),
  mem-map_of_mem _ (member-mem cl.clients i e),
)

-- On a valid table, a client that has no name yet and gives one of at most 15 bytes that no
-- registered client has, is registered under it in its slot. It is told so first; then all
-- registered clients, itself too, are written the name and " joined\n".
pub register_client_name_free :
    (cl : ClientList) (i : ℕ) (name : List ℕ)
    → IsValid cl
    → i < 5
    → (client cl i).status ≡ connecting
    → length name ≤ 15
    → name_taken name cl.clients ≡ false
    → let joined = put cl i (record (client cl i) { name = name; status = connected }) in
      register_client_name cl i name ≡ (
        joined,
        write (client cl i).socket username_ack_msg
            ∷ to_each (name ++ codes " joined\n") (members joined.clients),
      )
unfolding register_client_name
register_client_name_free cl i name v inside e fits free =
    let fresh =
      Change-IsValid v
        (join i name inside e fits (λ j m. name_taken-false name cl.clients j free m)) in
    rw (
      all_slots v,
      free,
      take-all 15 name fits,
      join_message_fits name fits,
      write_all-members _ fresh,
    )

-- On a valid table, a line of at most 127 bytes that a registered client sends, other than "/list",
-- goes to every registered client, the sender too, in the order of the slots, behind the sender's
-- name and ": ". Nothing of it is cut off but what stands behind a NUL, and the table stays.
pub handle_massage_line :
    (cl : ClientList) (i b : ℕ) (bs : List ℕ)
    → IsValid cl
    → length (b ∷ bs) ≤ 127
    → c_string (b ∷ bs) ≢ codes "/list\n"
    → handle_massage cl i (bytes (b ∷ bs))
      ≡ (cl, to_each ((client cl i).name ++ codes ": " ++ c_string (b ∷ bs)) (members cl.clients))
unfolding handle_massage broadcast_message
handle_massage_line cl i b bs v short other =
    elim (Bool-cases (str_eq (c_string (b ∷ bs)) (codes "/list\n"))) [
      | inl list ↦ absurd (other ((str_eq_iff _ _).0 list))
      | inr line ↦ rw (
        line,
        chat_line_fits (client cl i).name (c_string (b ∷ bs)) (v.short i)
            (omega (arith, length-c_string (b ∷ bs))),
        write_all-members _ v,
      )
    ]
