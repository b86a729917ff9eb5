-- ===== src/ChatClient/Joining.antt =====
-- kadai4/chatclient.c with kadai4/chatserver.c: a client joins the chat.
use mathlib.Core.List.{append_assoc}
use excc.Common.{
  ℕ, zero, ◌+◌, ◌≤◌, ◌<◌, ◌≡◌, ◌≢◌, refl, ◌∙◌, true, false, List, [], ◌∷◌, ◌++◌, arith, length,
  length-append, set, take, take-all, length-take-le,
}
use excc.Common.Text.{codes, newline, c_string, IsPlain, c_string-plain}
use excc.ChatServer.{
  ClientList, connecting, connected, bytes, client, put, Effect, write, ack_msg, username_ack_msg,
  name_taken, receive_username, handle_massage,
}
use excc.ChatServer.Loop.{new_client}
use excc.ChatServer.Invariant.{IsValid, client-set, name_taken-set, name_taken-false}
use excc.ChatServer.Changes.{arrive, join, Change-IsValid}
use excc.ChatServer.Capacity.{new_client_cases}
use excc.ChatServer.Messages.{members, to_each, register_client_name_free, handle_massage_line}
use excc.ChatServer.Names.{receive_username_line, receive_username_full}
use excc.ChatClient
use excc.ChatClient.{handshake, accepted, name_line}
use excc.ChatClient.Answers.{handshake_iff}

-- The server's part, once the client is in slot `i`.
registers :
    (m : ClientList) (i fd : ℕ) (stack name : List ℕ)
    → IsValid m
    → i < 5
    → ((client m i).status ≡ connecting) × ((client m i).socket ≡ fd)
    → IsPlain name
    → length name ≤ 15
    → name_taken name m.clients ≡ false
    → (n : ClientList) × (more : List Effect) × (receive_username m i stack
          (bytes (name ++ newline ∷ []))
        ≡ (n, write fd username_ack_msg ∷ more))
      × (client n i ≡ record { socket = fd; name = name; status = connected })
registers m i fd stack name v inside (waits, on) plain short free =
    let c = record (client m i) { name = name; status = connected } in
    (
      put m i c,
      to_each (name ++ codes " joined\n") (members (put m i c).clients),
      receive_username_line m i name stack plain (omega arith)
          ∙ register_client_name_free m i name v inside waits short free
          ∙ rw on,
      ground (arith, client-set v i inside c i),
    )

-- The server lets a client in, and the client sends a name of at most fifteen plain bytes (neither NUL
-- nor line feed), which no registered client has. If each answer arrives by itself and the table is
-- valid with a count below five, the client takes both answers for what they are and goes on to its
-- loop, and the server has it registered under that name.
pub client_joins :
    (cl : ClientList) (fd : ℕ) (buffer stack name : List ℕ)
    → IsValid cl
    → cl.client_count < 5
    → length buffer ≡ 128
    → IsPlain name
    → length name ≤ 15
    → name_taken name cl.clients ≡ false
    → (i : ℕ) × (m n : ClientList) × (more : List Effect) × (new_client cl fd
        ≡ (m, write fd ack_msg ∷ []))
      × (handshake buffer name (bytes ack_msg) true (bytes username_ack_msg)
          ≡ accepted (ChatClient.write (name_line name) ∷ []))
      × (receive_username m i stack (bytes (name_line name))
          ≡ (n, write fd username_ack_msg ∷ more))
      × (client n i ≡ record { socket = fd; name = name; status = connected })
unfolding name_line
client_joins cl fd buffer stack name v room size plain short free =
    let (i, below, unused, let_in) = (new_client_cases cl fd v).1 room in
    let c = record (client cl i) { socket = fd; status = connecting } in
    let w = Change-IsValid v (arrive i fd below unused room) in
    let m : ClientList = record cl {
      clients = set cl.clients i c;
      client_count = cl.client_count + 1;
    } in
    let here : client m i ≡ c = ground (arith, client-set v i below c i) in
    let free' : name_taken name m.clients ≡ false =
      name_taken-set name cl.clients i c refl (rw unused refl) ∙ free in
    let (n, more, registered, there) =
      registers m i fd stack name w below (ground arith, ground arith) plain short free' in
    (
      i,
      m,
      n,
      more,
      let_in,
      (handshake_iff buffer name b'R' b'U' _ _ size).1 (refl, refl),
      rw (take-all 127 name (omega arith)) registered,
      there,
    )

-- A line that the server takes for a message, though it may be the rest of a name.
handle_rest :
    (n : ClientList) (i : ℕ) (tail : List ℕ)
    → IsValid n
    → IsPlain tail
    → length tail ≤ 111
    → tail ++ newline ∷ [] ≢ codes "/list\n"
    → handle_massage n i (bytes (tail ++ newline ∷ []))
      ≡ (n, to_each ((client n i).name ++ codes ": " ++ (tail ++ newline ∷ [])) (members n.clients))
handle_rest n i [] v plain short other =
    handle_massage_line n i newline [] v (omega arith) (unfold c_string in other)
    ∙ unfold c_string in refl
handle_rest n i (b ∷ bs) v plain short other =
    let text : c_string (b ∷ (bs ++ newline ∷ [])) ≡ b ∷ (bs ++ newline ∷ []) =
      c_string-plain (b ∷ bs) (newline ∷ []) plain ∙ unfold c_string in refl in
    handle_massage_line n i b (bs ++ newline ∷ []) v
      (omega (arith, length-append bs (newline ∷ []))) (rw text other)
    ∙ rw text

-- The client does not hold a name to the server's limit. Of a name of sixteen plain bytes and more
-- (at most 127), `read` gives the server the first sixteen, and it registers fifteen, if the byte
-- right behind its buffer is a NUL, and no client has that name. Its next `read` gives the rest of the
-- client's line, and this goes to all registered clients as a message of the new one, if it is not "/list"
-- and its line feed.
pub long_name_spills :
    (cl : ClientList) (i : ℕ) (head tail under rest : List ℕ)
    → IsValid cl
    → i < 5
    → (client cl i).status ≡ connecting
    → length head ≡ 16
    → length tail ≤ 111
    → IsPlain head
    → IsPlain tail
    → length under ≡ 16
    → name_taken (take 15 head) cl.clients ≡ false
    → tail ++ newline ∷ [] ≢ codes "/list\n"
    → (name_line (head ++ tail) ≡ head ++ (tail ++ newline ∷ []))
      × (n : ClientList) × (more : List Effect) × (receive_username cl i
            (under ++ zero ∷ rest)
            (bytes head)
          ≡ (n, write (client cl i).socket username_ack_msg ∷ more))
      × (client n i
          ≡ record { socket = (client cl i).socket; name = take 15 head; status = connected })
      × (handle_massage n i (bytes (tail ++ newline ∷ []))
          ≡ (n, to_each (take 15 head ++ codes ": " ++ (tail ++ newline ∷ [])) (members n.clients)))
unfolding name_line
long_name_spills cl i head tail under rest v inside waits full short plain plain' size free other =
    let name = take 15 head in
    let fits = length-take-le 15 head in
    let c = record (client cl i) { name = name; status = connected } in
    let n = put cl i c in
    let w : IsValid n =
      Change-IsValid v
        (join i name inside waits fits (λ j m. name_taken-false name cl.clients j free m)) in
    let here : client n i ≡ c = ground (arith, client-set v i inside c i) in
    (
      rw (take-all 127 (head ++ tail) (omega (arith, length-append head tail)))
          (append_assoc head tail (newline ∷ [])),
      n,
      to_each (name ++ codes " joined\n") (members n.clients),
      receive_username_full cl i head under rest plain full size
          ∙ register_client_name_free cl i name v inside waits fits free,
      here,
      handle_rest n i tail w plain' short other ∙ rw here,
    )

-- The buffer cuts no name of at most 127 bytes.
pub name_line_short : (name : List ℕ) → length name ≤ 127 → name_line name ≡ name ++ newline ∷ []
unfolding name_line
name_line_short name h = rw (take-all 127 name h)
