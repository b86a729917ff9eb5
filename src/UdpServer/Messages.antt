-- ===== src/UdpServer/Messages.antt =====
-- kadai4/chatserver-udp.c: which datagrams go to which client.
use mathlib.Core.Option.{Option}
use mathlib.Core.List.{filter}
use excc.Common.{
  ℕ, zero, suc, ◌≤◌, ◌<◌, ◌≡◌, ◌≢◌, refl, ap, ◌∙◌, false, List, [], ◌∷◌, ◌++◌, map, arith,
  Option-cases, Bool-cases, ◌||◌, if◌then◌else◌, inl, inr, length, length-append, take, take-all,
  length-take-le, get_or,
}
use excc.Common.Text.{
  codes, newline, c_string, str_eq, strchr, IsPlain, c_string-plain, length-c_string,
}
use excc.Common.Outcome.{running}
use excc.ChatServer.{connecting, connected, username_ack_msg}
use excc.ChatServer.Messages.{dec_connected}
use excc.UdpServer.{
  Address, ClientInfo, ClientList, Effect, sendto, vacant, client, put, send_each,
  write_all_clients, name_taken, join_message, username, register_client_name, receive_username,
  list_each, all_username, chat_line, broadcast_message, handle_massage,
}
use excc.UdpServer.Loop.{datagram, round}
use excc.UdpServer.Invariant.{IsValid, all_slots, name_taken-false}
use excc.UdpServer.Changes.{Change-IsValid, join}
use excc.UdpServer.Rounds.{round-connecting, round-member}

-- The registered clients, in the order of their slots.
abbrev pub members : List ClientInfo → List ClientInfo
members = filter (λ c. dec_connected c.status)

-- One datagram with the message to each.
abbrev pub to_each : List ℕ → List ClientInfo → List Effect
to_each message = map (λ c. sendto c.addr message)

send_each-members :
    (message : List ℕ) (cs : List ClientInfo) → send_each message cs ≡ to_each message (members cs)
unfolding send_each
send_each-members message [] = refl
send_each-members message (c ∷ cs) = ground (arith, send_each-members message cs)

write_all-members :
    {cl : ClientList} (message : List ℕ)
    → IsValid cl
    → write_all_clients cl message ≡ to_each message (members cl.clients)
unfolding write_all_clients
write_all-members {cl} message v = rw (all_slots v) (send_each-members message cl.clients)

-- The array for the message holds it, for a name and a message that fit their own arrays.
pub chat_line_fits :
    (name message : List ℕ)
    → length name ≤ 15
    → length message ≤ 127
    → chat_line name message ≡ name ++ codes ": " ++ message
unfolding chat_line
chat_line_fits name message h k = take-all 151 _ (
    omega (
      arith,
      length-append name (codes ": " ++ message),
      length-append (name ++ codes ": ") message,
      length-append name (codes ": "),
    ))

pub join_message_fits :
    (name : List ℕ) → length name ≤ 15 → join_message name ≡ name ++ codes " joined\n"
unfolding join_message
join_message_fits name h = take-all 26 _ (omega (arith, length-append name (codes " joined\n")))

list_each-members :
    (to : Address) (cs : List ClientInfo)
    → ((j : ℕ) → length (get_or cs j vacant).name ≤ 15)
    → list_each to cs ≡ map (λ c. sendto to (c.name ++ newline ∷ [])) (members cs)
unfolding list_each
list_each-members to [] short = refl
list_each-members to (c ∷ cs) short = ground (
  arith,
  list_each-members to cs (λ j. short (suc j)),
  take-all 127 (c.name ++ newline ∷ [])
      (omega (arith, length-append c.name (newline ∷ []), short 0)),
)

-- What a message makes the server send: a list of the names to its sender, or the line to all.
abbrev pub answers : ClientList → ℕ → List ℕ → List Effect
answers cl i message =
    let sender = client cl i in
    if str_eq message (codes "/list\n") || str_eq message (codes "/list")
    then map (λ c. sendto sender.addr (c.name ++ newline ∷ [])) (members cl.clients)
    else to_each (sender.name ++ codes ": " ++ message) (members cl.clients)

-- On a valid table, a datagram of at most 127 bytes from a registered client leaves the table as it is.
-- If it is "/list", with or without a line feed, the name of each registered client and a line feed
-- are sent to that client and to nobody else, one datagram for each name. If not, its bytes up to a NUL
-- go to every registered client, the sender too, behind the sender's name and ": ", with nothing cut
-- off. Both are in the order of the slots.
pub datagram_message :
    (cl : ClientList) (i b : ℕ) (bs : List ℕ)
    → IsValid cl
    → (client cl i).status ≡ connected
    → length (b ∷ bs) ≤ 127
    → round cl (datagram (client cl i).addr (b ∷ bs))
      ≡ running cl (answers cl i (c_string (b ∷ bs)))
unfolding handle_massage broadcast_message all_username
datagram_message cl i b bs v e short =
    let message = c_string (b ∷ bs) in
    elim (Bool-cases (str_eq message (codes "/list\n") || str_eq message (codes "/list"))) [
      | inl listed ↦
          round-member v i b bs e
          ∙ rw (listed, all_slots v, list_each-members (client cl i).addr cl.clients v.short)
              (ground arith)
      | inr other ↦
          round-member v i b bs e
          ∙ rw
              (
                other,
                chat_line_fits (client cl i).name message (v.short i)
                    (omega (arith, length-c_string (b ∷ bs))),
                write_all-members _ v,
              )
              (ground arith)
    ]

-- The bytes of a buffer before its first line feed.
cut : List ℕ → List ℕ
cut m = elim (strchr m newline) [ Option.none ↦ m | Option.some p ↦ take p m ]

cut-cons : (c : ℕ) (m : List ℕ) → c ≢ newline → cut (c ∷ m) ≡ c ∷ cut m
unfolding cut strchr
cut-cons c m other = elim (Option-cases (strchr m newline)) [
  | inl e ↦ ground arith
  | inr (p, e) ↦ ground arith
]

cut-plain :
    (n : ℕ) (name rest : List ℕ)
    → IsPlain name
    → cut (take n (name ++ newline ∷ rest)) ≡ take n name
unfolding cut strchr
cut-plain zero name rest plain = refl
cut-plain (suc n) [] rest plain = refl
cut-plain (suc n) (c ∷ s) rest plain =
    cut-cons c (take n (s ++ newline ∷ rest)) plain.1 ∙ ap (◌∷◌ c) (cut-plain n s rest plain.2)

-- Of plain bytes before a line feed the first fifteen are the name.
username-plain :
    (name rest : List ℕ) → IsPlain name → username (name ++ newline ∷ rest) ≡ take 15 name
unfolding username cut
username-plain name rest plain = cut-plain 15 name rest plain

-- On a valid table, a client that has no name yet and sends plain bytes (neither NUL nor line feed)
-- and a line feed, whatever follows, is registered under the first fifteen of them, if no registered
-- client has that name. It is told so first; then all registered clients, itself too, are sent the
-- name and " joined\n".
pub datagram_register :
    (cl : ClientList) (i b : ℕ) (bs name rest : List ℕ)
    → IsValid cl
    → i < 5
    → (client cl i).status ≡ connecting
    → b ∷ bs ≡ name ++ newline ∷ rest
    → IsPlain name
    → name_taken (take 15 name) cl.clients ≡ false
    → let joined = put cl i (record (client cl i) { name = take 15 name; status = connected }) in
      round cl (datagram (client cl i).addr (b ∷ bs))
      ≡ running joined (
          sendto (client cl i).addr username_ack_msg
          ∷ to_each (take 15 name ++ codes " joined\n") (members joined.clients))
unfolding register_client_name receive_username
datagram_register cl i b bs name rest v inside e whole plain free =
    let text : c_string (b ∷ bs) ≡ name ++ c_string (newline ∷ rest) =
      ap c_string whole ∙ c_string-plain name (newline ∷ rest) plain in
    let taken : username (c_string (b ∷ bs)) ≡ take 15 name =
      ap username text ∙ unfold c_string in username-plain name (c_string rest) plain in
    let fits = length-take-le 15 name in
    let fresh = Change-IsValid v (
      join i (take 15 name) inside e fits
        (λ j m. name_taken-false (take 15 name) cl.clients j free m)) in
    round-connecting v i b bs e
    ∙ rw (
      taken,
      all_slots v,
      free,
      take-all 15 (take 15 name) fits,
      join_message_fits (take 15 name) fits,
      write_all-members _ fresh,
    )
