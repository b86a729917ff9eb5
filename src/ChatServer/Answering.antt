-- ===== src/ChatServer/Answering.antt =====
-- kadai4/chatserver.c: a name that is read, and a message, are answered as the room is to answer them.
use mathlib.Core.Option.{Option}
use excc.Common.{
  ℕ, ◌≤◌, ◌<◌, ◌≡◌, refl, sym, ap, ◌∙◌, subst, inl, inr, Bool, true, false, ◌&&◌, ◌==◌, List, [],
  ◌∷◌, ◌++◌, arith, Bool-cases, Option-cases, if◌then◌else◌, length, set, take-all,
}
use excc.Common.Text.{codes, c_string, length-c_string}
use excc.ChatServer.{
  ClientInfo, ClientList, connecting, connected, Effect, write, close, bytes, client, vacant, put,
  username, write_all_clients, write_each, name_taken, register_client_name, username_ack_msg,
  username_reject_msg, handle_massage, all_username, list_each, broadcast_message,
}
use excc.ChatServer.Invariant.{in_use, IsValid, all_slots, name_taken-false, name_taken-true}
use excc.ChatServer.Changes.{Change-IsValid, Change}
use excc.ChatServer.Messages.{chat_line_fits, join_message_fits}
use excc.ChatServer.Wire.{opens, mail}
use excc.ChatServer.Deliveries.{
  opens-write_each, opens-list_each, mail_closed, mail-write_each, mail-list_each,
}
use excc.Room.{Seat, says, said, refuse_name, join, list, speak, waiting, member, to_member}
use excc.ChatServer.Seats.{
  seat_in, is_some, is_seated, names, AreDistinct, name_taken-seat, name_free-seat, names-Taken,
  Taken-names,
}
use excc.ChatServer.Attending.{
  is_list, Keeps, others_stay, own_seat, freed, freed-AreDistinct, renamed, renamed-AreDistinct,
}

-- A message to the members, where the open descriptors are those that have a seat.
mail-members :
    (message : List ℕ) (cs : List ClientInfo) (fd : ℕ) (o : Bool)
    → AreDistinct cs
    → is_some (seat_in cs fd) ≡ o
    → mail (write_each message cs) fd o ≡ to_member message (seat_in cs fd)
mail-members message cs fd true d e = mail-write_each message cs fd d
mail-members message cs fd false d e = elim (Option-cases (seat_in cs fd)) [
  | inl nobody ↦ mail_closed message cs fd ∙ rw nobody refl
  | inr (s, there) ↦ ground (arith, there)
]

joined_mail :
    (message : List ℕ) (to : ℕ) (out : List Effect) (fd : ℕ) (o : Bool)
    → ((to == fd) ≡ true → o ≡ true)
    → mail (write to message ∷ out) fd o ≡ (if to == fd then message ∷ [] else []) ++ mail out fd o
unfolding mail
joined_mail message to out fd o h = ground (arith, h)

open_only :
    (to fd : ℕ) (o : Bool) (messages : List (List ℕ))
    → ((to == fd) ≡ true → o ≡ true)
    → (if (to == fd) && o then messages else []) ≡ (if to == fd then messages else [])
open_only to fd o messages h = ground (arith, h)

-- The descriptor of a client is open.
here :
    (cl : ClientList) (to : ℕ) {s : Seat}
    → seat_in cl.clients to ≡ Option.some s
    → (fd : ℕ) → (to == fd) ≡ true
    → is_seated cl fd ≡ true
here cl to e fd own =
    let same : to ≡ fd = ground arith in subst (λ a. is_seated cl a ≡ true) same (rw e refl)

module _ {cl : ClientList} (v : IsValid cl) (d : AreDistinct cl.clients) (i : ℕ)
    (inside : i < 5) where
  -- The name in `memory` is one that a registered client has.
  taken-Keeps :
      (memory : List ℕ)
      → (client cl i).status ≡ connecting
      → name_taken (username memory).0 cl.clients ≡ true
      → Keeps cl i
          (says (client cl i).socket memory)
          (put cl i vacant)
          (write (client cl i).socket username_reject_msg ∷ close (client cl i).socket ∷ [])
  unfolding opens mail
  taken-Keeps memory e taken =
      let sd = (client cl i).socket in
      let used : in_use (client cl i) ≡ true = ground arith in
      let seat : seat_in cl.clients sd ≡ Option.some waiting =
        own_seat v d i inside used ∙ rw e refl in
      let (j, below, up, same) = name_taken-true (username memory).0 cl.clients taken in
      record {
        acts = said waiting seat (
            refuse_name seat (name_taken-seat (username memory).0 cl.clients d taken)
              (freed v d i inside vacant used refl) (omega arith) (λ fd. ground (arith, seat)));
        tracks = λ fd. ground (arith, freed v d i inside vacant used refl fd);
        valid = Change-IsValid v (Change.reject i j inside e up);
        distinct = freed-AreDistinct v d i inside vacant used refl;
        others = others_stay v d i inside vacant;
      }

  free-Keeps :
      (memory : List ℕ)
      → (client cl i).status ≡ connecting
      → length (username memory).0 ≤ 15
      → name_taken (username memory).0 cl.clients ≡ false
      → let joined = record (client cl i) { name = (username memory).0; status = connected } in
        Keeps cl i (says (client cl i).socket memory) (put cl i joined) (
          write (client cl i).socket username_ack_msg
          ∷ write_each ((username memory).0 ++ codes " joined\n") (set cl.clients i joined))
  unfolding opens mail
  free-Keeps memory e fits free =
      let sd = (client cl i).socket in
      let name = (username memory).0 in
      let message = name ++ codes " joined\n" in
      let joined : ClientInfo = record (client cl i) { name = name; status = connected } in
      let used : in_use (client cl i) ≡ true = ground arith in
      let seat : seat_in cl.clients sd ≡ Option.some waiting =
        own_seat v d i inside used ∙ rw e refl in
      let there = renamed v d i inside joined used refl in
      let distinct = renamed-AreDistinct v d i inside joined used refl in
      let kept : (fd : ℕ) → is_some (seat_in (set cl.clients i joined) fd) ≡ is_seated cl fd = λ fd.
        elim (Bool-cases (sd == fd)) [
          | inl own ↦ ground (arith, there fd, here cl sd seat fd own)
          | inr other ↦ ground (arith, there fd)
        ] in
      record {
        acts = said waiting seat (
            join seat (λ t. name_free-seat name cl.clients t.0 free t.1) there refl
              (λ fd.
                joined_mail username_ack_msg sd (write_each message (set cl.clients i joined)) fd
                  (is_seated cl fd) (here cl sd seat fd)
                ∙ ap (◌++◌ (if sd == fd then username_ack_msg ∷ [] else [])) (
                    mail-members message (set cl.clients i joined) fd (is_seated cl fd) distinct
                      (kept fd))));
        tracks = λ fd.
            opens-write_each message (set cl.clients i joined) fd (is_seated cl fd) ∙ sym (kept fd);
        valid =
            Change-IsValid v
              (Change.join i name inside e fits (λ j m. name_taken-false name cl.clients j free m));
        distinct = distinct;
        others = others_stay v d i inside joined;
      }

  pub register_client_name-Keeps :
      (memory : List ℕ)
      → (client cl i).status ≡ connecting
      → length (username memory).0 ≤ 15
      → let r = register_client_name cl i (username memory).0 in
        Keeps cl i (says (client cl i).socket memory) r.0 r.1
  unfolding register_client_name write_all_clients
  register_client_name-Keeps memory e fits =
      let name = (username memory).0 in
      let joined : ClientInfo = record (client cl i) { name = name; status = connected } in
      elim (Bool-cases (name_taken name cl.clients)) [
        | inl taken ↦ rw (all_slots v, taken, register_client_name) (taken-Keeps memory e taken)
        | inr free ↦
            let fresh : IsValid (put cl i joined) = Change-IsValid v (
              Change.join i name inside e fits
                (λ j m. name_taken-false name cl.clients j free m)) in
            rw
              (
                register_client_name,
                all_slots v,
                free,
                take-all 15 name fits,
                join_message_fits name fits,
                write_all_clients,
                all_slots fresh,
              )
              (free-Keeps memory e fits free)
      ]

  listed-Keeps :
      (text : List ℕ)
      → (client cl i).status ≡ connected
      → is_list text ≡ true
      → Keeps cl i (says (client cl i).socket text) cl (list_each (client cl i).socket cl.clients)
  listed-Keeps text e listed =
      let sd = (client cl i).socket in
      let name = (client cl i).name in
      let seat : seat_in cl.clients sd ≡ Option.some (member name) =
        own_seat v d i inside (ground arith) ∙ rw e refl in
      record {
        acts = said (member name) seat (
            list name (names cl.clients) seat listed refl (λ n. names-Taken cl.clients n d)
              (λ n t. Taken-names cl.clients n t.0 t.1)
              (λ fd.
                mail-list_each sd cl.clients fd (is_seated cl fd) v.short
                ∙ open_only sd fd (is_seated cl fd) _ (here cl sd seat fd)));
        tracks = λ fd. opens-list_each sd cl.clients fd (is_seated cl fd);
        valid = v;
        distinct = d;
        others = λ j other. refl;
      }

  spoken-Keeps :
      (text : List ℕ)
      → (client cl i).status ≡ connected
      → is_list text ≡ false
      → Keeps cl i
          (says (client cl i).socket text)
          cl
          (write_each ((client cl i).name ++ codes ": " ++ text) cl.clients)
  spoken-Keeps text e other =
      let name = (client cl i).name in
      let seat : seat_in cl.clients (client cl i).socket ≡ Option.some (member name) =
        own_seat v d i inside (ground arith) ∙ rw e refl in
      record {
        acts = said (member name) seat (
            speak name seat other refl (λ fd.
              mail-members (name ++ codes ": " ++ text) cl.clients fd (is_seated cl fd) d refl));
        tracks =
            λ fd. opens-write_each (name ++ codes ": " ++ text) cl.clients fd (is_seated cl fd);
        valid = v;
        distinct = d;
        others = λ j apart. refl;
      }

  pub line-Keeps :
      (b : ℕ) (bs : List ℕ)
      → (client cl i).status ≡ connected
      → length (b ∷ bs) ≤ 127
      → let r = handle_massage cl i (bytes (b ∷ bs)) in
        Keeps cl i (says (client cl i).socket (c_string (b ∷ bs))) r.0 r.1
  unfolding handle_massage all_username broadcast_message write_all_clients
  line-Keeps b bs e short =
      let text = c_string (b ∷ bs) in
      elim (Bool-cases (is_list text)) [
        | inl listed ↦ rw (listed, all_username, all_slots v) (listed-Keeps text e listed)
        | inr other ↦
            rw
              (
                other,
                broadcast_message,
                chat_line_fits (client cl i).name text (v.short i)
                    (omega (arith, length-c_string (b ∷ bs), short)),
                write_all_clients,
                all_slots v,
              )
              (spoken-Keeps text e other)
      ]
