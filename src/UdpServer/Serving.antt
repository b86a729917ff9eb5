-- ===== src/UdpServer/Serving.antt =====
-- kadai4/chatserver-udp.c: one datagram is served as a room serves a text.
use mathlib.Core.Option.{Option}
use excc.Common.{
  ℕ, ◌-◌, ◌≤◌, ◌<◌, ◌≡◌, refl, sym, ap, ◌∙◌, subst, ◌⊎◌, inl, inr, Bool, true, ◌||◌, List, [], ◌∷◌,
  ◌++◌, arith, Bool-cases, Option-cases, if◌then◌else◌, length, set, take-all, count_if-le,
  count_if-pos, dec_lt,
}
use excc.Common.Text.{codes, str_eq, c_string, length-c_string}
use excc.Common.Outcome.{Outcome, running}
use excc.ChatServer.{
  none, connecting, connected, ack_msg, reject_msg, username_ack_msg, username_reject_msg,
}
use excc.Room.{
  Room, Mail, waiting, member, Serves, turn_away, let_in, refuse_name, join, list, speak,
}
use excc.UdpServer.{
  Address, ClientInfo, ClientList, Effect, sendto, client, put, same_addr, find_client_by_addr,
  username, receive_username, register_client_name, name_taken, handle_massage, broadcast_message,
  all_username, write_all_clients, vacant, send_each, list_each,
}
use excc.UdpServer.Loop.{datagram, round}
use excc.UdpServer.Invariant.{active, name_taken-false, in_use, IsValid, all_slots}
use excc.UdpServer.Changes.{Change, Change-IsValid}
use excc.UdpServer.Rounds.{
  find_client-some, find_client-none, round-connecting, round-member, length-username,
}
use excc.UdpServer.Capacity.{newcomer_cases}
use excc.UdpServer.Messages.{chat_line_fits, join_message_fits}
use excc.UdpServer.Seats.{
  room, seat_of, seat_in, seat_in-none, seat_in-at, seat_in-set, name_taken-seat, name_free-seat,
  names, names-Taken, Taken-names,
}
use excc.UdpServer.Mail.{mail, mail_only, mail-cons, mail-send_each, mail-list_each}

in_use_cases : (c : ClientInfo) → in_use c ≡ true → (c.status ≡ connecting) ⊎ (c.status ≡ connected)
in_use_cases c u = ground arith

abbrev pub is_list : List ℕ → Bool
is_list text = str_eq text (codes "/list\n") || str_eq text (codes "/list")

-- What the room is to do for a text and its sender: a refused client gives its place back.
abbrev pub Answers : Room Address → Address × List ℕ → Room Address → Mail Address → Type 0
Answers r told r' mail = Serves same_addr username is_list 1 r told.0 told.1 r' mail

-- A round goes on, and serves the sender as the room is to.
abbrev pub Keeps : ClientList → Address → List ℕ → Outcome ClientList Effect → Type 0
Keeps cl addr text o =
    (m : ClientList) × (out : List Effect) × (o ≡ running m out)
    × Answers (room cl) (addr, text) (room m) (mail out)

module _ {cl : ClientList} (v : IsValid cl) (b : ℕ) (bs : List ℕ) where
  limit : cl.client_count ≤ 5
  limit = omega (arith, v.counted, v.slots, count_if-le in_use cl.clients)

  newcomer-Keeps :
      (addr : Address)
      → find_client_by_addr cl addr ≡ Option.none
      → Keeps cl addr (c_string (b ∷ bs)) (round cl (datagram addr (b ∷ bs)))
  newcomer-Keeps addr e =
      let absent = find_client-none v addr e in
      let nobody = seat_in-none cl.clients addr absent in
      let (away, in_) = newcomer_cases cl addr v e in
      elim (dec_lt cl.client_count 5) [
        | no full ↦ (
          cl,
          sendto addr reject_msg ∷ [],
          away (omega (arith, limit)) b bs,
          turn_away nobody (omega arith) refl (mail_only addr reject_msg),
        )
        | yes space ↦
            let (i, below, free, step) = in_ space in
            (
              _,
              _,
              step b bs,
              let_in nobody space
                  (seat_in-set cl.clients i (record { addr = addr; name = []; status = connecting })
                    (omega (arith, v.slots)) (λ u. absurd (ground arith)) (λ j other. absent j))
                  refl (mail_only addr ack_msg),
            )
      ]

  -- Slot `i` in use.
  module _ (i : ℕ) (inside : i < 5) where
    own_seat :
        in_use (client cl i) ≡ true → seat_in cl.clients (client cl i).addr ≡ seat_of (client cl i)
    own_seat u = seat_in-at cl.clients i v.distinct u

    occupied : in_use (client cl i) ≡ true → 0 < active cl
    occupied = count_if-pos in_use cl.clients i vacant (omega (arith, v.slots))

    changed :
        (c : ClientInfo)
        → c.addr ≡ (client cl i).addr
        → in_use (client cl i) ≡ true
        → (a : Address)
        → seat_in (set cl.clients i c) a
          ≡ (if same_addr (client cl i).addr a then seat_of c else seat_in cl.clients a)
    changed c same used a =
        subst
          (λ (x : Address).
            seat_in (set cl.clients i c) a
            ≡ (if same_addr x a then seat_of c else seat_in cl.clients a))
          same
          (seat_in-set cl.clients i c (omega (arith, v.slots)) (λ u. sym same)
            (λ j other u e. other (v.distinct i j used u (sym (e ∙ same)))) a)

    connecting-Keeps :
        (client cl i).status ≡ connecting
        → Keeps cl
            (client cl i).addr
            (c_string (b ∷ bs))
            (round cl (datagram (client cl i).addr (b ∷ bs)))
    unfolding receive_username register_client_name write_all_clients
    connecting-Keeps e =
        let text = c_string (b ∷ bs) in
        let name = username text in
        let addr = (client cl i).addr in
        let used : in_use (client cl i) ≡ true = ground arith in
        let seat : seat_in cl.clients addr ≡ Option.some waiting = own_seat used ∙ rw e refl in
        elim (Bool-cases (name_taken name cl.clients)) [
          | inl taken ↦
              let gone : ClientInfo = record (client cl i) { name = []; status = none } in
              (
                record cl { clients = set cl.clients i gone; client_count = cl.client_count - 1 },
                sendto addr username_reject_msg ∷ [],
                round-connecting v i b bs e
                    ∙ rw (receive_username, register_client_name, all_slots v, taken) refl,
                refuse_name seat (name_taken-seat name cl.clients v.distinct taken)
                    (changed gone refl used) (omega (arith, v.counted, occupied used))
                    (mail_only addr username_reject_msg),
              )
          | inr free ↦
              let joined : ClientInfo = record (client cl i) { name = name; status = connected } in
              let fits = length-username text in
              let fresh : IsValid (put cl i joined) = Change-IsValid v (
                Change.join i name inside e fits
                  (λ j m. name_taken-false name cl.clients j free m)) in
              (
                put cl i joined,
                sendto addr username_ack_msg
                    ∷ send_each (name ++ codes " joined\n") (set cl.clients i joined),
                round-connecting v i b bs e
                    ∙ rw
                        (
                          receive_username,
                          register_client_name,
                          all_slots v,
                          free,
                          take-all 15 name fits,
                          join_message_fits name fits,
                          write_all_clients,
                          all_slots fresh,
                        )
                        refl,
                join seat (λ t. name_free-seat name cl.clients t.0 free t.1)
                    (changed joined refl used) refl
                    (λ a.
                      mail-cons addr username_ack_msg _ a
                      ∙ ap (◌++◌ (if same_addr addr a then username_ack_msg ∷ [] else [])) (
                          mail-send_each (name ++ codes " joined\n") (set cl.clients i joined) a
                            fresh.distinct)),
              )
        ]

    connected-Keeps :
        (client cl i).status ≡ connected
        → length (b ∷ bs) ≤ 127
        → Keeps cl
            (client cl i).addr
            (c_string (b ∷ bs))
            (round cl (datagram (client cl i).addr (b ∷ bs)))
    unfolding handle_massage all_username broadcast_message write_all_clients
    connected-Keeps e short =
        let text = c_string (b ∷ bs) in
        let name = (client cl i).name in
        let seat : seat_in cl.clients (client cl i).addr ≡ Option.some (member name) =
          own_seat (ground arith) ∙ rw e refl in
        elim (Bool-cases (is_list text)) [
          | inl listed ↦ (
            cl,
            list_each (client cl i).addr cl.clients,
            round-member v i b bs e
                ∙ rw (handle_massage, listed, all_username, all_slots v) (ground arith),
            list name (names cl.clients) seat listed refl (λ n. names-Taken cl.clients n v.distinct)
                (λ n t. Taken-names cl.clients n t.0 t.1)
                (λ a. mail-list_each (client cl i).addr cl.clients a v.short),
          )
          | inr other ↦ (
            cl,
            send_each (name ++ codes ": " ++ text) cl.clients,
            round-member v i b bs e
                ∙ rw
                    (
                      handle_massage,
                      other,
                      broadcast_message,
                      chat_line_fits name text (v.short i)
                          (omega (arith, length-c_string (b ∷ bs))),
                      write_all_clients,
                      all_slots v,
                    )
                    (ground arith),
            speak name seat other refl (λ a. mail-send_each _ cl.clients a v.distinct),
          )
        ]

  pub datagram-Keeps :
      (addr : Address)
      → length (b ∷ bs) ≤ 127
      → Keeps cl addr (c_string (b ∷ bs)) (round cl (datagram addr (b ∷ bs)))
  datagram-Keeps addr short = elim (Option-cases (find_client_by_addr cl addr)) [
    | inl missing ↦ newcomer-Keeps addr missing
    | inr (i, found) ↦
        let (inside, used, same) = find_client-some v addr i found in
        subst (λ a. Keeps cl a (c_string (b ∷ bs)) (round cl (datagram a (b ∷ bs)))) same
          (elim (in_use_cases (client cl i) used) [
            | inl e ↦ connecting-Keeps i inside e
            | inr e ↦ connected-Keeps i inside e short
          ])
  ]
