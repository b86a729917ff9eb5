-- ===== src/ChatClient/Tests.antt =====
-- kadai4/chatclient.c: the theorems at concrete inputs.
use mathlib.Core.Option.{Option}
use excc.Common.{ℕ, ◌≡◌, ◌↔◌, refl, true, List, [], ◌∷◌, ◌++◌, arith, replicate, take}
use excc.Common.Text.{codes, newline, c_string, str_eq}
use excc.ChatServer.{
  ClientList, Effect, write, connecting, connected, failed, bytes, vacant, init, client, ack_msg,
  username_ack_msg, reject_msg, name_taken, receive_username, handle_massage,
}
use excc.ChatServer.Loop.{new_client}
use excc.ChatServer.Invariant.{init-IsValid, IsValid}
use excc.ChatServer.Changes.{arrive, Change-IsValid}
use excc.ChatServer.Messages.{members, to_each}
use excc.ChatClient
use excc.ChatClient.{
  print, close, stored, is_answer, name_line, name_buffer, handshake, accepted, handle_error,
  register_name, Event, ready, line, eof, select_error, round, continue, break, running, returned,
  session, typed, heard, after,
}
use excc.ChatClient.Answers.{handshake_iff}
use excc.ChatClient.Session.{sent, shown, session_ends}
use excc.ChatClient.Joining.{client_joins, long_name_spills}

abbrev empty_buffer : List ℕ
empty_buffer = replicate 128 0

-- What the server writes behind the second answer is lost if one `read` takes both.
lost_line :
    handshake empty_buffer
      (codes "eve")
      (bytes ack_msg)
      true
      (bytes (username_ack_msg ++ codes "eve joined\n"))
    ≡ accepted (ChatClient.write (codes "eve\n") ∷ [])
unfolding handshake register_name is_answer name_line name_buffer c_string str_eq
lost_line = refl

turned_away :
    handshake empty_buffer (codes "eve") (bytes reject_msg) true failed ≡ handle_error (close ∷ [])
unfolding handshake register_name is_answer name_line name_buffer c_string str_eq
turned_away = refl

handshake_iff_example :
    (handshake empty_buffer (codes "eve") (bytes ack_msg) true (bytes username_ack_msg)
      ≡ accepted (ChatClient.write (name_line (codes "eve")) ∷ []))
    ↔ ((take 17 (stored empty_buffer ack_msg) ≡ ack_msg)
        × (take 20 (stored (name_buffer (codes "eve")) username_ack_msg) ≡ username_ack_msg))
handshake_iff_example =
    handshake_iff empty_buffer (codes "eve") b'R' b'U' (codes "EQUEST ACCEPTED\n")
      (codes "SERNAME REGISTERED\n") refl

-- A line is typed; the server's text comes in two pieces.
abbrev talk : List Event
talk =
    ready (Option.some (line (codes "hi\n"))) Option.none
    ∷ ready Option.none (Option.some (bytes (codes "eve: ")))
    ∷ ready (Option.some eof) (Option.some (bytes (codes "hi\n")))
    ∷ []

session_ends_example :
    (out last : List ChatClient.Effect) × (session talk ≡ running out)
    × (sent out ≡ codes "hi\n")
    × (shown out ≡ codes "eve: hi\n")
    × (round (ready Option.none (Option.some (bytes []))) ≡ break last)
    × (session (talk ++ ready Option.none (Option.some (bytes [])) ∷ talk)
        ≡ returned (out ++ (last ++ close ∷ [])))
session_ends_example =
    session_ends talk talk (ready Option.none (Option.some (bytes []))) (omega arith) tt

client_joins_example :
    (i : ℕ) × (m n : ClientList) × (more : List Effect) × (new_client init 4
      ≡ (m, write 4 ack_msg ∷ []))
    × (handshake empty_buffer (codes "eve") (bytes ack_msg) true (bytes username_ack_msg)
        ≡ accepted (ChatClient.write (name_line (codes "eve")) ∷ []))
    × (receive_username m i [] (bytes (name_line (codes "eve")))
        ≡ (n, write 4 username_ack_msg ∷ more))
    × (client n i ≡ record { socket = 4; name = codes "eve"; status = connected })
unfolding name_taken
client_joins_example =
    client_joins init 4 empty_buffer [] (codes "eve") init-IsValid (omega arith) refl (omega arith)
      (omega arith) refl

-- One client is let in, and has no name yet.
abbrev entered : ClientList
entered = record {
  clients = record { socket = 4; name = []; status = connecting } ∷ replicate 4 vacant;
  client_count = 1;
  max_client = 5;
}

entered-IsValid : IsValid entered
entered-IsValid = Change-IsValid init-IsValid (arrive 0 4 (omega arith) refl (omega arith))

abbrev head : List ℕ
head = codes "maximilian of ha"

abbrev tail : List ℕ
tail = codes "bsburg"

long_name_spills_example :
    (name_line (head ++ tail) ≡ head ++ (tail ++ newline ∷ []))
    × (n : ClientList) × (more : List Effect) × (receive_username entered 0
          (replicate 16 0 ++ 0 ∷ [])
          (bytes head)
        ≡ (n, write 4 username_ack_msg ∷ more))
    × (client n 0 ≡ record { socket = 4; name = codes "maximilian of h"; status = connected })
    × (handle_massage n 0 (bytes (tail ++ newline ∷ []))
        ≡ (n, to_each (codes "maximilian of h: bsburg\n") (members n.clients)))
unfolding name_taken
long_name_spills_example =
    long_name_spills entered 0 head tail (replicate 16 0) [] entered-IsValid (omega arith) refl refl
      (omega arith) (omega arith) (omega arith) refl refl (λ e. cc)
