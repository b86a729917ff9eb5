-- ===== src/UdpClient/Joining.antt =====
-- kadai4/chatclient-udp.c with kadai4/chatserver-udp.c: a client joins the chat.
use mathlib.Core.Option.{Option}
use excc.Common.{
  ℕ, ◌+◌, ◌≤◌, ◌<◌, ◌≡◌, refl, sym, ap, ◌∙◌, true, false, List, [], ◌∷◌, ◌++◌, arith, length, set,
  take,
}
use excc.Common.Text.{codes, newline, c_string, str_eq, IsPlain}
use excc.Common.Outcome.{running}
use excc.ChatServer.{connecting, connected, bytes, ack_msg, username_ack_msg}
use excc.ChatClient.{accepted, write, name_line}
use excc.UdpServer.{
  Address, ClientInfo, ClientList, Effect, sendto, client, put, find_client_by_addr, name_taken,
}
use excc.UdpServer.Loop.{datagram, round}
use excc.UdpServer.Invariant.{IsValid, client-set, name_taken-set}
use excc.UdpServer.Changes.{arrive, Change-IsValid}
use excc.UdpServer.Rounds.{find_client-none}
use excc.UdpServer.Capacity.{newcomer_cases}
use excc.UdpServer.Messages.{members, to_each, datagram_register}
use excc.UdpClient.{hello, is_answer, receive_datagram, register_name, handshake}
use excc.ChatClient.Joining.{name_line_short}
use excc.UdpClient.Session.{CutsDatagrams}

-- A name line is not empty.
line-cons : (name : List ℕ) → (b : ℕ) × (bs : List ℕ) × (b ∷ bs ≡ name ++ newline ∷ [])
line-cons [] = (newline, [], refl)
line-cons (c ∷ s) = (c, s ++ newline ∷ [], refl)

-- The server's part, once the client is in slot `i`.
registers :
    (m : ClientList) (i : ℕ) (addr : Address) (name : List ℕ)
    → IsValid m
    → i < 5
    → client m i ≡ record { addr = addr; name = []; status = connecting }
    → IsPlain name
    → name_taken (take 15 name) m.clients ≡ false
    → (n : ClientList) × (more : List Effect) × (round m (datagram addr (name ++ newline ∷ []))
        ≡ running n (sendto addr username_ack_msg ∷ more))
      × (client n i ≡ record { addr = addr; name = take 15 name; status = connected })
registers m i addr name v inside here plain free =
    let c : ClientInfo = record { addr = addr; name = take 15 name; status = connected } in
    let n = put m i c in
    let (b, bs, whole) = line-cons name in
    (
      n,
      to_each (take 15 name ++ codes " joined\n") (members n.clients),
      ap (λ d. round m (datagram addr d)) (sym whole)
          ∙ (rw here at
              (datagram_register m i b bs name [] v inside (rw here refl) whole plain free)),
      ground (arith, client-set v i inside c i),
    )

module _ (recv : ℕ → List ℕ → List ℕ) (cuts : CutsDatagrams recv) where
  -- The client takes both answers for what they are, if they arrive.
  handshake_accepts :
      (name : List ℕ)
      → handshake recv name true (bytes ack_msg) true (bytes username_ack_msg)
        ≡ accepted (write hello ∷ write (name_line name) ∷ [])
  unfolding handshake register_name is_answer receive_datagram c_string str_eq
  handshake_accepts name = rw (cuts 127 ack_msg, cuts 127 username_ack_msg)

  -- A client says hello from an address that no slot in use has, to a server whose table is valid
  -- with a count below five. If no datagram is lost, the server lets it in, and registers it under
  -- the first fifteen of the plain bytes (neither NUL nor line feed; at most 126) of its name, if no
  -- registered client has that name. The client takes both answers for what they are and goes on to
  -- its loop.
  pub udp_client_joins :
      (cl : ClientList) (addr : Address) (name : List ℕ)
      → IsValid cl
      → find_client_by_addr cl addr ≡ Option.none
      → cl.client_count < 5
      → IsPlain name
      → length name ≤ 126
      → name_taken (take 15 name) cl.clients ≡ false
      → (i : ℕ) × (m n : ClientList) × (more : List Effect) × (round cl (datagram addr hello)
          ≡ running m (sendto addr ack_msg ∷ []))
        × (handshake recv name true (bytes ack_msg) true (bytes username_ack_msg)
            ≡ accepted (write hello ∷ write (name_line name) ∷ []))
        × (round m (datagram addr (name_line name))
            ≡ running n (sendto addr username_ack_msg ∷ more))
        × (client n i ≡ record { addr = addr; name = take 15 name; status = connected })
  udp_client_joins cl addr name v fresh room plain short free =
      let (i, below, unused, let_in) = (newcomer_cases cl addr v fresh).1 room in
      let c : ClientInfo = record { addr = addr; name = []; status = connecting } in
      let m : ClientList = record cl {
        clients = set cl.clients i c;
        client_count = cl.client_count + 1;
      } in
      let w : IsValid m =
        Change-IsValid v (arrive i addr below unused (find_client-none v addr fresh)) in
      let free' : name_taken (take 15 name) m.clients ≡ false =
        name_taken-set (take 15 name) cl.clients i c refl (rw unused refl) ∙ free in
      let (n, more, registered, there) =
        registers m i addr name w below (ground (arith, client-set v i below c i)) plain free' in
      (
        i,
        m,
        n,
        more,
        let_in b'H' (codes "ELLO\n"),
        handshake_accepts name,
        rw (name_line_short name (omega arith)) registered,
        there,
      )
