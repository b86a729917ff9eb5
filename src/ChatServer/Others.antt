-- ===== src/ChatServer/Others.antt =====
-- kadai4/chatserver.c: a handler for one client leaves the other slots as they are.
use excc.Common.{
  ℕ, ◌<◌, ◌≡◌, ◌≢◌, refl, Bool, true, false, List, [], ◌∷◌, arith, if◌then◌else◌, get_or, set, take,
}
use excc.Common.Text.{c_string, str_eq, codes}
use excc.ChatServer.{
  ClientInfo, ClientList, ClientStatus, none, connecting, connected, Effect, ReadResult, failed,
  bytes, client, vacant, client_disconnected, name_taken, register_client_name, receive_username,
  handle_massage, username, stored,
}
use excc.ChatServer.Loop.{Ready, serve_status, serve_client}
use excc.ChatServer.Invariant.{IsValid, client-set}

module _ {cl : ClientList} (v : IsValid cl) (i : ℕ) (inside : i < 5) where
  -- The slots but `i` are those of the table.
  abbrev OthersStay : ClientList → Type 0
  OthersStay m = (j : ℕ) → i ≢ j → client m j ≡ client cl j

  set-OthersStay :
      (c : ClientInfo) (j : ℕ) → i ≢ j → get_or (set cl.clients i c) j vacant ≡ client cl j
  set-OthersStay c j other = ground (arith, client-set v i inside c j)

  if-OthersStay :
      (b : Bool) (x y : ClientList × List Effect)
      → OthersStay x.0
      → OthersStay y.0
      → OthersStay (if b then x else y).0
  if-OthersStay true x y p q = p
  if-OthersStay false x y p q = q

  client_disconnected-OthersStay : OthersStay (client_disconnected cl i).0
  unfolding client_disconnected
  client_disconnected-OthersStay = set-OthersStay _

  register_client_name-OthersStay : (name : List ℕ) → OthersStay (register_client_name cl i name).0
  unfolding register_client_name
  register_client_name-OthersStay name =
      if-OthersStay (name_taken name (take cl.max_client cl.clients)) _ _ (set-OthersStay _)
        (set-OthersStay _)

  receive_username-OthersStay :
      (stack : List ℕ) (r : ReadResult) → OthersStay (receive_username cl i stack r).0
  unfolding receive_username
  receive_username-OthersStay stack failed = client_disconnected-OthersStay
  receive_username-OthersStay stack (bytes []) = client_disconnected-OthersStay
  receive_username-OthersStay stack (bytes (b ∷ bs)) =
      register_client_name-OthersStay (username (stored stack (b ∷ bs))).0

  handle_massage-OthersStay : (r : ReadResult) → OthersStay (handle_massage cl i r).0
  unfolding handle_massage
  handle_massage-OthersStay failed = client_disconnected-OthersStay
  handle_massage-OthersStay (bytes []) = client_disconnected-OthersStay
  handle_massage-OthersStay (bytes (b ∷ bs)) =
      if-OthersStay (str_eq (c_string (b ∷ bs)) (codes "/list\n")) _ _ (λ j other. refl)
        (λ j other. refl)

  serve_status-OthersStay : (s : ClientStatus) (r : Ready) → OthersStay (serve_status s r cl i).0
  unfolding serve_status
  serve_status-OthersStay none r = λ j other. refl
  serve_status-OthersStay connecting r =
      if-OthersStay (r.readable (client cl i).socket) _ _ (receive_username-OthersStay _ _)
        (λ j other. refl)
  serve_status-OthersStay connected r =
      if-OthersStay (r.readable (client cl i).socket) _ _ (handle_massage-OthersStay _)
        (λ j other. refl)

  pub serve_client-others :
      (r : Ready) (j : ℕ) → i ≢ j → client (serve_client r cl i).0 j ≡ client cl j
  unfolding serve_client
  serve_client-others r = serve_status-OthersStay (client cl i).status r
