-- ===== src/ChatServer/Steps.antt =====
-- kadai4/chatserver.c: every handler of a client's data changes the table in one of the ways of
-- `Change`.
use excc.Common.{
  ℕ, zero, suc, ◌+◌, ◌≤◌, ◌<◌, ◌≡◌, refl, sym, subst, Bool, true, false, List, [], ◌∷◌, arith,
  Bool-cases, Option-cases, if◌then◌else◌, length, take, take-all, length-take-le, inl, inr,
}
use excc.Common.Text.{newline, c_string, strchr, str_eq, codes, length-c_string}
use excc.Common.Outcome.{after}
use excc.ChatServer.{
  ClientList, ClientStatus, none, connecting, connected, Effect, ReadResult, failed, bytes, client,
  client_disconnected, name_taken, register_client_name, receive_username, handle_massage, username,
  stored,
}
use excc.ChatServer.Loop.{
  Ready, Select, error, ready, serve_status, serve_client, serve_clients, round,
}
use excc.ChatServer.Invariant.{in_use, IsValid, all_slots, name_taken-false, name_taken-true}
use excc.ChatServer.Others.{serve_client-others}
use excc.ChatServer.Changes.{
  Change, stay, join, reject, leave, Reach, here, next, Reach-trans, Change-IsValid,
}

-- The name is read off without a store outside the buffer.
abbrev pub IsTidy : List ℕ → ReadResult → Type 0
IsTidy stack failed = Unit {0}
IsTidy stack (bytes received) = (username (stored stack received)).1 ≡ []

-- The same for the clients without a name that are read from, in the slots from `i` on.
abbrev pub IsTidyFrom : Ready → ClientList → (i : ℕ) → Type 0
IsTidyFrom r cl i =
    (j : ℕ)
    → i ≤ j
    → (client cl j).status ≡ connecting
    → r.readable (client cl j).socket ≡ true
    → IsTidy (r.stack (client cl j).socket) (r.received (client cl j).socket)

-- Where a connection comes in, nothing is read in that round.
abbrev pub IsTidySelect : ClientList → Select → Type 0
IsTidySelect cl error = Unit {0}
IsTidySelect cl (ready r) = r.listening ≡ false → IsTidyFrom r cl 0

-- Each round of a run, with the table as it is by then.
abbrev pub AreTidy : ClientList → List Select → Type 0
AreTidy cl [] = Unit {0}
AreTidy cl (s ∷ ss) = IsTidySelect cl s × AreTidy (after cl (round cl s)) ss

pub length-username : (m : List ℕ) → (username m).1 ≡ [] → length (username m).0 ≤ 15
unfolding username
length-username m e = elim (Option-cases (strchr (c_string m) newline)) [
  | inl q ↦ rw (q, username) (omega (arith, length-c_string (take 15 m), length-take-le 15 m))
  | inr (p, q) ↦
      rw (q, username) (ground (arith, length-take-le p (c_string m), rw (q, username) at e))
]

module _ {cl : ClientList} (v : IsValid cl) (i : ℕ) (inside : i < 5) where
  pub client_disconnected-Change :
      in_use (client cl i) ≡ true → Change cl (client_disconnected cl i).0
  unfolding client_disconnected
  client_disconnected-Change e = leave i inside e

  pub register_client_name-Change :
      (name : List ℕ)
      → (client cl i).status ≡ connecting
      → length name ≤ 15
      → Change cl (register_client_name cl i name).0
  unfolding register_client_name
  register_client_name-Change name e fits = elim (Bool-cases (name_taken name cl.clients)) [
    | inl taken ↦
        let (j, below, member, same) = name_taken-true name cl.clients taken in
        rw (all_slots v, taken) (reject i j inside e member)
    | inr free ↦
        rw (all_slots v, free, take-all 15 name fits)
          (join i name inside e fits (λ j member. name_taken-false name cl.clients j free member))
  ]

  receive_username-Change :
      (stack : List ℕ) (r : ReadResult)
      → (client cl i).status ≡ connecting
      → IsTidy stack r
      → Change cl (receive_username cl i stack r).0
  unfolding receive_username
  receive_username-Change stack failed e t = client_disconnected-Change (ground arith)
  receive_username-Change stack (bytes []) e t = client_disconnected-Change (ground arith)
  receive_username-Change stack (bytes (b ∷ bs)) e t =
      register_client_name-Change _ e (length-username (stored stack (b ∷ bs)) t)

  handle_massage-Change :
      (r : ReadResult) → (client cl i).status ≡ connected → Change cl (handle_massage cl i r).0
  unfolding handle_massage
  handle_massage-Change failed e = client_disconnected-Change (ground arith)
  handle_massage-Change (bytes []) e = client_disconnected-Change (ground arith)
  handle_massage-Change (bytes (b ∷ bs)) e =
      elim (Bool-cases (str_eq (c_string (b ∷ bs)) (codes "/list\n"))) [
        | inl list ↦ rw list stay
        | inr line ↦ rw line stay
      ]

  Change-if :
      (b : Bool) (x : ClientList × List Effect)
      → (b ≡ true → Change cl x.0)
      → Change cl (if b then x else (cl, [])).0
  Change-if true x ch = ch refl
  Change-if false x ch = stay

  serve_status-Change :
      (s : ClientStatus) (r : Ready)
      → (client cl i).status ≡ s
      → IsTidyFrom r cl i
      → Change cl (serve_status s r cl i).0
  unfolding serve_status
  serve_status-Change none r e t = stay
  serve_status-Change connecting r e t =
      let fd = (client cl i).socket in
      Change-if (r.readable fd) _ (λ reads.
        receive_username-Change (r.stack fd) (r.received fd) e (t i (omega arith) e reads))
  serve_status-Change connected r e t =
      let fd = (client cl i).socket in
      Change-if (r.readable fd) _ (λ reads. handle_massage-Change (r.received fd) e)

  pub serve_client-Change : (r : Ready) → IsTidyFrom r cl i → Change cl (serve_client r cl i).0
  unfolding serve_client
  serve_client-Change r t = serve_status-Change (client cl i).status r refl t

-- What is tidy before slot `i` is served is tidy in the later slots.
pub tidy_behind :
    {cl : ClientList} (v : IsValid cl) (i : ℕ) (r : Ready)
    → i < 5
    → IsTidyFrom r cl i
    → IsTidyFrom r (serve_client r cl i).0 (suc i)
tidy_behind {cl} v i r inside t j above =
    subst
      (λ c.
        c.status ≡ connecting
        → r.readable c.socket ≡ true
        → IsTidy (r.stack c.socket) (r.received c.socket))
      (sym (serve_client-others v i inside r j (omega arith))) (t j (omega arith))

pub serve_clients-Reach :
    (r : Ready) (n : ℕ) (cl : ClientList) (i : ℕ)
    → IsTidyFrom r cl i
    → IsValid cl
    → i + n ≤ 5
    → Reach cl (serve_clients r n cl i).0
unfolding serve_clients
serve_clients-Reach r zero cl i t v h = here
serve_clients-Reach r (suc n) cl i t v h =
    let ch = serve_client-Change v i (omega arith) r t in
    Reach-trans (next here ch) (
      serve_clients-Reach r n (serve_client r cl i).0 (suc i) (tidy_behind v i r (omega arith) t)
        (Change-IsValid v ch) (omega arith))
