-- ===== src/UdpServer/Rounds.antt =====
-- kadai4/chatserver-udp.c: every round goes by a change of the table.
use mathlib.Core.Option.{Option}
use excc.Common.{
  ℕ, zero, suc, ◌≤◌, ◌<◌, ◌≡◌, ◌≢◌, refl, inl, inr, true, List, [], ◌∷◌, arith, Bool-cases,
  Option-cases, length, take, take-all, length-take-le, le→leb, lt→leb, leb, dec_lt,
}
use excc.Common.Text.{newline, strchr, c_string}
use excc.Common.Outcome.{running, Running}
use excc.ChatServer.{ClientStatus, none, connecting, connected}
use excc.UdpServer.{
  Address, ClientList, client, find_client_by_addr, find_free_slot, admit, new_client, find_free,
  name_taken, register_client_name, username, receive_username, handle_massage,
}
use excc.UdpServer.Loop.{
  Answer, select_error, timeout, recv_error, datagram, serve_status, serve, round,
}
use excc.UdpServer.Invariant.{
  in_use, IsValid, all_slots, name_taken-false, find_addr-some, find_addr-none, find_free-some,
  find_free-none,
}
use excc.UdpServer.Changes.{Change, stay, arrive, join, reject}

pub length-username : (m : List ℕ) → length (username m) ≤ 15
unfolding username
length-username m = elim (Option-cases (strchr (take 15 m) newline)) [
  | inl q ↦ rw (q, username) (length-take-le 15 m)
  | inr (p, q) ↦
      rw (q, username) (omega (arith, length-take-take p (take 15 m), length-take-le 15 m))
]
  where
    length-take-take : (p : ℕ) (s : List ℕ) → length (take p s) ≤ length s
    length-take-take zero s = omega arith
    length-take-take (suc p) [] = omega arith
    length-take-take (suc p) (c ∷ s) = omega (arith, length-take-take p s)

-- The search finds a slot in use, with the datagram's address; and any such slot.
pub find_client-some :
    {cl : ClientList} (v : IsValid cl) (addr : Address) (i : ℕ)
    → find_client_by_addr cl addr ≡ Option.some i
    → (i < 5) × (in_use (client cl i) ≡ true) × ((client cl i).addr ≡ addr)
unfolding find_client_by_addr
find_client-some {cl} v addr i e =
    let (j, q, below, used, same) = find_addr-some 0 i addr cl.clients (rw (all_slots v) at e) in
    let place : i ≡ j = omega arith in (omega (arith, v.slots), rw place used, rw place same)

pub find_client-none :
    {cl : ClientList} (v : IsValid cl) (addr : Address)
    → find_client_by_addr cl addr ≡ Option.none
    → (j : ℕ) → in_use (client cl j) ≡ true
    → (client cl j).addr ≢ addr
unfolding find_client_by_addr
find_client-none {cl} v addr e j = find_addr-none 0 addr cl.clients j (rw (all_slots v) at e)

-- A datagram from the address of a slot in use is served as that slot's.
pub find_client-own :
    {cl : ClientList} (v : IsValid cl) (i : ℕ)
    → in_use (client cl i) ≡ true
    → find_client_by_addr cl (client cl i).addr ≡ Option.some i
find_client-own {cl} v i u = elim (Option-cases (find_client_by_addr cl (client cl i).addr)) [
  | inl missing ↦ absurd (find_client-none v (client cl i).addr missing i u refl)
  | inr (j, found) ↦
      let (below, used, same) = find_client-some v (client cl i).addr j found in
      rw (found, v.distinct j i used u same)
]

module _ {cl : ClientList} (v : IsValid cl) where
  -- There is a free slot if the count is below the limit.
  pub free_slot_below_limit :
      cl.client_count < 5
      → (i : ℕ) × (find_free_slot cl ≡ Option.some i) × (i < 5) × ((client cl i).status ≡ none)
  unfolding find_free_slot
  free_slot_below_limit room = rw (all_slots v) (elim (Option-cases (find_free 0 cl.clients)) [
    | inl full ↦ absurd (omega (arith, find_free-none 0 cl.clients full, v.counted, v.slots))
    | inr (i, found) ↦
        let (j, q, below, free) = find_free-some 0 i cl.clients found in
        let same : i ≡ j = omega arith in (i, found, omega (arith, v.slots), rw same free)
  ])

  new_client-Change :
      (addr : Address)
      → ((j : ℕ) → in_use (client cl j) ≡ true → (client cl j).addr ≢ addr)
      → Change cl (new_client cl addr).0
  unfolding new_client admit
  new_client-Change addr apart = elim (dec_lt cl.client_count 5) [
    | yes room ↦
        let (i, found, below, free) = free_slot_below_limit room in
        rw (found, admit, lt→leb cl.max_client cl.client_count (omega (arith, v.capacity)))
          (arrive i addr below free apart)
    | no full ↦
        at_limit (find_free_slot cl)
          (le→leb cl.max_client cl.client_count (omega (arith, v.capacity)))
  ]
    where
      at_limit :
          (o : Option ℕ) → leb cl.max_client cl.client_count ≡ true → Change cl (admit cl addr o).0
      at_limit Option.none e = stay
      at_limit (Option.some i) e = rw e stay

  register_client_name-Change :
      (i : ℕ) (name : List ℕ)
      → i < 5
      → (client cl i).status ≡ connecting
      → length name ≤ 15
      → Change cl (register_client_name cl i name).0
  unfolding register_client_name
  register_client_name-Change i name inside e fits =
      elim (Bool-cases (name_taken name cl.clients)) [
        | inl taken ↦ rw (all_slots v, taken) (reject i inside e)
        | inr free ↦
            rw (all_slots v, free, take-all 15 name fits)
              (join i name inside e fits
                (λ j member. name_taken-false name cl.clients j free member))
      ]

  handle_massage-stays : (i : ℕ) (message : List ℕ) (n : ℕ) → (handle_massage cl i message n).0 ≡ cl
  unfolding handle_massage
  handle_massage-stays i message n = ground arith

  serve_status-Change :
      (s : ClientStatus) (i : ℕ) (message : List ℕ) (n : ℕ)
      → i < 5
      → (client cl i).status ≡ s
      → Change cl (serve_status s cl i message n).0
  unfolding serve_status receive_username
  serve_status-Change none i message n inside e = stay
  serve_status-Change connecting i message n inside e =
      register_client_name-Change i (username message) inside e (length-username message)
  serve_status-Change connected i message n inside e = rw (handle_massage-stays i message n) stay

  serve-Change :
      (addr : Address) (o : Option ℕ) (message : List ℕ) (n : ℕ)
      → find_client_by_addr cl addr ≡ o
      → Change cl (serve o cl addr message n).0
  unfolding serve
  serve-Change addr Option.none message n e = new_client-Change addr (find_client-none v addr e)
  serve-Change addr (Option.some i) message n e =
      serve_status-Change (client cl i).status i message n (find_client-some v addr i e).0 refl

  pub round-Change : (a : Answer) → Running (Change cl) (round cl a)
  unfolding round
  round-Change select_error = tt
  round-Change timeout = stay
  round-Change recv_error = stay
  round-Change (datagram addr []) = stay
  round-Change (datagram addr (b ∷ bs)) = serve-Change addr (find_client_by_addr cl addr) _ _ refl

-- A round with a datagram from a slot in use, by the slot's status.
module _ {cl : ClientList} (v : IsValid cl) (i b : ℕ) (bs : List ℕ) where
  pub round-connecting :
      (client cl i).status ≡ connecting
      → round cl (datagram (client cl i).addr (b ∷ bs))
        ≡ (let (m, out) = receive_username cl i (c_string (b ∷ bs)) in running m out)
  unfolding round
  round-connecting e = rw (find_client-own v i (ground arith), serve, e, serve_status)

  pub round-member :
      (client cl i).status ≡ connected
      → round cl (datagram (client cl i).addr (b ∷ bs)) ≡ (
          let (m, out) = handle_massage cl i (c_string (b ∷ bs)) (length (b ∷ bs)) in running m out)
  unfolding round
  round-member e = rw (find_client-own v i (ground arith), serve, e, serve_status)
