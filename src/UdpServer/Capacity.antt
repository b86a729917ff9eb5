-- ===== src/UdpServer/Capacity.antt =====
-- kadai4/chatserver-udp.c: who gets in, who stays, and what becomes of the count of clients.
use mathlib.Core.Option.{Option}
use excc.Common.{
  ℕ, ◌+◌, ◌<◌, ◌≡◌, ◌≢◌, refl, sym, ◌∙◌, ap, inl, inr, true, List, [], ◌∷◌, arith, Option-cases,
  le→leb, lt→leb, set, count_if-all,
}
use excc.Common.Outcome.{running, Running, Running-imp, loop-Running, Each}
use excc.ChatServer.{none, connecting, ack_msg, reject_msg}
use excc.UdpServer.{
  Address, ClientInfo, ClientList, sendto, init, vacant, client, find_client_by_addr,
  find_free_slot, admit, new_client,
}
use excc.UdpServer.Loop.{Answer, datagram, round, run}
use excc.UdpServer.Invariant.{in_use, is_member, IsValid, init-IsValid}
use excc.UdpServer.Changes.{Change, Change-IsValid, Keeps, Change-Keeps}
use excc.UdpServer.Rounds.{find_client-some, free_slot_below_limit, round-Change}

-- What a valid table can come to: a valid one that has kept the registered clients.
abbrev Follows : ClientList → ClientList → Type 0
Follows cl m = IsValid m × Keeps cl m

-- No answer of the kernel is left out.
abbrev Any : Answer → Type 0
Any a = Unit {0}

run-Follows : (cl : ClientList) (as' : List Answer) → IsValid cl → Running (Follows cl) (run cl as')
unfolding run
run-Follows cl as' v =
    loop-Running round (Follows cl) Any keep cl as' (v, λ j m. refl) (all_any as')
  where
    all_any : (as' : List Answer) → Each Any as'
    all_any [] = tt
    all_any (a ∷ rest) = (tt, all_any rest)

    keep : (m : ClientList) (a : Answer) → Follows cl m → Any a → Running (Follows cl) (round m a)
    keep m a (w, kept) any =
        Running-imp (Change m) (Follows cl) (round m a)
          (λ n ch. (
            Change-IsValid w ch,
            λ j member. Change-Keeps w ch j (rw (kept j member) member) ∙ kept j member,
          ))
          (round-Change w a)

-- After any run from the empty table, if the server goes on, its table is valid: it has five slots,
-- its count is exactly the number of slots in use, the names fit their arrays, no two registered
-- clients have one name, and no two slots in use have one address.
pub run_exact : (answers : List Answer) → Running IsValid (run init answers)
run_exact answers =
    Running-imp (Follows init) IsValid (run init answers) (λ m f. f.0)
      (run-Follows init answers init-IsValid)

-- A datagram from the address is answered by the rejection, and the table stays.
abbrev pub TurnsAway : ClientList → Address → Type 0
TurnsAway cl addr =
    (b : ℕ) (bs : List ℕ)
    → round cl (datagram addr (b ∷ bs)) ≡ running cl (sendto addr reject_msg ∷ [])

-- A datagram from the address gets it a slot that was not in use, without a name; it is told so. The
-- message itself is not read, and all else stays.
abbrev pub LetsIn : ClientList → Address → Type 0
LetsIn cl addr =
    (i : ℕ) × (i < 5)
    × ((client cl i).status ≡ none)
    × ((b : ℕ) (bs : List ℕ)
        → round cl (datagram addr (b ∷ bs))
          ≡ running
              (record cl {
                clients = set cl.clients i (record { addr = addr; name = []; status = connecting });
                client_count = cl.client_count + 1;
              })
              (sendto addr ack_msg ∷ []))

-- On a valid table, a datagram from an address that no slot in use has is a request to join: it is
-- turned away if the count is five, and let in if the count is less.
pub newcomer_cases :
    (cl : ClientList) (addr : Address)
    → IsValid cl
    → find_client_by_addr cl addr ≡ Option.none
    → (cl.client_count ≡ 5 → TurnsAway cl addr) × (cl.client_count < 5 → LetsIn cl addr)
unfolding round new_client admit
newcomer_cases cl addr v fresh = (
  (λ full b bs. rw (fresh, at_limit (find_free_slot cl) full)),
  λ room.
      let (i, found, below, free) = free_slot_below_limit v room in
      (
        i,
        below,
        free,
        λ b bs.
            rw (
              fresh,
              found,
              admit,
              lt→leb cl.max_client cl.client_count (omega (arith, v.capacity)),
            ),
      ),
)
  where
    at_limit :
        (o : Option ℕ) → cl.client_count ≡ 5 → admit cl addr o ≡ (cl, sendto addr reject_msg ∷ [])
    at_limit Option.none full = refl
    at_limit (Option.some i) full =
        rw (admit, le→leb cl.max_client cl.client_count (omega (arith, v.capacity)))

-- From a valid table on in which all five clients are registered, through any run, every datagram
-- with bytes in it from another address than theirs is turned away.
pub full_forever :
    (cl : ClientList) (answers : List Answer) (addr : Address)
    → IsValid cl
    → ((j : ℕ) → j < 5 → is_member cl j ≡ true)
    → ((j : ℕ) → j < 5 → (client cl j).addr ≢ addr)
    → Running (λ m. TurnsAway m addr) (run cl answers)
full_forever cl answers addr v members others =
    Running-imp (Follows cl) _ (run cl answers) still (run-Follows cl answers v)
  where
    used : (m : ClientList) → Keeps cl m → (j : ℕ) → j < 5 → in_use (client m j) ≡ true
    used m kept j below = rw (kept j (members j below)) (ground (arith, members j below))

    still : (m : ClientList) → Follows cl m → TurnsAway m addr
    still m (w, kept) = elim (Option-cases (find_client_by_addr m addr)) [
      | inl missing ↦ (newcomer_cases m addr w missing).0 (
          omega (
            arith,
            w.counted,
            w.slots,
            count_if-all in_use m.clients vacant (λ j h. used m kept j (omega (arith, w.slots))),
          ))
      | inr (i, found) ↦
          let (below, busy, same) = find_client-some w addr i found in
          absurd (
            others i below
              (ap (λ (c : ClientInfo). c.addr) (sym (kept i (members i below))) ∙ same))
    ]
