-- ===== src/ChatServer/Runs.antt =====
-- kadai4/chatserver.c: `new_client` and the main loop go by changes of the table.
use mathlib.Core.Option.{Option}
use excc.Common.{
  ℕ, suc, ◌+◌, ◌<◌, ◌≡◌, refl, List, [], ◌∷◌, arith, Bool-cases, Option-cases, length, get_or, take,
  count_if, dec_lt, le→leb, lt→leb, inl, inr,
}
use excc.Common.Outcome.{Running, Running-if, Running-imp, resume-each, loop}
use excc.ChatServer.{ClientInfo, ClientList, none, is_none, vacant, client}
use excc.ChatServer.Loop.{
  Select, error, ready, Accepted, refused, socket, free_slot, admit, new_client, accept_client,
  round, run,
}
use excc.ChatServer.Invariant.{in_use, IsValid, all_slots}
use excc.ChatServer.Steps.{IsTidySelect, AreTidy, serve_clients-Reach}
use excc.ChatServer.Changes.{Change, stay, arrive, Reach, here, next, Reach-trans, Reach-IsValid}

-- The loop of `new_client` finds a slot that is not in use, if there is one.
pub free_slot-some :
    (k i : ℕ) (cs : List ClientInfo)
    → free_slot k cs ≡ Option.some i
    → (j : ℕ) × (i ≡ k + j) × (j < length cs) × ((get_or cs j vacant).status ≡ none)
unfolding free_slot
free_slot-some k i [] e = cc
free_slot-some k i (c ∷ cs) e = elim (Bool-cases (is_none c.status)) [
  | inl free ↦ (0, ground arith, omega arith, ground arith)
  | inr used ↦
      let (j, q, below, free) = free_slot-some (suc k) i cs (ground arith) in
      (suc j, omega arith, omega arith, free)
]

pub free_slot-none :
    (k : ℕ) (cs : List ClientInfo) → free_slot k cs ≡ Option.none → count_if in_use cs ≡ length cs
unfolding free_slot count_if
free_slot-none k [] e = refl
free_slot-none k (c ∷ cs) e = ground (arith, free_slot-none (suc k) cs)

-- Below the limit `new_client` always finds a free slot: the loop does not run off the end.
pub free_slot_below_limit :
    {cl : ClientList} (v : IsValid cl)
    → cl.client_count < 5
    → (i : ℕ) × (free_slot 0 (take cl.max_client cl.clients) ≡ Option.some i)
      × (i < 5)
      × ((client cl i).status ≡ none)
free_slot_below_limit {cl} v room = rw (all_slots v) (elim (Option-cases (free_slot 0 cl.clients)) [
  | inl full ↦ absurd (omega (arith, free_slot-none 0 cl.clients full, v.counted, v.slots))
  | inr (i, found) ↦
      let (j, q, below, free) = free_slot-some 0 i cl.clients found in
      let same : i ≡ j = omega arith in (i, found, omega (arith, v.slots), rw same free)
])

new_client-Change : {cl : ClientList} (v : IsValid cl) (fd : ℕ) → Change cl (new_client cl fd).0
unfolding new_client
new_client-Change {cl} v fd = elim (dec_lt cl.client_count 5) [
  | yes room ↦
      let (i, found, below, free) = free_slot_below_limit v room in
      rw (lt→leb cl.max_client cl.client_count (omega arith), found, admit)
        (arrive i fd below free room)
  | no full ↦ rw (le→leb cl.max_client cl.client_count (omega arith)) stay
]

accept_client-Reach :
    {cl : ClientList} (v : IsValid cl) (a : Accepted) → Running (Reach cl) (accept_client cl a)
unfolding accept_client
accept_client-Reach v refused = tt
accept_client-Reach v (socket fd) = next here (new_client-Change v fd)

round-Reach :
    {cl : ClientList} (v : IsValid cl) (s : Select)
    → IsTidySelect cl s
    → Running (Reach cl) (round cl s)
unfolding round
round-Reach v error t = tt
round-Reach {cl} v (ready r) t =
    Running-if _ _ _ r.listening (λ comes. accept_client-Reach v r.accepted)
      (λ reads. serve_clients-Reach r 5 cl 0 (t reads) v (omega arith))

-- A run goes by changes of the table.
pub run-Reach :
    {cl : ClientList} (v : IsValid cl) (ss : List Select)
    → AreTidy cl ss
    → Running (Reach cl) (run cl ss)
unfolding run loop
run-Reach v [] t = here
run-Reach {cl} v (s ∷ ss) t = resume-each (Reach cl) (round cl s) _ (λ m out goes.
    let first : Reach cl m = rw goes at (round-Reach v s t.0) in
    let rest : AreTidy m ss = rw goes at t.1 in
    Running-imp (Reach m) (Reach cl) (run m ss) (λ n q. Reach-trans first q)
      (run-Reach (Reach-IsValid v first) ss rest))
