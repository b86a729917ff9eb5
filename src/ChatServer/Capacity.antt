-- ===== src/ChatServer/Capacity.antt =====
-- kadai4/chatserver.c: who gets in, and what becomes of the count of clients.
use excc.Common.{ℕ, ◌+◌, ◌-◌, ◌≤◌, ◌<◌, ◌≡◌, List, [], ◌∷◌, arith, set, le→leb, lt→leb}
use excc.Common.Outcome.{Running, Running-imp}
use excc.ChatServer.{ClientList, none, connecting, write, close, init, client, ack_msg, reject_msg}
use excc.ChatServer.Loop.{Select, new_client, admit, run}
use excc.ChatServer.Invariant.{active, IsValid, init-IsValid}
use excc.ChatServer.Changes.{Reach, Reach-IsValid, Reach-Loses}
use excc.ChatServer.Steps.{AreTidy}
use excc.ChatServer.Runs.{run-Reach, free_slot_below_limit}

-- After any run from the empty table in which each name, when a client without one is read from, is
-- read off without a store outside its buffer: if the server goes on, its table is valid. It has
-- five slots, its count is at least the number of slots in use and at most five, the names fit
-- their arrays, and no two registered clients have one name.
pub run-IsValid : (ss : List Select) → AreTidy init ss → Running IsValid (run init ss)
run-IsValid ss t =
    Running-imp (Reach init) IsValid (run init ss) (λ cl r. Reach-IsValid init-IsValid r)
      (run-Reach init-IsValid ss t)

-- The new connection is turned away and the table stays as it is.
abbrev pub TurnsAway : ClientList → ℕ → Type 0
TurnsAway cl fd = new_client cl fd ≡ (cl, write fd reject_msg ∷ close fd ∷ [])

-- The new connection gets a slot that was not in use, and is told so; all else stays.
abbrev pub LetsIn : ClientList → ℕ → Type 0
LetsIn cl fd =
    (i : ℕ) × (i < 5)
    × ((client cl i).status ≡ none)
    × (new_client cl fd ≡ (
      record cl {
        clients = set cl.clients i (record (client cl i) { socket = fd; status = connecting });
        client_count = cl.client_count + 1;
      },
      write fd ack_msg ∷ [],
    ))

-- On a valid table, a new connection is turned away if the count is five, and is let in if the
-- count is less: a free slot is then always found.
pub new_client_cases :
    (cl : ClientList) (fd : ℕ)
    → IsValid cl
    → (cl.client_count ≡ 5 → TurnsAway cl fd) × (cl.client_count < 5 → LetsIn cl fd)
unfolding new_client
new_client_cases cl fd v = (
  (λ full. rw (le→leb cl.max_client cl.client_count (omega arith))),
  λ room.
      let (i, found, below, free) = free_slot_below_limit v room in
      (i, below, free, rw (lt→leb cl.max_client cl.client_count (omega arith), found, admit)),
)

-- From any valid table on, in any run in which each name, when a client without one is read from, is
-- read off without a store outside its buffer: the room that the count has lost is lost for good. With
-- `n` counted but not in use now, never again are more than 5 - n slots in use.
pub lost_capacity :
    (cl : ClientList) (ss : List Select)
    → IsValid cl
    → AreTidy cl ss
    → Running (λ cl'. active cl' + (cl.client_count - active cl) ≤ 5) (run cl ss)
lost_capacity cl ss v t =
    Running-imp (Reach cl) _ (run cl ss)
      (λ cl' r. omega (arith, Reach-Loses v r, (Reach-IsValid v r).bounded, v.counted))
      (run-Reach v ss t)
