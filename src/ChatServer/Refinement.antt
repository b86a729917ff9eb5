-- ===== src/ChatServer/Refinement.antt =====
-- kadai4/chatserver.c: the server keeps what `Room` promises to those who connect, and its open
-- descriptors are those of its clients.
use excc.Common.{
  ℕ, ◌≡◌, refl, sym, ap, ◌∙◌, Bool, true, false, List, [], ◌∷◌, ◌++◌, arith, if◌then◌else◌,
}
use excc.Common.Outcome.{Outcome, running, loop, resume, prepend, calls, after}
use excc.ChatServer.{ClientList, Effect, max_clients}
use excc.ChatServer.Loop.{
  Accepted, refused, socket, Select, error, ready, accept_client, serve_clients, round, run,
}
use excc.ChatServer.Invariant.{IsValid}
use excc.ChatServer.Steps.{IsTidySelect}
use excc.ChatServer.Wire.{opens, mail, opens-append, mail-append}
use excc.Room.{Event, arrives, Served, silent}
use excc.ChatServer.Seats.{is_seated, room, AreDistinct}
use excc.ChatServer.Attending.{Acts}
use excc.ChatServer.Slots.{IsShort, loop_events, Passes, serve_clients-Passes, Served-append}
use excc.ChatServer.Arriving.{accept-Passes}

-- What the clients do in a round.
abbrev pub accepted_events : Accepted → List (Event ℕ)
accepted_events refused = []
accepted_events (socket fd) = arrives fd ∷ []

abbrev pub round_events : ClientList → Select → List (Event ℕ)
round_events cl error = []
round_events cl (ready r) =
    if r.listening then accepted_events r.accepted else loop_events r cl max_clients 0

-- What the clients do in a run.
abbrev pub events : ClientList → List Select → List (Event ℕ)
events cl [] = []
events cl (s ∷ ss) = round_events cl s ++ events (after cl (round cl s)) ss

-- An `accept` that is called gives a descriptor that is not open.
abbrev pub IsNew : (is_open : ℕ → Bool) → Bool → Accepted → Type 0
IsNew is_open false a = Unit {0}
IsNew is_open true refused = ⊥
IsNew is_open true (socket fd) = is_open fd ≡ false

-- `select` does not fail; each name is read off without a store outside its buffer, and no read gives
-- more than it is asked for.
abbrev pub Works : (is_open : ℕ → Bool) → ClientList → Select → Type 0
Works is_open cl error = ⊥
Works is_open cl (ready r) =
    IsTidySelect cl (ready r)
    × ((fd : ℕ) → IsShort (r.received fd))
    × IsNew is_open r.listening r.accepted

-- The same for each round, with the descriptors that are open by then.
abbrev pub AllWork : (is_open : ℕ → Bool) → ClientList → List Select → Type 0
AllWork is_open cl [] = Unit {0}
AllWork is_open cl (s ∷ ss) =
    Works is_open cl s
    × AllWork (λ fd. opens (calls (round cl s)) fd (is_open fd)) (after cl (round cl s)) ss

-- A round goes on.
abbrev RoundPasses : ClientList → List (Event ℕ) → Outcome ClientList Effect → Type 0
RoundPasses cl es o =
    (m : ClientList) × (now : List Effect) × (o ≡ running m now) × Passes cl es m now

listening-Passes :
    (cl : ClientList) (is_open : ℕ → Bool) (b : Bool) (a : Accepted) (es : List (Event ℕ))
    (x : ClientList × List Effect)
    → IsValid cl
    → AreDistinct cl.clients
    → ((fd : ℕ) → is_open fd ≡ is_seated cl fd)
    → IsNew is_open b a
    → (b ≡ false → Passes cl es x.0 x.1)
    → RoundPasses cl
        (if b then accepted_events a else es)
        (if b then accept_client cl a else running x.0 x.1)
listening-Passes cl is_open false a es x v d same new passes = (x.0, x.1, refl, passes refl)
listening-Passes cl is_open true refused es x v d same new passes = absurd new
listening-Passes cl is_open true (socket fd) es x v d same new passes =
    accept-Passes v d fd (sym (same fd) ∙ new)

round-Passes :
    (cl : ClientList) (is_open : ℕ → Bool) (s : Select)
    → IsValid cl
    → AreDistinct cl.clients
    → ((fd : ℕ) → is_open fd ≡ is_seated cl fd)
    → Works is_open cl s
    → RoundPasses cl (round_events cl s) (round cl s)
unfolding round
round-Passes cl is_open error v d same h = absurd h
round-Passes cl is_open (ready r) v d same h =
    listening-Passes cl is_open r.listening r.accepted (loop_events r cl max_clients 0)
      (serve_clients r max_clients cl 0) v d same h.2
      (λ reads. serve_clients-Passes r max_clients cl 0 v d (h.0 reads) h.1 (omega arith))

run-cons :
    (cl : ClientList) (s : Select) (ss : List Select) {m n : ClientList} {now later : List Effect}
    → round cl s ≡ running m now
    → run m ss ≡ running n later
    → run cl (s ∷ ss) ≡ running n (now ++ later)
unfolding run loop resume prepend
run-cons cl s ss here rest = rw (here, rest) refl

-- From a valid table on in which no two clients have one socket, and with just their descriptors open, the
-- server goes on through any run in which the calls work, and what it does is what the room promises: all that the clients do, in the order
-- in which the loop comes to them, is attended to, and each descriptor is written those messages while it is
-- open. Those that are open in the end are again those of the clients: none is lost, and none is
-- closed that a client still has. (The calls work if `select` does not fail, `accept` gives a
-- descriptor that is not open, no `read` gives more than 127 bytes, and each name, when a client without
-- one is read from, is read off without a store outside its buffer.)
pub run_attends :
    (is_open : ℕ → Bool) (cl : ClientList) (ss : List Select)
    → IsValid cl
    → AreDistinct cl.clients
    → ((fd : ℕ) → is_open fd ≡ is_seated cl fd)
    → AllWork is_open cl ss
    → (m : ClientList) × (out : List Effect) × (run cl ss ≡ running m out)
      × Served Acts (room cl) (events cl ss) (room m) (λ fd. mail out fd (is_open fd))
      × ((fd : ℕ) → opens out fd (is_open fd) ≡ is_seated m fd)
unfolding run loop opens mail
run_attends is_open cl [] v d same h = (cl, [], refl, silent (λ fd. refl), same)
run_attends is_open cl (s ∷ ss) v d same h =
    let (m, now, here, passes) = round-Passes cl is_open s v d same h.0 in
    let goes : AllWork (λ fd. opens now fd (is_open fd)) m ss = rw here at h.1 in
    let (n, later, rest, served, open_last) =
      run_attends (λ fd. opens now fd (is_open fd)) m ss passes.valid passes.distinct
        (λ fd. ap (opens now fd) (same fd) ∙ passes.tracks fd) goes in
    (
      n,
      now ++ later,
      run-cons cl s ss here rest,
      rw here (
          Served-append passes.served served (λ fd.
            mail-append now later fd (is_open fd)
            ∙ ap (λ o. mail now fd o ++ mail later fd (opens now fd (is_open fd))) (same fd))),
      λ fd. opens-append now later fd (is_open fd) ∙ open_last fd,
    )
