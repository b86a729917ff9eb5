-- ===== src/Room.antt =====
-- What the chat servers of kadai4 promise, without their tables: who sits in the room, and which
-- messages each receives, in order. The slots, their order, the searches and the buffers are forgotten,
-- and so is the order of messages to different clients. A client is known by a key `A`.
pub mod Seats
pub mod Speaking
use mathlib.Core.Option.{Option}
use mathlib.Core.List.{Mem}
use excc.Common.{
  ℕ, ◌+◌, ◌≤◌, ◌<◌, ◌≡◌, Bool, true, false, ◌||◌, List, [], ◌∷◌, ◌++◌, map, if◌then◌else◌,
}
use excc.Common.Text.{codes, newline, str_eq}
use excc.ChatServer.{ack_msg, reject_msg, username_ack_msg, username_reject_msg}

-- Let in without a name yet, or registered.
pub data Seat : Type 0 where
  waiting : Seat
  member : (name : List ℕ) → Seat

pub record Room (A : Type 0) : Type 0 where
  pub seat : A → Option Seat
  pub occupied : ℕ

-- The messages to each key, in order.
abbrev pub Mail : Type 0 → Type 0
Mail A = A → List (List ℕ)

abbrev pub empty_room : {A : Type 0} → Room A
empty_room = record { seat = λ b. Option.none; occupied = 0 }

-- Some member has the name.
abbrev pub Taken : {A : Type 0} → Room A → List ℕ → Type 0
Taken {A} r name = (b : A) × (r.seat b ≡ Option.some (member name))

-- A message to the one on that seat, if it is a member.
abbrev pub to_member : List ℕ → Option Seat → List (List ℕ)
to_member message Option.none = []
to_member message (Option.some waiting) = []
to_member message (Option.some (member name)) = message ∷ []

-- What the others are told when one leaves.
abbrev pub farewell : Seat → Option Seat → List (List ℕ)
farewell waiting other = []
farewell (member name) other = to_member (name ++ codes " is disconnected\n") other

-- What a client does.
pub data Event (A : Type 0) : Type 0 where
  arrives : (a : A) → Event A
  says : (a : A) (text : List ℕ) → Event A
  leaves : (a : A) → Event A

-- `name_of` reads a name off a text, `is_list` says which texts ask for the names, and `returned` is the
-- number of places that a refused client gives back.
module _ {A : Type 0} (same : A → A → Bool) (name_of : List ℕ → List ℕ) (is_list : List ℕ → Bool)
    (returned : ℕ) where
  -- One seat is changed.
  abbrev pub Sits : Room A → A → Option Seat → Room A → Type 0
  Sits r a s r' = (b : A) → r'.seat b ≡ (if same a b then s else r.seat b)

  -- Mail to one key only.
  abbrev pub Only : A → List (List ℕ) → Mail A → Type 0
  Only a messages mail = (b : A) → mail b ≡ (if same a b then messages else [])

  -- What is to happen when `text` comes from `a`: the room after it, and the mail.
  pub data Serves (r : Room A) (a : A) (text : List ℕ) (r' : Room A) (mail : Mail A) : Type 0 where
    turn_away :
        r.seat a ≡ Option.none
        → 5 ≤ r.occupied
        → r' ≡ r
        → Only a (reject_msg ∷ []) mail
        → Serves r a text r' mail
    let_in :
        r.seat a ≡ Option.none
        → r.occupied < 5
        → Sits r a (Option.some waiting) r'
        → r'.occupied ≡ r.occupied + 1
        → Only a (ack_msg ∷ []) mail
        → Serves r a text r' mail
    refuse_name :
        r.seat a ≡ Option.some waiting
        → Taken r (name_of text)
        → Sits r a Option.none r'
        → r'.occupied + returned ≡ r.occupied
        → Only a (username_reject_msg ∷ []) mail
        → Serves r a text r' mail
    join :
        r.seat a ≡ Option.some waiting
        → ¬ Taken r (name_of text)
        → Sits r a (Option.some (member (name_of text))) r'
        → r'.occupied ≡ r.occupied
        → ((b : A)
            → mail b
              ≡ (if same a b then username_ack_msg ∷ [] else [])
                ++ to_member (name_of text ++ codes " joined\n") (r'.seat b))
        → Serves r a text r' mail
    list :
        (name : List ℕ) (names : List (List ℕ))
        → r.seat a ≡ Option.some (member name)
        → is_list text ≡ true
        → r' ≡ r
        → ((n : List ℕ) → Mem n names → ∥ Taken r n ∥₁)
        → ((n : List ℕ) → Taken r n → Mem n names)
        → Only a (map (λ n. n ++ newline ∷ []) names) mail
        → Serves r a text r' mail
    speak :
        (name : List ℕ)
        → r.seat a ≡ Option.some (member name)
        → is_list text ≡ false
        → r' ≡ r
        → ((b : A) → mail b ≡ to_member (name ++ codes ": " ++ text) (r.seat b))
        → Serves r a text r' mail

  -- The same for connections: a client is there before it says something, and may leave.
  pub data Attends (r : Room A) : Event A → Room A → Mail A → Type 0 where
    came :
        {a : A} {r' : Room A} {mail : Mail A}
        → r.seat a ≡ Option.none
        → Serves r a [] r' mail
        → Attends r (arrives a) r' mail
    said :
        {a : A} {text : List ℕ} {r' : Room A} {mail : Mail A} (s : Seat)
        → r.seat a ≡ Option.some s
        → Serves r a text r' mail
        → Attends r (says a text) r' mail
    left :
        {a : A} {r' : Room A} {mail : Mail A} (s : Seat)
        → r.seat a ≡ Option.some s
        → Sits r a Option.none r'
        → r'.occupied + 1 ≡ r.occupied
        → ((b : A) → mail b ≡ (if same a b then [] else farewell s (r.seat b)))
        → Attends r (leaves a) r' mail

-- A sequence of what `Acts` says of one.
pub data Served {A E : Type 0} (Acts : Room A → E → Room A → Mail A → Type 0)
    : Room A → List E → Room A → Mail A → Type 0 where
  silent : {r : Room A} {mail : Mail A} → ((b : A) → mail b ≡ []) → Served Acts r [] r mail
  hear :
      {e : E} {rest : List E} {r m n : Room A} {now later mail : Mail A}
      → Acts r e m now
      → Served Acts m rest n later
      → ((b : A) → mail b ≡ now b ++ later b)
      → Served Acts r (e ∷ rest) n mail
