-- ===== src/ChatServer/Invariant.antt =====
-- kadai4/chatserver.c: what holds of the client table between two rounds, and that every handler
-- keeps it.
use excc.Common.{
  ℕ, zero, suc, ◌+◌, ◌≤◌, ◌<◌, ◌≡◌, ◌≢◌, refl, inl, inr, Bool, true, false, not, List, [], ◌∷◌,
  arith, Bool-cases, bit, ◌==◌, if◌then◌else◌, length, get_or, set, take, replicate, ◌&&◌,
  length-set, take-all, get_or-set, count_if, count_if-set,
}
use excc.Common.Text.{str_eq, str_eq_iff}
use excc.ChatServer.{
  ClientInfo, ClientList, is_none, is_connected, vacant, init, client, name_taken,
}

-- The slots in use: those whose status is not NONE.
abbrev pub in_use : ClientInfo → Bool
in_use c = not (is_none c.status)

abbrev pub active : ClientList → ℕ
active cl = count_if in_use cl.clients

abbrev pub is_member : ClientList → ℕ → Bool
is_member cl i = is_connected (client cl i).status

-- Five slots; a count that no slot in use escapes; names that fit their arrays; no name held by two
-- registered clients.
pub record IsValid (cl : ClientList) : Type 0 where
  pub slots : length cl.clients ≡ 5
  pub capacity : cl.max_client ≡ 5
  pub counted : active cl ≤ cl.client_count
  pub bounded : cl.client_count ≤ 5
  pub short : (i : ℕ) → length (client cl i).name ≤ 15
  pub unique :
      (i j : ℕ)
      → is_member cl i ≡ true
      → is_member cl j ≡ true
      → (client cl i).name ≡ (client cl j).name
      → i ≡ j

-- The loops over the first `max_client` slots go over all.
pub all_slots : {cl : ClientList} → IsValid cl → take cl.max_client cl.clients ≡ cl.clients
all_slots {cl} v = take-all cl.max_client cl.clients (omega arith)

pub name_taken-false :
    (name : List ℕ) (cs : List ClientInfo) (j : ℕ)
    → name_taken name cs ≡ false
    → is_connected (get_or cs j vacant).status ≡ true
    → (get_or cs j vacant).name ≢ name
unfolding name_taken
name_taken-false name [] j e c = cc
name_taken-false name (x ∷ cs) zero e c = ground (arith, str_eq_iff x.name name)
name_taken-false name (x ∷ cs) (suc j) e c = ground (arith, name_taken-false name cs j)

pub name_taken-true :
    (name : List ℕ) (cs : List ClientInfo)
    → name_taken name cs ≡ true
    → (j : ℕ) × (j < length cs)
      × (is_connected (get_or cs j vacant).status ≡ true)
      × ((get_or cs j vacant).name ≡ name)
unfolding name_taken
name_taken-true name [] e = cc
name_taken-true name (x ∷ cs) e = elim (Bool-cases (is_connected x.status && str_eq x.name name)) [
  | inl here ↦ (0, omega arith, ground arith, ground (arith, str_eq_iff x.name name))
  | inr past ↦
      let (j, inside, member, same) = name_taken-true name cs (ground arith) in
      (suc j, omega arith, member, same)
]

-- A slot that is not registered, before and after, has no part in the search for a name.
pub name_taken-set :
    (name : List ℕ) (cs : List ClientInfo) (i : ℕ) (c : ClientInfo)
    → is_connected c.status ≡ false
    → is_connected (get_or cs i vacant).status ≡ false
    → name_taken name (set cs i c) ≡ name_taken name cs
unfolding name_taken
name_taken-set name [] i c e f = refl
name_taken-set name (x ∷ cs) zero c e f = ground arith
name_taken-set name (x ∷ cs) (suc i) c e f = rw (name_taken-set name cs i c e f)

short_vacant : (n i : ℕ) → length (get_or (replicate n vacant) i vacant).name ≤ 15
short_vacant zero i = omega arith
short_vacant (suc n) zero = omega arith
short_vacant (suc n) (suc i) = short_vacant n i

no_member_vacant : (n i : ℕ) → is_connected (get_or (replicate n vacant) i vacant).status ≡ false
no_member_vacant zero i = refl
no_member_vacant (suc n) zero = refl
no_member_vacant (suc n) (suc i) = no_member_vacant n i

pub init-IsValid : IsValid init
unfolding count_if
init-IsValid = record {
  slots = refl;
  capacity = refl;
  counted = omega arith;
  bounded = omega arith;
  short = short_vacant 5;
  unique = λ i j c d e. cc (no_member_vacant 5 i);
}

-- A slot in the table is replaced.
module _ {cl : ClientList} (v : IsValid cl) (i : ℕ) (inside : i < 5) (c : ClientInfo) where
  pub active-set :
      count_if in_use (set cl.clients i c) + bit (in_use (client cl i)) ≡ active cl + bit (in_use c)
  active-set = count_if-set in_use cl.clients i c vacant (omega (arith, v.slots))

  pub client-set :
      (j : ℕ) → get_or (set cl.clients i c) j vacant ≡ (if i == j then c else client cl j)
  client-set j = get_or-set cl.clients i j c vacant (omega (arith, v.slots))

  -- It keeps the invariant if the new name fits, nobody else is registered under it, and the count
  -- follows.
  pub set-IsValid :
      (n : ℕ)
      → length c.name ≤ 15
      → ((j : ℕ)
          → is_connected c.status ≡ true
          → is_member cl j ≡ true
          → (client cl j).name ≢ c.name)
      → count_if in_use (set cl.clients i c) ≤ n
      → n ≤ 5
      → IsValid (record cl { clients = set cl.clients i c; client_count = n })
  set-IsValid n fits fresh le most = record {
    slots = omega (arith, v.slots, length-set cl.clients i c);
    capacity = v.capacity;
    counted = le;
    bounded = most;
    short = λ j. ground (arith, client-set j, v.short j);
    unique =
        λ j k p q e. ground (arith, client-set j, client-set k, fresh j, fresh k, v.unique j k);
  }
