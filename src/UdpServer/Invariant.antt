-- ===== src/UdpServer/Invariant.antt =====
-- kadai4/chatserver-udp.c: what holds of the client table between two rounds, the searches in it, and
-- the replacement of one slot.
use mathlib.Core.Option.{Option}
use excc.Common.{
  ℕ, zero, suc, ◌+◌, ◌≤◌, ◌<◌, ◌≡◌, ◌≢◌, ◌↔◌, refl, inl, inr, Bool, true, false, not, List, [], ◌∷◌,
  arith, Bool-cases, bit, ◌==◌, if◌then◌else◌, length, get_or, set, take, ◌&&◌, length-set,
  take-all, get_or-set, get_or-replicate, count_if, count_if-set, count_if-replicate,
}
use excc.Common.Text.{str_eq_iff}
use excc.ChatServer.{none, is_none, is_connected}
use excc.UdpServer.{
  Address, ClientInfo, ClientList, vacant, init, client, same_addr, name_taken, find_addr,
  find_free,
}

-- The slots in use: those whose status is not NONE.
abbrev pub in_use : ClientInfo → Bool
in_use c = not (is_none c.status)

abbrev pub active : ClientList → ℕ
active cl = count_if in_use cl.clients

abbrev pub is_member : ClientList → ℕ → Bool
is_member cl i = is_connected (client cl i).status

-- Five slots; the count is the number of slots in use; the names fit their arrays; no name is held
-- by two registered clients and no address by two slots in use.
pub record IsValid (cl : ClientList) : Type 0 where
  pub slots : length cl.clients ≡ 5
  pub capacity : cl.max_client ≡ 5
  pub counted : cl.client_count ≡ active cl
  pub short : (i : ℕ) → length (client cl i).name ≤ 15
  pub unique :
      (i j : ℕ)
      → is_member cl i ≡ true
      → is_member cl j ≡ true
      → (client cl i).name ≡ (client cl j).name
      → i ≡ j
  pub distinct :
      (i j : ℕ)
      → in_use (client cl i) ≡ true
      → in_use (client cl j) ≡ true
      → (client cl i).addr ≡ (client cl j).addr
      → i ≡ j

-- The loops over the first `max_client` slots go over all.
pub all_slots : {cl : ClientList} → IsValid cl → take cl.max_client cl.clients ≡ cl.clients
all_slots {cl} v = take-all cl.max_client cl.clients (omega arith)

pub same_addr_iff : (a b : Address) → (same_addr a b ≡ true) ↔ (a ≡ b)
unfolding same_addr
same_addr_iff a b = ((λ e. ground arith), λ e. ground arith)

pub name_taken-false :
    (name : List ℕ) (cs : List ClientInfo) (j : ℕ)
    → name_taken name cs ≡ false
    → is_connected (get_or cs j vacant).status ≡ true
    → (get_or cs j vacant).name ≢ name
unfolding name_taken
name_taken-false name [] j e c = cc
name_taken-false name (x ∷ cs) zero e c = ground (arith, str_eq_iff x.name name)
name_taken-false name (x ∷ cs) (suc j) e c = ground (arith, name_taken-false name cs j)

-- A slot that is not registered, before and after, has no part in the search for a name.
pub name_taken-set :
    (name : List ℕ) (cs : List ClientInfo) (i : ℕ) (c : ClientInfo)
    → is_connected c.status ≡ false
    → is_connected (get_or cs i vacant).status ≡ false
    → name_taken name (set cs i c) ≡ name_taken name cs
unfolding name_taken
name_taken-set name [] i c e f = refl
name_taken-set name (x ∷ cs) zero c e f = ground arith
name_taken-set name (x ∷ cs) (suc i) c e f = rw (name_taken-set name cs i c e f)

-- What the search by address finds.
pub find_addr-some :
    (k i : ℕ) (addr : Address) (cs : List ClientInfo)
    → find_addr k addr cs ≡ Option.some i
    → (j : ℕ) × (i ≡ k + j)
      × (j < length cs)
      × (in_use (get_or cs j vacant) ≡ true)
      × ((get_or cs j vacant).addr ≡ addr)
unfolding find_addr
find_addr-some k i addr [] e = cc
find_addr-some k i addr (c ∷ cs) e = elim (Bool-cases (in_use c && same_addr c.addr addr)) [
  | inl found ↦
      (0, ground arith, omega arith, ground arith, ground (arith, same_addr_iff c.addr addr))
  | inr other ↦
      let (j, q, below, used, same) = find_addr-some (suc k) i addr cs (ground arith) in
      (suc j, omega arith, omega arith, used, same)
]

pub find_addr-none :
    (k : ℕ) (addr : Address) (cs : List ClientInfo) (j : ℕ)
    → find_addr k addr cs ≡ Option.none
    → in_use (get_or cs j vacant) ≡ true
    → (get_or cs j vacant).addr ≢ addr
unfolding find_addr
find_addr-none k addr [] j e u = cc
find_addr-none k addr (c ∷ cs) zero e u = ground (arith, same_addr_iff c.addr addr)
find_addr-none k addr (c ∷ cs) (suc j) e u = ground (arith, find_addr-none (suc k) addr cs j)

-- What the search for a free slot finds.
pub find_free-some :
    (k i : ℕ) (cs : List ClientInfo)
    → find_free k cs ≡ Option.some i
    → (j : ℕ) × (i ≡ k + j) × (j < length cs) × ((get_or cs j vacant).status ≡ none)
unfolding find_free
find_free-some k i [] e = cc
find_free-some k i (c ∷ cs) e = elim (Bool-cases (is_none c.status)) [
  | inl free ↦ (0, ground arith, omega arith, ground arith)
  | inr used ↦
      let (j, q, below, free) = find_free-some (suc k) i cs (ground arith) in
      (suc j, omega arith, omega arith, free)
]

pub find_free-none :
    (k : ℕ) (cs : List ClientInfo) → find_free k cs ≡ Option.none → count_if in_use cs ≡ length cs
unfolding find_free count_if
find_free-none k [] e = refl
find_free-none k (c ∷ cs) e = ground (arith, find_free-none (suc k) cs)

pub init-IsValid : IsValid init
init-IsValid = record {
  slots = refl;
  capacity = refl;
  counted = ground (arith, count_if-replicate in_use 5 vacant refl);
  short = λ i. ground (arith, get_or-replicate 5 i vacant);
  unique = λ i j c d e. ground (arith, get_or-replicate 5 i vacant);
  distinct = λ i j c d e. ground (arith, get_or-replicate 5 i vacant);
}

-- A slot in the table is replaced.
module _ {cl : ClientList} (v : IsValid cl) (i : ℕ) (inside : i < 5) (c : ClientInfo) where
  pub active-set :
      count_if in_use (set cl.clients i c) + bit (in_use (client cl i)) ≡ active cl + bit (in_use c)
  active-set = count_if-set in_use cl.clients i c vacant (omega (arith, v.slots))

  pub client-set :
      (j : ℕ) → get_or (set cl.clients i c) j vacant ≡ (if i == j then c else client cl j)
  client-set j = get_or-set cl.clients i j c vacant (omega (arith, v.slots))

  -- It keeps the invariant if the new name fits, no other holds the name or the address, and the
  -- count follows.
  pub set-IsValid :
      (n : ℕ)
      → length c.name ≤ 15
      → ((j : ℕ)
          → is_connected c.status ≡ true
          → is_member cl j ≡ true
          → (client cl j).name ≢ c.name)
      → ((j : ℕ)
          → i ≢ j
          → in_use c ≡ true
          → in_use (client cl j) ≡ true
          → (client cl j).addr ≢ c.addr)
      → n ≡ count_if in_use (set cl.clients i c)
      → IsValid (record cl { clients = set cl.clients i c; client_count = n })
  set-IsValid n fits fresh apart count = record {
    slots = omega (arith, v.slots, length-set cl.clients i c);
    capacity = v.capacity;
    counted = count;
    short = λ j. ground (arith, client-set j, v.short j);
    unique =
        λ j k p q e. ground (arith, client-set j, client-set k, fresh j, fresh k, v.unique j k);
    distinct =
        λ j k p q e. ground (arith, client-set j, client-set k, apart j, apart k, v.distinct j k);
  }
