-- ===== src/ChatServer/Changes.antt =====
-- kadai4/chatserver.c: the ways in which a handler changes the client table, as a step relation, and
-- what each way keeps.
use excc.Common.{ℕ, ◌+◌, ◌-◌, ◌≤◌, ◌<◌, ◌≡◌, ◌≢◌, true, List, arith, length, set, count_if-pos}
use excc.ChatServer.{ClientList, none, connecting, connected, vacant, client, put}
use excc.ChatServer.Invariant.{in_use, active, is_member, IsValid, set-IsValid, active-set}

-- One change of the table.
pub data Change (cl : ClientList) : ClientList → Type 0 where
  stay : Change cl cl
  arrive :
      (i fd : ℕ)
      → i < 5
      → (client cl i).status ≡ none
      → cl.client_count < 5
      → Change cl (record cl {
        clients = set cl.clients i (record (client cl i) { socket = fd; status = connecting });
        client_count = cl.client_count + 1;
      })
  join :
      (i : ℕ) (name : List ℕ)
      → i < 5
      → (client cl i).status ≡ connecting
      → length name ≤ 15
      → ((j : ℕ) → is_member cl j ≡ true → (client cl j).name ≢ name)
      → Change cl (put cl i (record (client cl i) { name = name; status = connected }))
  reject :
      (i j : ℕ)
      → i < 5
      → (client cl i).status ≡ connecting
      → is_member cl j ≡ true
      → Change cl (put cl i vacant)
  leave :
      (i : ℕ)
      → i < 5
      → in_use (client cl i) ≡ true
      → Change cl (record cl {
        clients = set cl.clients i (record (client cl i) { socket = 0; status = none });
        client_count = cl.client_count - 1;
      })

-- What the counter holds beyond the slots in use never shrinks.
abbrev pub Loses : ClientList → ClientList → Type 0
Loses cl cl' = active cl' + cl.client_count ≤ active cl + cl'.client_count

pub in_use_pos :
    {cl : ClientList} (v : IsValid cl) (i : ℕ) → i < 5 → in_use (client cl i) ≡ true → 0 < active cl
in_use_pos {cl} v i h e = count_if-pos in_use cl.clients i vacant (omega (arith, v.slots)) e

-- Every change keeps the invariant.
pub Change-IsValid : {cl cl' : ClientList} → IsValid cl → Change cl cl' → IsValid cl'
Change-IsValid v stay = v
Change-IsValid {cl} v (arrive i fd h e room) =
    let c = record (client cl i) { socket = fd; status = connecting } in
    set-IsValid v i h c (cl.client_count + 1) (v.short i) (λ j p. cc)
      (ground (arith, active-set v i h c)) (omega arith)
Change-IsValid {cl} v (join i name h e fits fresh) =
    let c = record (client cl i) { name = name; status = connected } in
    set-IsValid v i h c cl.client_count fits (λ j p. fresh j) (ground (arith, active-set v i h c))
      v.bounded
Change-IsValid {cl} v (reject i j h e member) =
    set-IsValid v i h vacant cl.client_count (omega arith) (λ k p. cc)
      (ground (arith, active-set v i h vacant)) v.bounded
Change-IsValid {cl} v (leave i h e) =
    let c = record (client cl i) { socket = 0; status = none } in
    set-IsValid v i h c (cl.client_count - 1) (v.short i) (λ j p. cc)
      (ground (arith, active-set v i h c, in_use_pos v i h e)) (omega arith)

pub Change-Loses : {cl cl' : ClientList} → IsValid cl → Change cl cl' → Loses cl cl'
Change-Loses v stay = omega arith
Change-Loses {cl} v (arrive i fd h e room) =
    ground (arith, active-set v i h (record (client cl i) { socket = fd; status = connecting }))
Change-Loses {cl} v (join i name h e fits fresh) =
    ground (arith, active-set v i h (record (client cl i) { name = name; status = connected }))
Change-Loses {cl} v (reject i j h e member) = ground (arith, active-set v i h vacant)
Change-Loses {cl} v (leave i h e) = ground (
  arith,
  active-set v i h (record (client cl i) { socket = 0; status = none }),
  in_use_pos v i h e,
)

-- The tables that the server can come to from `cl`.
pub data Reach (cl : ClientList) : ClientList → Type 0 where
  here : Reach cl cl
  next : {m n : ClientList} → Reach cl m → Change m n → Reach cl n

pub Reach-trans : {a b c : ClientList} → Reach a b → Reach b c → Reach a c
Reach-trans r here = r
Reach-trans r (next s ch) = next (Reach-trans r s) ch

pub Reach-IsValid : {cl cl' : ClientList} → IsValid cl → Reach cl cl' → IsValid cl'
Reach-IsValid v here = v
Reach-IsValid v (next r ch) = Change-IsValid (Reach-IsValid v r) ch

pub Reach-Loses : {cl cl' : ClientList} → IsValid cl → Reach cl cl' → Loses cl cl'
Reach-Loses v here = omega arith
Reach-Loses v (next r ch) = omega (arith, Reach-Loses v r, Change-Loses (Reach-IsValid v r) ch)
