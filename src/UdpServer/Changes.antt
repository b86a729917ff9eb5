-- ===== src/UdpServer/Changes.antt =====
-- kadai4/chatserver-udp.c: the ways in which the server changes its client table, as a step relation,
-- and what each way keeps.
use excc.Common.{ℕ, ◌+◌, ◌-◌, ◌≤◌, ◌<◌, ◌≡◌, ◌≢◌, refl, sym, true, List, [], arith, length, set}
use excc.ChatServer.{none, connecting, connected}
use excc.UdpServer.{Address, ClientInfo, ClientList, client, put}
use excc.UdpServer.Invariant.{in_use, is_member, IsValid, set-IsValid, active-set, client-set}

-- One change of the table.
pub data Change (cl : ClientList) : ClientList → Type 0 where
  stay : Change cl cl
  arrive :
      (i : ℕ) (addr : Address)
      → i < 5
      → (client cl i).status ≡ none
      → ((j : ℕ) → in_use (client cl j) ≡ true → (client cl j).addr ≢ addr)
      → Change cl (record cl {
        clients = set cl.clients i (record { addr = addr; name = []; status = connecting });
        client_count = cl.client_count + 1;
      })
  join :
      (i : ℕ) (name : List ℕ)
      → i < 5
      → (client cl i).status ≡ connecting
      → length name ≤ 15
      → ((j : ℕ) → is_member cl j ≡ true → (client cl j).name ≢ name)
      → Change cl (put cl i (record (client cl i) { name = name; status = connected }))
  reject :
      (i : ℕ)
      → i < 5
      → (client cl i).status ≡ connecting
      → Change cl (record cl {
        clients = set cl.clients i (record (client cl i) { name = []; status = none });
        client_count = cl.client_count - 1;
      })

-- Every change keeps the invariant.
pub Change-IsValid : {cl cl' : ClientList} → IsValid cl → Change cl cl' → IsValid cl'
Change-IsValid v stay = v
Change-IsValid {cl} v (arrive i addr h e apart) =
    let c : ClientInfo = record { addr = addr; name = []; status = connecting } in
    set-IsValid v i h c (cl.client_count + 1) (omega arith) (λ j p. cc) (λ j other p u. apart j u)
      (ground (arith, active-set v i h c, v.counted))
Change-IsValid {cl} v (join i name h e fits fresh) =
    let c = record (client cl i) { name = name; status = connected } in
    set-IsValid v i h c cl.client_count fits (λ j p. fresh j)
      (λ j other p u same. other (v.distinct i j (ground arith) u (sym same)))
      (ground (arith, active-set v i h c, v.counted))
Change-IsValid {cl} v (reject i h e) =
    let c = record (client cl i) { name = []; status = none } in
    set-IsValid v i h c (cl.client_count - 1) (omega arith) (λ j p. cc) (λ j other p. cc)
      (ground (arith, active-set v i h c, v.counted))

-- A registered client keeps its slot, its name and its address.
abbrev pub Keeps : ClientList → ClientList → Type 0
Keeps cl cl' = (j : ℕ) → is_member cl j ≡ true → client cl' j ≡ client cl j

pub Change-Keeps : {cl cl' : ClientList} → IsValid cl → Change cl cl' → Keeps cl cl'
Change-Keeps v stay j m = refl
Change-Keeps {cl} v (arrive i addr h e apart) j m =
    ground (arith, client-set v i h (record { addr = addr; name = []; status = connecting }) j)
Change-Keeps {cl} v (join i name h e fits fresh) j m =
    ground (arith, client-set v i h (record (client cl i) { name = name; status = connected }) j)
Change-Keeps {cl} v (reject i h e) j m =
    ground (arith, client-set v i h (record (client cl i) { name = []; status = none }) j)
