-- ===== src/UdpServer/Refinement.antt =====
-- kadai4/chatserver-udp.c: the server keeps what `Room` promises.
use excc.Common.{ℕ, ◌≤◌, ◌≡◌, refl, List, [], ◌∷◌, ◌++◌, length}
use excc.Common.Text.{c_string}
use excc.Common.Outcome.{running, Each, loop, resume, prepend}
use excc.Room.{Served, silent, hear}
use excc.UdpServer.{Address, ClientList, Effect}
use excc.UdpServer.Loop.{Answer, select_error, timeout, recv_error, datagram, round, run}
use excc.UdpServer.Invariant.{IsValid}
use excc.UdpServer.Changes.{Change-IsValid}
use excc.UdpServer.Rounds.{round-Change}
use excc.UdpServer.Seats.{room}
use excc.UdpServer.Mail.{mail, mail-append}
use excc.UdpServer.Serving.{Answers, datagram-Keeps}

-- `select` does not fail, and `recvfrom` stores no more bytes than it is asked for.
abbrev pub Arrives : Answer → Type 0
Arrives select_error = ⊥
Arrives timeout = Unit {0}
Arrives recv_error = Unit {0}
Arrives (datagram addr bytes) = length bytes ≤ 127

-- The texts that arrive, with their senders. An empty datagram is none.
abbrev pub texts : List Answer → List (Address × List ℕ)
texts [] = []
texts (datagram addr (b ∷ bs) ∷ answers) = (addr, c_string (b ∷ bs)) ∷ texts answers
texts (_ ∷ answers) = texts answers

-- A run that goes on, and serves the texts as the room is to.
abbrev RunKeeps : ClientList → List Answer → Type 0
RunKeeps cl answers =
    (m : ClientList) × (out : List Effect) × (run cl answers ≡ running m out)
    × Served Answers (room cl) (texts answers) (room m) (mail out)

run-cons :
    (cl : ClientList) (a : Answer) (answers : List Answer) {m n : ClientList}
    {now later : List Effect}
    → round cl a ≡ running m now
    → run m answers ≡ running n later
    → run cl (a ∷ answers) ≡ running n (now ++ later)
unfolding run loop resume prepend
run-cons cl a answers here rest = rw (here, rest) refl

follow-IsValid :
    {cl m : ClientList} {out : List Effect} (a : Answer)
    → IsValid cl
    → round cl a ≡ running m out
    → IsValid m
follow-IsValid a v here = Change-IsValid v (rw here at (round-Change v a))

quiet-RunKeeps :
    (cl : ClientList) (a : Answer) (answers : List Answer)
    → round cl a ≡ running cl []
    → texts (a ∷ answers) ≡ texts answers
    → RunKeeps cl answers
    → RunKeeps cl (a ∷ answers)
quiet-RunKeeps cl a answers here same (m, out, rest, served) =
    (m, out, run-cons cl a answers here rest, rw same served)

-- From a valid table on, as long as `select` does not fail, and where `recvfrom` gives at most the 127
-- bytes that it is asked for, the server goes on, and what it does is what the room promises: each
-- text that arrives is served as `Serves` says, and each address is sent those datagrams, in that order.
pub run_refines :
    (cl : ClientList) (answers : List Answer)
    → IsValid cl
    → Each Arrives answers
    → (m : ClientList) × (out : List Effect) × (run cl answers ≡ running m out)
      × Served Answers (room cl) (texts answers) (room m) (mail out)
unfolding run loop round mail
run_refines cl [] v h = (cl, [], refl, silent (λ b. refl))
run_refines cl (select_error ∷ answers) v h = absurd h.0
run_refines cl (timeout ∷ answers) v h =
    quiet-RunKeeps cl timeout answers refl refl (run_refines cl answers v h.1)
run_refines cl (recv_error ∷ answers) v h =
    quiet-RunKeeps cl recv_error answers refl refl (run_refines cl answers v h.1)
run_refines cl (datagram addr [] ∷ answers) v h =
    quiet-RunKeeps cl (datagram addr []) answers refl refl (run_refines cl answers v h.1)
run_refines cl (datagram addr (b ∷ bs) ∷ answers) v h =
    let (m, now, here, serves) = datagram-Keeps v b bs addr h.0 in
    let (n, later, rest, served) =
      run_refines m answers (follow-IsValid (datagram addr (b ∷ bs)) v here) h.1 in
    (
      n,
      now ++ later,
      run-cons cl (datagram addr (b ∷ bs)) answers here rest,
      hear serves served (mail-append now later),
    )
