-- ===== src/ChatServer/Conversing.antt =====
-- kadai4/chatserver.c with kadai4/chatclient.c: from the keyboard of one client to the screen of another.
use mathlib.Core.Option.{Option}
use mathlib.Core.List.{append-nil}
use excc.Common.{ℕ, ◌≡◌, sym, ap, ◌∙◌, Bool, false, List, [], ◌∷◌, ◌++◌}
use excc.Common.Text.{codes}
use excc.Common.Outcome.{Each, calls}
use excc.ChatServer.{ClientList}
use excc.ChatServer.Loop.{Select, run}
use excc.ChatServer.Invariant.{IsValid}
use excc.ChatServer.Wire.{mail}
use excc.ChatServer.Seats.{room, is_seated, same_fd, AreDistinct}
use excc.ChatServer.Attending.{Acts, is_list, read_name}
use excc.ChatServer.Refinement.{AllWork, events, run_attends}
use excc.Room.{Room, Mail, says, member, to_member, said, Served}
use excc.Room.Speaking.{speaks-mail, only-mail}
use excc.ChatClient
use excc.ChatClient.{session, select_error}
use excc.ChatClient.Session.{IsQuiet, sent, shown, all_input, all_received, session_ends}

-- The bytes of the writes to a descriptor, as the other end reads them.
abbrev pub stream : List (List ℕ) → List ℕ
stream [] = []
stream (text ∷ texts) = text ++ stream texts

-- What the room promises when a member says something that is no question.
said-mail :
    {r r' : Room ℕ} {a : ℕ} {text name : List ℕ} {letters : Mail ℕ} (b : ℕ)
    → Served Acts r (says a text ∷ []) r' letters
    → r.seat a ≡ Option.some (member name)
    → is_list text ≡ false
    → letters b ≡ to_member (name ++ codes ": " ++ text) (r.seat b)
said-mail {r} {a} {text} {name} b served sits line =
    only-mail Acts (λ c. to_member (name ++ codes ": " ++ text) (r.seat c)) speaks served b
  where
    speaks :
        (m : Room ℕ) (now : Mail ℕ)
        → Acts r (says a text) m now
        → (c : ℕ) → now c ≡ to_member (name ++ codes ": " ++ text) (r.seat c)
    speaks m now (said s here serves) c = speaks-mail same_fd read_name is_list 0 c serves sits line

-- A quiet session.
session-IsQuiet :
    (es : List ChatClient.Event)
    → Each IsQuiet es
    → (out : List ChatClient.Effect) × (session es ≡ ChatClient.running out)
      × (sent out ≡ all_input es)
      × (shown out ≡ all_received es)
session-IsQuiet es q =
    let (out, _, goes, sends, shows, _, _) = session_ends es [] select_error q tt in
    (out, goes, sends, shows)

-- What a registered client types, all that its rounds hold, comes to the server as one text, and the run
-- of the server that serves it serves nothing else. Then every registered client, the one that typed too, if
-- it reads what is written to it, however that is cut, shows just this: the name of the one that typed, ": ",
-- and what it typed. (The table is valid, no two clients have one socket, just their descriptors are
-- open at the start, and the server's calls work as in `run_attends`: so the text has at most 127 bytes. Both sessions are quiet, without a failure, an end of
-- the connection or a NUL, and what is typed is not the question who is there.)
pub typed_is_shown :
    (is_open : ℕ → Bool) (cl : ClientList) (ss : List Select) (a b : ℕ) (name other : List ℕ)
    (speaker listener : List ChatClient.Event)
    → IsValid cl
    → AreDistinct cl.clients
    → ((fd : ℕ) → is_open fd ≡ is_seated cl fd)
    → AllWork is_open cl ss
    → (room cl).seat a ≡ Option.some (member name)
    → (room cl).seat b ≡ Option.some (member other)
    → Each IsQuiet speaker
    → Each IsQuiet listener
    → is_list (all_input speaker) ≡ false
    → events cl ss ≡ says a (all_input speaker) ∷ []
    → all_received listener ≡ stream (mail (calls (run cl ss)) b (is_open b))
    → (here there : List ChatClient.Effect) × (session speaker ≡ ChatClient.running here)
      × (sent here ≡ all_input speaker)
      × (session listener ≡ ChatClient.running there)
      × (shown there ≡ name ++ codes ": " ++ sent here)
typed_is_shown is_open cl ss a b name other speaker listener v d same works sits hears q q' line
      says_it reads =
    let (m, out, goes, served, _) = run_attends is_open cl ss v d same works in
    let (here, talks, sends, _) = session-IsQuiet speaker q in
    let (there, listens, _, shows) = session-IsQuiet listener q' in
    let written : mail (calls (run cl ss)) b (is_open b) ≡ (name ++ codes ": " ++ sent here) ∷ [] =
      ap (λ o. mail (calls o) b (is_open b)) goes
      ∙ said-mail b (rw says_it at served) sits line
      ∙ ap (to_member _) hears
      ∙ ap (λ text. (name ++ codes ": " ++ text) ∷ []) (sym sends) in
    (here, there, talks, sends, listens, shows ∙ reads ∙ ap stream written ∙ append-nil _)
