-- ===== src/UdpServer/Conversing.antt =====
-- kadai4/chatserver-udp.c with kadai4/chatclient-udp.c: from the keyboard of one client to the screen
-- of another.
use mathlib.Core.Option.{Option}
use mathlib.Core.List.{append-nil}
use excc.Common.{ℕ, ◌≡◌, sym, ap, ◌∙◌, Bool, false, List, [], ◌∷◌, ◌++◌, map, take, arith}
use excc.Common.Text.{codes, HasNoNul, HasNoNul-append}
use excc.Common.Outcome.{Each, calls}
use excc.ChatClient
use excc.ChatClient.{print}
use excc.ChatClient.Session.{sent, shown, all_input}
use excc.Room.{Room, Mail, member, to_member, Served}
use excc.Room.Speaking.{speaks-mail, only-mail}
use excc.UdpServer.{Address, ClientList, same_addr, username}
use excc.UdpServer.Loop.{Answer, run}
use excc.UdpServer.Invariant.{IsValid}
use excc.UdpServer.Seats.{room}
use excc.UdpServer.Mail.{mail}
use excc.UdpServer.Serving.{Answers, is_list}
use excc.UdpServer.Refinement.{Arrives, texts, run_refines}
use excc.UdpClient
use excc.UdpClient.{session}
use excc.UdpClient.Session.{
  CutsDatagrams, IsQuiet, events, udp_session_passes, gets, gets-shows, input-HasNoNul,
}

-- What the room promises when a member says something that is no question.
said-mail :
    {r r' : Room Address} {a : Address} {text name : List ℕ} {letters : Mail Address} (b : Address)
    → Served Answers r ((a, text) ∷ []) r' letters
    → r.seat a ≡ Option.some (member name)
    → is_list text ≡ false
    → letters b ≡ to_member (name ++ codes ": " ++ text) (r.seat b)
said-mail {r} {a} {text} {name} b served sits line =
    only-mail Answers (λ c. to_member (name ++ codes ": " ++ text) (r.seat c)) speaks served b
  where
    speaks :
        (m : Room Address) (now : Mail Address)
        → Answers r (a, text) m now
        → (c : Address) → now c ≡ to_member (name ++ codes ": " ++ text) (r.seat c)
    speaks m now serves c = speaks-mail same_addr username is_list 1 c serves sits line

module _ (recv : ℕ → List ℕ → List ℕ) (cuts : CutsDatagrams recv) where
  -- What a client shows that gets the one message that a room sends when a member has spoken.
  shows-line :
      (name text : List ℕ)
      → HasNoNul name
      → HasNoNul text
      → session recv (gets (name ++ codes ": " ++ text) ∷ [])
        ≡ UdpClient.running (print (take 127 (name ++ codes ": " ++ text)) ∷ [])
  shows-line [] text h k = gets-shows recv cuts b':' (b' ' ∷ text) (omega arith, (omega arith, k))
  shows-line (b ∷ name) text h k = gets-shows recv cuts b (name ++ codes ": " ++ text) (
    h.0,
    HasNoNul-append (name ++ codes ": ") text (HasNoNul-append name (codes ": ") h.1 (omega arith))
        k,
  )

  -- What a registered client types, all that its rounds hold, comes to the server as one datagram, and no
  -- other text comes in the run of the server. Then every registered client that gets the datagrams to its
  -- address, each whole, shows the name of the one that typed, ": ", and what it typed, up to 127 bytes: the
  -- rest of a longer line is lost. (The table is valid, `select` does not fail, `recvfrom` gives at most
  -- 127 bytes, nothing fails in the session of the one that types, there is no NUL in the name or in
  -- what is typed, and it is not the question who is there.)
  pub udp_typed_is_shown :
      (cl : ClientList) (answers : List Answer) (a b : Address) (name other : List ℕ)
      (speaker : List (Bool × ChatClient.Event))
      → IsValid cl
      → Each Arrives answers
      → (room cl).seat a ≡ Option.some (member name)
      → (room cl).seat b ≡ Option.some (member other)
      → HasNoNul name
      → Each IsQuiet speaker
      → is_list (all_input (events speaker)) ≡ false
      → texts answers ≡ (a, all_input (events speaker)) ∷ []
      → (here there : List ChatClient.Effect) × (session recv speaker ≡ UdpClient.running here)
        × (sent here ≡ all_input (events speaker))
        × (session recv (map gets (mail (calls (run cl answers)) b)) ≡ UdpClient.running there)
        × (shown there ≡ take 127 (name ++ codes ": " ++ sent here))
  udp_typed_is_shown cl answers a b name other speaker v arrive sits hears plain q line comes =
      let (m, out, goes, served) = run_refines cl answers v arrive in
      let (here, talks, sends, _) = udp_session_passes recv cuts speaker q in
      let text = all_input (events speaker) in
      let written : mail (calls (run cl answers)) b ≡ (name ++ codes ": " ++ text) ∷ [] =
        ap (λ o. mail (calls o) b) goes
        ∙ said-mail b (rw comes at served) sits line
        ∙ ap (to_member _) hears in
      (
        here,
        print (take 127 (name ++ codes ": " ++ text)) ∷ [],
        talks,
        sends,
        ap (λ letters. session recv (map gets letters)) written
            ∙ shows-line name text plain (input-HasNoNul speaker q),
        append-nil _ ∙ ap (λ t. take 127 (name ++ codes ": " ++ t)) (sym sends),
      )
