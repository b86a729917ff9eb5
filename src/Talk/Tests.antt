-- ===== src/Talk/Tests.antt =====
-- kadai2/simple-talk-server.c and simple-talk-client.c: the theorems at concrete rounds.
use mathlib.Core.Option.{Option}
use excc.Common.{◌≡◌, refl, [], ◌∷◌, ◌++◌, arith, drop, replicate}
use excc.Common.Text.{codes, newline}
use excc.ChatServer.{bytes}
use excc.ChatClient.{write, print, close, line, eof}
use excc.Talk.{
  serve, named, waiting, server, client, Memory, ready, heard, round, talking, ended, session, peer,
}
use excc.Talk.Lines.{holding}
use excc.Talk.Serving.{one_line, line_passes_on}
use excc.Talk.Stale.{stale_tail}

-- An empty stack.
abbrev fresh : Memory
fresh = record { before = 0; buffer = replicate 8 0 }

-- The client's peer leaves.
left :
    session client fresh (ready Option.none (Option.some (bytes [])) ∷ [])
    ≡ ended fresh (print (codes "server disconnected\n") ∷ close ∷ [])
unfolding session round heard
left = refl

stale_tail_example :
    (n : Memory) × (session server fresh (
        ready (Option.some (line (codes "goodbye" ++ newline ∷ []))) Option.none
        ∷ ready Option.none (Option.some (bytes (codes "hi")))
        ∷ [])
      ≡ talking n (
          write (codes "goodbye")
          ∷ print
              (peer server ++ codes ": " ++ (codes "hi" ++ drop 2 (codes "goodbye")) ++ codes "\n")
          ∷ []))
stale_tail_example =
    stale_tail server fresh (codes "goodbye") b'h' (codes "i") (omega arith) (omega arith)
      (omega arith)

line_passes_on_example :
    serve fresh (
      named (codes "a") (one_line (codes "hi"))
      ∷ named (codes "b") (replicate 2 (ready (Option.some eof) Option.none))
      ∷ [])
    ≡ waiting (holding fresh (codes "hi")) (
        print (codes "[a]\n")
        ∷ write (codes "hi")
        ∷ print (codes "client disconnected\n")
        ∷ close
        ∷ print (codes "[b]\n")
        ∷ replicate 2 (write (codes "hi")))
line_passes_on_example =
    line_passes_on fresh (codes "hi") (codes "a") (codes "b") 2 (omega arith) (omega arith)
