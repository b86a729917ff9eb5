-- ===== src/Echo/Tests.antt =====
-- kadai2/echoserver.c and lowerechoserver.c: the theorems at concrete connections.
use excc.Common.{ℕ, ◌≡◌, refl, List, [], ◌∷◌, ◌++◌, arith, map, replicate}
use excc.Common.Text.{codes}
use excc.ChatClient.{write}
use excc.Echo.{lower_echo, tolower_string, refused, nameless, waiting, crashed, serve}
use excc.Echo.Answers.{fails, gives}
use excc.Echo.Client.{prompt, shows}
use excc.Echo.Serving.{Client, client, accepted, services, serve_in_turn}
use excc.Echo.Exchange.{dialogue, dialogue-exchanges}

lowered : tolower_string (codes "Hello, World") ≡ codes "hello, world"
unfolding tolower_string
lowered = refl

-- The line and the text that come back, in the place of an earlier, longer one.
dialogue-exchanges_example :
    dialogue
      (λ text. text)
      lower_echo
      (replicate 8 0)
      (replicate 8 0)
      (codes "Hello\n" ∷ codes "Ok\n" ∷ [])
    ≡ prompt
      ∷ write (codes "Hello\n")
      ∷ shows (codes "hello\n")
      ∷ prompt
      ∷ write (codes "Ok\n")
      ∷ shows (codes "ok\n")
      ∷ []
dialogue-exchanges_example =
    dialogue-exchanges (λ text. text) lower_echo (replicate 8 0) (replicate 8 0)
      (codes "Hello\n" ∷ codes "Ok\n" ∷ []) (λ text. refl) (omega arith)

abbrev two_clients : List Client
two_clients =
    client (codes "a") (fails ∷ gives b'H' (codes "I\n") ∷ [])
    ∷ client (codes "b") (gives b'X' [] ∷ [])
    ∷ []

serve_in_turn_example :
    ((last : List ℕ) × (serve lower_echo (replicate 8 0) (map accepted two_clients)
        ≡ waiting last (services lower_echo two_clients)))
    × (serve lower_echo (replicate 8 0) (map accepted two_clients ++ nameless ∷ refused ∷ [])
        ≡ crashed (services lower_echo two_clients))
serve_in_turn_example = serve_in_turn lower_echo (replicate 8 0) two_clients (refused ∷ [])
