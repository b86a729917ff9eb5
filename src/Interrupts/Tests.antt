-- ===== src/Interrupts/Tests.antt =====
-- kadai3/signal.c: the theorem at two lines, with presses of CTRL-C before both.
use excc.Common.{◌≡◌, refl, Bool, true, false, List, [], ◌∷◌, arith}
use excc.Common.Text.{codes, c_string}
use excc.Interrupts.{
  notice, echo, signal_failed, returned, exited, prepend, fgets, sigmsg, loop, main,
}
use excc.Interrupts.Echoes.{Repeats, main-Repeats}

abbrev pressed : List (List Bool)
pressed = (true ∷ true ∷ []) ∷ (true ∷ []) ∷ []

main-lines :
    main true pressed (codes "one\ntwo\n")
    ≡ returned (notice ∷ notice ∷ echo (codes "one\n") ∷ notice ∷ echo (codes "two\n") ∷ [])
unfolding main loop fgets sigmsg prepend c_string
main-lines = refl

main-failure :
    main true ((false ∷ []) ∷ []) (codes "one\n") ≡ exited 1 (notice ∷ signal_failed ∷ [])
unfolding main loop fgets sigmsg prepend c_string
main-failure = refl

main-Repeats_example : Repeats (codes "one\ntwo\n") (main true pressed (codes "one\ntwo\n"))
main-Repeats_example =
    main-Repeats pressed (codes "one\ntwo\n") ((refl, (refl, tt)), ((refl, tt), tt)) (omega arith)
