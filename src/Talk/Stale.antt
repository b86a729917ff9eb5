-- ===== src/Talk/Stale.antt =====
-- kadai2/simple-talk-server.c and simple-talk-client.c: what an old line in the buffer does.
use mathlib.Core.Option.{Option}
use excc.Common.{
  ℕ, zero, suc, ◌+◌, ◌≤◌, ◌<◌, ◌≡◌, refl, false, List, [], ◌∷◌, ◌++◌, arith, length, drop,
  replicate,
}
use excc.Common.Text.{c_string-over, IsPlain-HasNoNul, codes, newline, c_string, IsPlain, HasNoNul}
use excc.ChatServer.{bytes}
use excc.ChatClient.{write, print, line, eof, stored}
use excc.Talk.{
  Program, server, client, Memory, ready, fgets, continue, peer, heard, skips, typed, round,
  talking, session,
}
use excc.Talk.Lines.{holding, c_string-end, strip_newline-again}
use excc.Talk.Sessions.{session-talking, session-none}
use excc.Talk.Rounds.{sends, typed-line}

kept_sends : (p : Program) (text : List ℕ) → 0 < length text → sends p text ≡ text ∷ []
kept_sends server [] some = absurd (omega arith)
kept_sends server (c ∷ s) some = refl
kept_sends client text some = refl

pub typed_alone :
    (p : Program) (m : Memory) (text : List ℕ)
    → IsPlain text
    → 0 < length text
    → round p m (ready (Option.some (line (text ++ newline ∷ []))) Option.none)
      ≡ continue (holding m text) (write text ∷ [])
unfolding round heard
typed_alone p m text h some = typed-line p m text Option.none h (kept_sends p text some)

again-skips :
    (p : Program) (m : Memory) (text : List ℕ)
    → IsPlain text
    → 0 < length text
    → skips p (holding m text) ≡ false
again-skips server m [] h some = absurd (omega arith)
again-skips server m (c ∷ s) h some = ground (arith, h.1)
again-skips client m text h some = refl

round-eof :
    (p : Program) (m : Memory) (text : List ℕ)
    → IsPlain text
    → 0 < length text
    → round p (holding m text) (ready (Option.some eof) Option.none)
      ≡ continue (holding m text) (write text ∷ [])
unfolding round typed heard fgets
round-eof p m text h some =
    rw
      (
        again-skips p m text h some,
        strip_newline-again m text h some,
        c_string-end text (0 ∷ drop (length text + 2) m.buffer) h,
      )
      refl

pub session-eof :
    (p : Program) (m : Memory) (text : List ℕ) (n : ℕ)
    → IsPlain text
    → 0 < length text
    → session p (holding m text) (replicate n (ready (Option.some eof) Option.none))
      ≡ talking (holding m text) (replicate n (write text))
unfolding session
session-eof p m text zero h some = refl
session-eof p m text (suc n) h some =
    session-talking p (holding m text) (ready (Option.some eof) Option.none) _
      (round-eof p m text h some) (session-eof p m text n h some)

-- Once a line has been typed, the end of the terminal's input sends it again in each round.
pub eof_repeats :
    (p : Program) (m : Memory) (text : List ℕ) (n : ℕ)
    → IsPlain text
    → 0 < length text
    → session p m (
        ready (Option.some (line (text ++ newline ∷ []))) Option.none
        ∷ replicate n (ready (Option.some eof) Option.none))
      ≡ talking (holding m text) (write text ∷ replicate n (write text))
eof_repeats p m text n h some =
    session-talking p m _ _ (typed_alone p m text h some) (session-eof p m text n h some)

round-bytes :
    (p : Program) (m : Memory) (b : ℕ) (bs : List ℕ) {shown : List ℕ}
    → c_string (stored m.buffer (b ∷ bs)) ≡ shown
    → round p m (ready Option.none (Option.some (bytes (b ∷ bs))))
      ≡ continue
          (record m { buffer = stored m.buffer (b ∷ bs) })
          (print (peer p ++ codes ": " ++ shown ++ codes "\n") ∷ [])
unfolding round heard
round-bytes p m b bs e = rw e refl

-- What arrives is stored over the line that was typed last, and not ended by a NUL: the rest of that
-- line is shown behind it, as if the other side had sent it.
pub stale_tail :
    (p : Program) (m : Memory) (text : List ℕ) (b : ℕ) (bs : List ℕ)
    → IsPlain text
    → HasNoNul (b ∷ bs)
    → length (b ∷ bs) ≤ length text
    → (n : Memory) × (session p m (
          ready (Option.some (line (text ++ newline ∷ []))) Option.none
          ∷ ready Option.none (Option.some (bytes (b ∷ bs)))
          ∷ [])
        ≡ talking n (
            write text
            ∷ print
                (peer p ++ codes ": " ++ ((b ∷ bs) ++ drop (length (b ∷ bs)) text) ++ codes "\n")
            ∷ []))
stale_tail p m text b bs h j fits =
    let rest = 0 ∷ drop (length text + 2) m.buffer in
    let some : 0 < length text = omega (arith, fits) in
    let memory = stored (text ++ 0 ∷ rest) (b ∷ bs) in
    let heard_tail =
      round-bytes p (holding m text) b bs
        (c_string-over text rest (b ∷ bs) (IsPlain-HasNoNul text h) j fits) in
    (
      record m { buffer = memory },
      session-talking p m _ _ (typed_alone p m text h some)
          (session-talking p (holding m text) _ [] heard_tail (session-none p _)),
    )
