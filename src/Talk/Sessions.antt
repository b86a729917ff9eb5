-- ===== src/Talk/Sessions.antt =====
-- kadai2/simple-talk-server.c and simple-talk-client.c: the loop, round by round.
use excc.Common.{◌≡◌, refl, List, [], ◌∷◌, ◌++◌}
use excc.ChatClient.{Effect}
use excc.Talk.{
  break, ended, unready, prepend, Program, Memory, Event, continue, round, talking, prepend,
  session,
}

pub session-continue :
    (p : Program) (m : Memory) {next : Memory} {now : List Effect} (e : Event) (es : List Event)
    → round p m e ≡ continue next now
    → session p m (e ∷ es) ≡ prepend now (session p next es)
unfolding session
session-continue p m e es here = rw (session, here) refl

pub session-break :
    (p : Program) (m : Memory) {last : Memory} {out : List Effect} (e : Event) (es : List Event)
    → round p m e ≡ break last out
    → session p m (e ∷ es) ≡ ended last out
unfolding session
session-break p m e es here = rw (session, here) refl

pub round-unready : (p : Program) (m : Memory) → round p m unready ≡ continue m []
unfolding round
round-unready p m = refl

pub session-talking :
    (p : Program) (m : Memory) {next n : Memory} {now more : List Effect} (e : Event)
    (es : List Event)
    → round p m e ≡ continue next now
    → session p next es ≡ talking n more
    → session p m (e ∷ es) ≡ talking n (now ++ more)
unfolding session prepend
session-talking p m e es here rest = rw (session, here, rest) refl

pub session-none : (p : Program) (m : Memory) → session p m [] ≡ talking m []
unfolding session
session-none p m = refl
