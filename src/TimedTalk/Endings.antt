-- ===== src/TimedTalk/Endings.antt =====
-- kadai3/simple-talk-client.c: sessions cut in two.
use mathlib.Core.List.{append_assoc}
use excc.Common.{ℕ, ◌≡◌, refl, sym, ap, ◌∙◌, List, [], ◌∷◌, ◌++◌}
use excc.ChatClient.{Effect}
use excc.TimedTalk.{
  State, Event, round, Ending, talking, ended, prepend, session, Step, continue, break,
}

pub session-end : (s : State) → session s [] ≡ talking s []
unfolding session
session-end s = refl

pub session-next :
    (s : State) (e : Event) (es : List Event) {next : State} {now : List Effect}
    → round s e ≡ continue next now
    → session s (e ∷ es) ≡ prepend now (session next es)
unfolding session
session-next s e es here = rw (session, here) refl

pub session-last :
    (s : State) (e : Event) (es : List Event) {out : List Effect}
    → round s e ≡ break out
    → session s (e ∷ es) ≡ ended out
unfolding session
session-last s e es here = rw (session, here) refl

pub session-exit :
    (s : State) (e : Event) (es : List Event) {code : ℕ} {out : List Effect}
    → round s e ≡ Step.exited code out
    → session s (e ∷ es) ≡ Ending.exited code out
unfolding session
session-exit s e es here = rw (session, here) refl

-- More events come.
resume : Ending → List Event → Ending
resume (talking s out) es = prepend out (session s es)
resume (ended out) es = ended out
resume (Ending.exited code out) es = Ending.exited code out

prepend-append :
    (xs ys : List Effect) (e : Ending) → prepend xs (prepend ys e) ≡ prepend (xs ++ ys) e
unfolding prepend
prepend-append xs ys (talking s out) = ap (talking s) (sym (append_assoc xs ys out))
prepend-append xs ys (ended out) = ap ended (sym (append_assoc xs ys out))
prepend-append xs ys (Ending.exited code out) =
    ap (Ending.exited code) (sym (append_assoc xs ys out))

prepend-none : (e : Ending) → prepend [] e ≡ e
unfolding prepend
prepend-none (talking s out) = refl
prepend-none (ended out) = refl
prepend-none (Ending.exited code out) = refl

resume-prepend :
    (out : List Effect) (e : Ending) (es : List Event)
    → prepend out (resume e es) ≡ resume (prepend out e) es
unfolding resume prepend
resume-prepend out (talking s more) es = prepend-append out more (session s es)
resume-prepend out (ended more) es = refl
resume-prepend out (Ending.exited code more) es = refl

session-step :
    (s : State) (e : Event) (es later : List Event) (r : Step)
    → round s e ≡ r
    → ((next : State) → session next (es ++ later) ≡ resume (session next es) later)
    → session s (e ∷ es ++ later) ≡ resume (session s (e ∷ es)) later
unfolding resume
session-step s e es later (continue next out) q ih =
    session-next s e (es ++ later) q
    ∙ ap (prepend out) (ih next)
    ∙ resume-prepend out (session next es) later
    ∙ sym (ap (λ x. resume x later) (session-next s e es q))
session-step s e es later (break out) q ih =
    session-last s e (es ++ later) q ∙ sym (ap (λ x. resume x later) (session-last s e es q))
session-step s e es later (Step.exited code out) q ih =
    session-exit s e (es ++ later) q ∙ sym (ap (λ x. resume x later) (session-exit s e es q))

session-resume :
    (s : State) (es later : List Event) → session s (es ++ later) ≡ resume (session s es) later
unfolding resume
session-resume s [] later =
    sym (ap (λ x. resume x later) (session-end s) ∙ prepend-none (session s later))
session-resume s (e ∷ es) later =
    session-step s e es later (round s e) refl (λ next. session-resume next es later)

pub session-append :
    (s : State) (es later : List Event) {t : State} {out : List Effect}
    → session s es ≡ talking t out
    → session s (es ++ later) ≡ prepend out (session t later)
unfolding resume
session-append s es later e = session-resume s es later ∙ ap (λ x. resume x later) e
