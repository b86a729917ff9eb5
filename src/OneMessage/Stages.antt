-- ===== src/OneMessage/Stages.antt =====
-- kadai3/pipe.c: how far child and parent are, in the states that come up while `read` works.
use excc.Common.{
  zero, suc, ℕ, ◌-◌, ◌≤◌, arith, ℕ, ◌≡◌, refl, sym, subst, ap, ◌∙◌, Bool, true, false, List, [],
  ◌∷◌, ◌++◌, take, drop, if◌then◌else◌,
}
use excc.Common.Text.{codes}
use excc.ChatClient.{stored}
use excc.Pipes.{bufsize, Who, parent, child}
use excc.OneMessage.{
  Child, wrote, ended, Parent, reading, shown, finished, Args, System, init, has_ended, shows, send,
  receive, step, run,
}

-- What comes through the pipe, and what the buffer holds then.
abbrev pub content : Args → List ℕ
content a = if a.writes then a.message ++ 0 ∷ [] else []

abbrev pub heard : Args → List ℕ
heard a = stored a.buf (take bufsize (content a))

-- The child is behind its `write`; it has ended.
pub data HasEnded : Child → Type 0 where
  ends : (code : ℕ) (printed : List (List ℕ)) → HasEnded (ended code printed)

pub data HasTried (a : Args) : Child → Type 0 where
  has_written : a.writes ≡ true → HasTried a wrote
  is_over : {c : Child} → HasEnded c → HasTried a c

abbrev pub at_pc : List ℕ → Child → Parent → System
at_pc rest c p = record { pipe = rest; child_pc = c; parent_pc = p }

receive-message :
    (a : Args) (m : List ℕ) (o : Bool)
    → receive a (m ++ 0 ∷ []) o ≡ shown (shows (stored a.buf (take bufsize (m ++ 0 ∷ []))))
unfolding receive
receive-message a [] o = refl
receive-message a (x ∷ m) o = refl

-- A child that could not write has ended.
receive-content :
    (a : Args) (c : Child) (w : Bool)
    → a.writes ≡ w
    → HasTried a c
    → receive a (content a) (has_ended c) ≡ shown (shows (heard a))
unfolding receive
receive-content a c true e h = rw e (receive-message a a.message (has_ended c))
receive-content a c false e (has_written f) = cc
receive-content a c false e (is_over (ends code printed)) = rw e refl

-- The child behind its `write`.
abbrev trier : Args → Child
trier a = if a.writes then wrote else ended 1 (codes "pipe write." ∷ [])

pub send_lem :
    (a : Args) (w : Bool) → a.writes ≡ w → send a reading init ≡ at_pc (content a) (trier a) reading
unfolding send
send_lem a true e = rw e refl
send_lem a false e = rw e refl

pub picked {ℓ} : {A : Type ℓ} (b : Bool) (x y : A) → b ≡ true → (if b then x else y) ≡ x
picked b x y e = rw e refl

pub step-read :
    {a : Args} {c : Child}
    → a.reads ≡ true
    → HasTried a c
    → step a parent (at_pc (content a) c reading)
      ≡ at_pc (drop bufsize (content a)) c (shown (shows (heard a)))
unfolding step
step-read {a} {c} r h =
    picked a.reads _ _ r
    ∙ ap (at_pc (drop bufsize (content a)) c) (receive-content a c a.writes refl h)

-- The child has ended, and so many steps of the parent are left.
pub data Late (a : Args) : ℕ → System → Type 0 where
  to_read : {c : Child} → HasEnded c → Late a 2 (at_pc (content a) c reading)
  to_wait :
      {c : Child}
      → HasEnded c
      → Late a 1 (at_pc (drop bufsize (content a)) c (shown (shows (heard a))))
  over :
      {c : Child}
      → HasEnded c
      → Late a 0 (at_pc (drop bufsize (content a)) c (finished (shows (heard a))))

-- So many steps of the child are left; or it has ended.
pub data Early (a : Args) : ℕ → System → Type 0 where
  unsent : Early a 2 init
  sent : a.writes ≡ true → Early a 1 (at_pc (content a) wrote reading)
  told :
      a.writes ≡ true → Early a 1 (at_pc (drop bufsize (content a)) wrote (shown (shows (heard a))))
  late : {k : ℕ} {s : System} → k ≤ 2 → Late a k s → Early a 0 s

-- A step of the child.
child-Late : {a : Args} {k : ℕ} {s : System} → Late a k s → Late a k (step a child s)
unfolding step
child-Late (to_read (ends code printed)) = to_read (ends code printed)
child-Late (to_wait (ends code printed)) = to_wait (ends code printed)
child-Late (over (ends code printed)) = over (ends code printed)

-- A step of the parent.
parent-Late :
    {a : Args} {k : ℕ} {s : System} → a.reads ≡ true → Late a k s → Late a (k - 1) (step a parent s)
unfolding step
parent-Late {a} r (to_read h) = subst (Late a 1) (sym (step-read {a = a} r (is_over h))) (to_wait h)
parent-Late r (to_wait (ends code printed)) = over (ends code printed)
parent-Late r (over h) = over h

-- Fewer steps of the child are left.
abbrev Within : Args → ℕ → System → Type 0
Within a k s = (j : ℕ) × (j ≤ k) × Early a j s

tried-Within :
    (a : Args) (w : Bool) → a.writes ≡ w → Within a 1 (at_pc (content a) (trier a) reading)
tried-Within a true e =
    let here : wrote ≡ trier a = rw e refl in
    subst (λ c. Within a 1 (at_pc (content a) c reading)) here (1, omega arith, sent e)
tried-Within a false e =
    let gone : ended 1 (codes "pipe write." ∷ []) ≡ trier a = rw e refl in
    subst (λ c. Within a 1 (at_pc (content a) c reading)) gone
      (0, omega arith, late (omega arith) (to_read (ends 1 _)))

child-Early : {a : Args} {k : ℕ} {s : System} → Early a k s → Within a (k - 1) (step a child s)
unfolding step
child-Early {a} unsent =
    subst (Within a 1) (sym (send_lem a a.writes refl)) (tried-Within a a.writes refl)
child-Early (sent e) = (0, omega arith, late (omega arith) (to_read (ends 0 [])))
child-Early (told e) = (0, omega arith, late (omega arith) (to_wait (ends 0 [])))
child-Early (late h l) = (0, omega arith, late h (child-Late l))

parent-Early :
    {a : Args} {k : ℕ} {s : System} → a.reads ≡ true → Early a k s → Early a k (step a parent s)
unfolding step receive
parent-Early r unsent = rw r unsent
parent-Early {a} r (sent e) = subst (Early a 1) (sym (step-read {a = a} r (has_written e))) (told e)
parent-Early r (told e) = told e
parent-Early r (late h l) = late (omega (arith, h)) (parent-Late r l)

-- How many steps a process has in a schedule.
abbrev pub turns : Who → List Who → ℕ
turns who [] = 0
turns parent (parent ∷ schedule) = suc (turns parent schedule)
turns parent (child ∷ schedule) = turns parent schedule
turns child (child ∷ schedule) = suc (turns child schedule)
turns child (parent ∷ schedule) = turns child schedule

pub run-Early :
    {a : Args} (k : ℕ) (schedule : List Who) {s : System}
    → a.reads ≡ true
    → Early a k s
    → k ≤ turns child schedule
    → Early a 0 (run a schedule s)
unfolding run
run-Early zero [] r e h = e
run-Early (suc k) [] r e h = absurd (omega (arith, h))
run-Early k (child ∷ schedule) r e h =
    let (j, below, next) = child-Early e in run-Early j schedule r next (omega (arith, below, h))
run-Early k (parent ∷ schedule) r e h = run-Early k schedule r (parent-Early r e) h

pub run-Late :
    {a : Args} (k : ℕ) (schedule : List Who) {s : System}
    → a.reads ≡ true
    → Late a k s
    → k ≤ turns parent schedule
    → Late a 0 (run a schedule s)
unfolding run
run-Late zero [] r l h = l
run-Late (suc k) [] r l h = absurd (omega (arith, h))
run-Late k (parent ∷ schedule) r l h =
    run-Late (k - 1) schedule r (parent-Late r l) (omega (arith, h))
run-Late k (child ∷ schedule) r l h = run-Late k schedule r (child-Late l) h
