-- ===== src/Pipes/Stages.antt =====
-- kadai3/two-way-pipe.c: how far the two processes come, under any schedule.
use excc.Common.{
  ℕ, suc, ◌≡◌, refl, ap, ◌∙◌, Bool, true, false, ◌||◌, List, [], ◌∷◌, ◌++◌, length, take, arith,
}
use excc.Common.Text.{c_string}
use excc.ChatClient.{stored}
use excc.Pipes.{
  Who, parent, child, Pc, writing, reading, shown, Args, System, init, bufsize, sends_parent,
  sends_child, receive, step, run,
}

-- It takes a step in that schedule.
abbrev pub takes_turn : Who → List Who → Bool
takes_turn who [] = false
takes_turn parent (parent ∷ schedule) = true
takes_turn parent (child ∷ schedule) = takes_turn parent schedule
takes_turn child (child ∷ schedule) = true
takes_turn child (parent ∷ schedule) = takes_turn child schedule

-- Both do.
abbrev pub BothTakeTurns : List Who → Type 0
BothTakeTurns schedule = (takes_turn parent schedule ≡ true) × (takes_turn child schedule ≡ true)

-- How far a process is.
pub data Stage : Type 0 where
  first second third : Stage

module _ (a : Args) where
  abbrev pub parent_hears : List ℕ
  parent_hears = c_string (stored a.buf (take bufsize (sends_child a)))

  abbrev pub child_hears : List ℕ
  child_hears = c_string (stored a.buf (take bufsize (sends_parent a)))

  abbrev pub sent : Stage → List ℕ → List ℕ
  sent first text = []
  sent _ text = text

  abbrev pub pc : Stage → List ℕ → Pc
  pc first text = writing
  pc second text = reading
  pc third text = shown text

  abbrev pub at_stage : Stage → Stage → System
  at_stage p c = record {
    pipe_to_parent = sent c (sends_child a);
    pipe_to_child = sent p (sends_parent a);
    parent_pc = pc p parent_hears;
    child_pc = pc c child_hears;
  }

  -- The stage of a process after a step of its own.
  abbrev pub next : Stage → Stage → Stage
  next first other = second
  next second first = second
  next second _ = third
  next third other = third

  hears :
      (n : ℕ) (text rest : List ℕ)
      → receive a (take (suc n) (text ++ 0 ∷ rest))
        ≡ shown (c_string (stored a.buf (take bufsize (take (suc n) (text ++ 0 ∷ rest)))))
  unfolding receive
  hears n [] rest = refl
  hears n (x ∷ xs) rest = refl

  parent_reads : receive a (sends_child a) ≡ shown parent_hears
  parent_reads = hears (length a.msg_to_child) a.msg_to_parent a.behind

  child_reads : receive a (sends_parent a) ≡ shown child_hears
  child_reads = hears (length a.msg_to_child) a.msg_to_child []

  step-parent : (p c : Stage) → step a parent (at_stage p c) ≡ at_stage (next p c) c
  unfolding step receive
  step-parent first c = refl
  step-parent second first = refl
  step-parent second second =
      ap (λ q. record (at_stage second second) { parent_pc = q }) parent_reads
  step-parent second third = ap (λ q. record (at_stage second third) { parent_pc = q }) parent_reads
  step-parent third c = refl

  step-child : (p c : Stage) → step a child (at_stage p c) ≡ at_stage p (next c p)
  unfolding step receive
  step-child p first = refl
  step-child first second = refl
  step-child second second = ap (λ q. record (at_stage second second) { child_pc = q }) child_reads
  step-child third second = ap (λ q. record (at_stage third second) { child_pc = q }) child_reads
  step-child p third = refl

  abbrev wrote : Stage → Bool
  wrote first = false
  wrote _ = true

  abbrev has_read : Stage → Bool
  has_read third = true
  has_read _ = false

  next-wrote : (p c : Stage) → wrote (next p c) ≡ true
  next-wrote first c = refl
  next-wrote second first = refl
  next-wrote second second = refl
  next-wrote second third = refl
  next-wrote third c = refl

  next-has_read : (p c : Stage) → wrote p ≡ true → wrote c ≡ true → has_read (next p c) ≡ true
  next-has_read first c h k = cc
  next-has_read second first h k = cc
  next-has_read second second h k = refl
  next-has_read second third h k = refl
  next-has_read third c h k = refl

  third_stage : (p : Stage) → has_read p ≡ true → p ≡ third
  third_stage third e = refl
  third_stage first e = cc
  third_stage second e = cc

  -- Once each has taken a step, both have written.
  both_write :
      (schedule : List Who) (p c : Stage)
      → (wrote p || takes_turn parent schedule) ≡ true
      → (wrote c || takes_turn child schedule) ≡ true
      → (p' c' : Stage) × (run a schedule (at_stage p c) ≡ at_stage p' c')
        × (wrote p' ≡ true)
        × (wrote c' ≡ true)
  unfolding run
  both_write [] p c h k = (p, c, refl, ground arith, ground arith)
  both_write (parent ∷ schedule) p c h k =
      let (p', c', e, f, g) = both_write schedule (next p c) c (ground (arith, next-wrote p c)) k in
      (p', c', ap (run a schedule) (step-parent p c) ∙ e, f, g)
  both_write (child ∷ schedule) p c h k =
      let (p', c', e, f, g) = both_write schedule p (next c p) h (ground (arith, next-wrote c p)) in
      (p', c', ap (run a schedule) (step-child p c) ∙ e, f, g)

  -- From then on, once each has taken a step, both have read.
  both_read :
      (schedule : List Who) (p c : Stage)
      → wrote p ≡ true
      → wrote c ≡ true
      → (has_read p || takes_turn parent schedule) ≡ true
      → (has_read c || takes_turn child schedule) ≡ true
      → run a schedule (at_stage p c) ≡ at_stage third third
  unfolding run
  both_read [] p c u v h k = rw (third_stage p (ground arith), third_stage c (ground arith)) refl
  both_read (parent ∷ schedule) p c u v h k =
      ap (run a schedule) (step-parent p c)
      ∙ both_read schedule (next p c) c (next-wrote p c) v (ground (arith, next-has_read p c u v)) k
  both_read (child ∷ schedule) p c u v h k =
      ap (run a schedule) (step-child p c)
      ∙ both_read schedule p (next c p) u (next-wrote c p) h (ground (arith, next-has_read c p v u))

  run-append : (xs ys : List Who) (s : System) → run a (xs ++ ys) s ≡ run a ys (run a xs s)
  unfolding run
  run-append [] ys s = refl
  run-append (who ∷ xs) ys s = run-append xs ys (step a who s)

  pub run-all :
      (before after : List Who)
      → BothTakeTurns before
      → BothTakeTurns after
      → run a (before ++ after) init ≡ at_stage third third
  run-all before after h k =
      let (p, c, e, f, g) = both_write before first first h.0 h.1 in
      run-append before after init
      ∙ ap (run a after) e
      ∙ both_read after p c f g (ground (arith, k.0)) (ground (arith, k.1))
