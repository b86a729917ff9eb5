-- ===== src/OneMessage/Arrival.antt =====
-- kadai3/pipe.c: what the parent shows, under any schedule.
use excc.Common.{
  ℕ, suc, ◌≤◌, ◌≡◌, refl, sym, ap, ◌∙◌, true, false, List, [], ◌∷◌, ◌++◌, length, length-append,
  take, take-all, arith,
}
use excc.Common.Text.{codes, c_string, newline, HasNoNul}
use excc.ChatClient.{stored}
use excc.Pipes.{bufsize, Who, parent, child}
use excc.Pipes.Hearing.{heard-whole}
use excc.OneMessage.{finished, Args, System, init, shows, step, run}
use excc.OneMessage.Stages.{
  content, heard, picked, Late, to_read, to_wait, over, Early, unsent, sent, told, late, turns,
  run-Early, run-Late,
}

run-append : (a : Args) (xs ys : List Who) (s : System) → run a (xs ++ ys) s ≡ run a ys (run a xs s)
unfolding run
run-append a [] ys s = refl
run-append a (who ∷ xs) ys s = run-append a xs ys (step a who s)

Late-finished :
    {a : Args} {k : ℕ} {s : System} → k ≡ 0 → Late a k s → s.parent_pc ≡ finished (shows (heard a))
Late-finished e (to_read h) = cc
Late-finished e (to_wait h) = cc
Late-finished e (over h) = refl

Early-Late : {a : Args} {k : ℕ} {s : System} → k ≡ 0 → Early a k s → (j : ℕ) × (j ≤ 2) × Late a j s
Early-Late e unsent = cc
Early-Late e (sent w) = cc
Early-Late e (told w) = cc
Early-Late e (late {k} h l) = (k, h, l)

-- Once the child has taken two steps, and after that the parent two, the parent has shown what the child
-- has written, if it could, over what its buffer held.
finishes :
    (a : Args) (before after : List Who)
    → a.reads ≡ true
    → 2 ≤ turns child before
    → 2 ≤ turns parent after
    → (run a (before ++ after) init).parent_pc ≡ finished (shows (heard a))
finishes a before after r h k =
    let (j, few, l) = Early-Late refl (run-Early 2 before r unsent h) in
    ap (λ s. s.parent_pc) (run-append a before after init)
    ∙ Late-finished refl (run-Late j after r l (omega (arith, few, k)))

heard-message :
    (a : Args)
    → a.writes ≡ true
    → HasNoNul a.message
    → length a.message ≤ 255
    → c_string (heard a) ≡ a.message
heard-message a w h small =
    let n = length a.message in
    let size : length (a.message ++ 0 ∷ []) ≤ suc n =
      omega (arith, length-append a.message (0 ∷ [])) in
    let whole : content a ≡ take (suc n) (a.message ++ 0 ∷ []) =
      picked a.writes _ _ w ∙ sym (take-all (suc n) (a.message ++ 0 ∷ []) size) in
    ap (λ m. c_string (stored a.buf (take bufsize m))) whole
    ∙ heard-whole n a.message [] a.buf h (omega arith) small

-- Once the child has taken two steps, and after that the parent two more, with whatever steps before and
-- between, the parent has shown the message of the child, whole, and has ended. The calls work, and the
-- message has at most 255 bytes and no NUL.
pub message_arrives :
    (a : Args) (before after : List Who)
    → 2 ≤ turns child before
    → 2 ≤ turns parent after
    → a.reads ≡ true
    → a.writes ≡ true
    → HasNoNul a.message
    → length a.message ≤ 255
    → (run a (before ++ after) init).parent_pc
      ≡ finished
          (codes "Message from child process: \n" ∷ (codes "\t" ++ a.message ++ newline ∷ []) ∷ [])
message_arrives a before after c p r w h small =
    finishes a before after r c p
    ∙ ap
        (λ text.
          finished
            (codes "Message from child process: \n" ∷ (codes "\t" ++ text ++ newline ∷ []) ∷ []))
        (heard-message a w h small)

-- If the child cannot write, the parent shows in its place what its buffer held, and does not exit with
-- 1.
pub stale_message :
    (a : Args) (before after : List Who)
    → 2 ≤ turns child before
    → 2 ≤ turns parent after
    → a.reads ≡ true
    → a.writes ≡ false
    → (run a (before ++ after) init).parent_pc
      ≡ finished (
          codes "Message from child process: \n"
          ∷ (codes "\t" ++ c_string a.buf ++ newline ∷ [])
          ∷ [])
stale_message a before after c p r w = finishes a before after r c p ∙ rw w refl
