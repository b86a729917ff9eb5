-- ===== src/TimedTalk/Elapsing.antt =====
-- kadai3/simple-talk-client.c: the child of `myalarm` while seconds pass.
use excc.Common.{
  ℕ, zero, suc, ◌-◌, ◌≤◌, ◌<◌, ◌≡◌, refl, ap, dec_lt, false, true, List, [], ◌∷◌, arith,
}
use excc.Alarm.{Timer}
use excc.Alarm.Timeouts.{one_child, elapse-quiet, elapse-rings, elapse-none}
use excc.Talk.{Memory}
use excc.TimedTalk.{State, elapses}

-- One child runs.
abbrev pub timed : ℕ → ℕ → Memory → State
timed pid left m = record { alarm = one_child pid left; timeout_flag = false; memory = m }

abbrev pub timer : ℕ → ℕ → List Timer
timer pid left = record { pid = pid; left = left } ∷ []

pub elapses-quiet :
    (pid left n : ℕ) → n < left → elapses n (timer pid left) ≡ (timer pid (left - n), false)
unfolding elapses
elapses-quiet pid left zero h =
    let same : left ≡ left - 0 = omega arith in ap (λ l. (timer pid l, false)) same
elapses-quiet pid left (suc n) h =
    let same : (left - 1) - n ≡ left - suc n = omega arith in
    rw (elapse-quiet pid left (omega arith), elapses-quiet pid (left - 1) n (omega arith))
      (ap (λ l. (timer pid l, false)) same)

pub elapses-none : (n : ℕ) → elapses n [] ≡ ([], false)
unfolding elapses
elapses-none zero = refl
elapses-none (suc n) = rw (elapse-none, elapses-none n) refl

pub elapses-rings : (pid left n : ℕ) → 0 < left → left ≤ n → elapses n (timer pid left) ≡ ([], true)
unfolding elapses
elapses-rings pid left zero some h = absurd (omega arith)
elapses-rings pid left (suc n) some h = elim (dec_lt 1 left) [
  | no one ↦ rw (elapse-rings pid left (omega arith), elapses-none n) refl
  | yes more ↦
      rw (elapse-quiet pid left more, elapses-rings pid (left - 1) n (omega arith) (omega arith))
        refl
]
