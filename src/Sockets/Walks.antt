-- ===== src/Sockets/Walks.antt =====
-- A plan of calls that is followed up to the first one that fails.
use mathlib.Core.Option.{Option}
use excc.Common.{
  ℕ, suc, ◌<◌, ◌≡◌, ◌≢◌, refl, sym, ap, ◌∙◌, Bool, ◌&&◌, true, false, List, [], ◌∷◌, ◌++◌, arith,
  length, get_or, take,
}
use excc.Sockets.{Call, close, Setup, opened, exited, prepend, attempt}
use excc.Sockets.Clients.{resolve, or_zero}

abbrev pub is_some : Option ℕ → Bool
is_some Option.none = false
is_some (Option.some a) = true

abbrev pub all_work : List Bool → Bool
all_work [] = true
all_work (b ∷ works) = b && all_work works

-- Call `n` is the first that fails: the calls up to it have been made, then what `wrong` says, and the
-- program has exited with 1.
abbrev pub FailsAt : (wrong : Call → List Call) → List Call → List Bool → Setup → ℕ → Type 0
FailsAt wrong plan works s n =
    (n < length plan)
    × (get_or works n true ≡ false)
    × (all_work (take n works) ≡ true)
    × (s ≡ exited 1 (take (suc n) plan ++ wrong (get_or plan n close)))

-- `works` says which calls of the plan work: all, and the program has come to its loop; or not.
pub data Walks (wrong : Call → List Call) (plan : List Call) (works : List Bool) (s : Setup)
    : Type 0 where
  comes : all_work works ≡ true → s ≡ opened plan → Walks wrong plan works s
  stops : (n : ℕ) → FailsAt wrong plan works s n → Walks wrong plan works s

opened-exited : (out more : List Call) (code : ℕ) → opened out ≢ exited code more
opened-exited out more code e = ground arith

opened_inj : {out more : List Call} → opened out ≡ opened more → out ≡ more
opened_inj e = ground arith

pub Walks-none : {wrong : Call → List Call} → Walks wrong [] [] (opened [])
Walks-none = comes refl refl

pub Walks-more :
    {wrong : Call → List Call} {plan : List Call} {works : List Bool} {s : Setup} (c : Call)
    (b : Bool)
    → Walks wrong plan works s
    → Walks wrong (c ∷ plan) (b ∷ works) (attempt c b (wrong c) s)
unfolding attempt prepend
Walks-more c false w = stops 0 (omega arith, refl, refl, refl)
Walks-more c true (comes all done) = comes all (ap (prepend (c ∷ [])) done)
Walks-more c true (stops n (inside, fails, all, done)) =
    stops (suc n) (omega (arith, inside), fails, all, ap (prepend (c ∷ [])) done)

-- The same for a call that looks for an address.
pub Walks-address :
    {wrong : Call → List Call} {works : List Bool} (plan : ℕ → List Call) (next : ℕ → Setup)
    (c : Call) (o : Option ℕ)
    → Walks wrong (plan (or_zero o)) works (next (or_zero o))
    → Walks wrong (c ∷ plan (or_zero o)) (is_some o ∷ works) (resolve c o (wrong c) next)
unfolding resolve
Walks-address plan next c Option.none w = Walks-more c false w
Walks-address plan next c (Option.some a) w = Walks-more c true w

-- A program that has come to its loop has made all calls of its plan.
pub Walks-opened :
    {wrong : Call → List Call} {plan : List Call} {works : List Bool} {s : Setup} {out : List Call}
    → Walks wrong plan works s
    → s ≡ opened out
    → out ≡ plan
Walks-opened (comes all done) e = opened_inj (sym e ∙ done)
Walks-opened (stops n (inside, fails, all, done)) e = absurd (opened-exited _ _ _ (sym e ∙ done))
