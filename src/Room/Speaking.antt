-- ===== src/Room/Speaking.antt =====
-- What the room promises when a member says something that is no question, and nothing else happens.
use mathlib.Core.Option.{Option}
use mathlib.Core.List.{append-nil}
use excc.Common.{ℕ, ◌≡◌, ap, ◌∙◌, Bool, false, List, [], ◌∷◌, ◌++◌}
use excc.Common.Text.{codes}
use excc.Room.{
  Room, Mail, member, to_member, Serves, turn_away, let_in, refuse_name, join, list, speak, Served,
  silent, hear,
}

module _ {A : Type 0} (same : A → A → Bool) (name_of : List ℕ → List ℕ) (is_list : List ℕ → Bool)
    (returned : ℕ) where
  pub speaks-mail :
      {r r' : Room A} {a : A} {text name : List ℕ} {mail : Mail A} (b : A)
      → Serves same name_of is_list returned r a text r' mail
      → r.seat a ≡ Option.some (member name)
      → is_list text ≡ false
      → mail b ≡ to_member (name ++ codes ": " ++ text) (r.seat b)
  speaks-mail b (turn_away e _ _ _) sits line = cc
  speaks-mail b (let_in e _ _ _ _) sits line = cc
  speaks-mail b (refuse_name e _ _ _ _) sits line = cc
  speaks-mail b (join e _ _ _ _) sits line = cc
  speaks-mail b (list _ _ _ asks _ _ _ _) sits line = cc
  speaks-mail {r} {text} {name} b (speak other e _ _ to_all) sits line =
      to_all b ∙ ap (λ n. to_member (n ++ codes ": " ++ text) (r.seat b)) own
    where
      own : other ≡ name
      own = cc

-- Where one thing happens, its mail is all that comes.
pub only-mail :
    {A E : Type 0} (Acts : Room A → E → Room A → Mail A → Type 0) {r r' : Room A} {e : E}
    {mail : Mail A} (P : A → List (List ℕ))
    → ((m : Room A) (now : Mail A) → Acts r e m now → (b : A) → now b ≡ P b)
    → Served Acts r (e ∷ []) r' mail
    → (b : A) → mail b ≡ P b
only-mail Acts P tells (hear {m} {now} act (silent none) both) b =
    both b ∙ ap (◌++◌ (now b)) (none b) ∙ append-nil (now b) ∙ tells _ now act b
