-- ===== src/ChatServer/Wire.antt =====
-- kadai4/chatserver.c: what the calls of the server do to a descriptor. What is written while it is not
-- open reaches nobody.
use excc.Common.{
  ℕ, ◌≡◌, refl, Bool, true, false, ◌&&◌, ◌==◌, List, [], ◌∷◌, ◌++◌, arith, if◌then◌else◌,
}
use excc.ChatServer.{Effect, accept, write, close, stray_store}

-- Whether `fd` is open after the calls, `o` before.
unfoldable pub opens : List Effect → (fd : ℕ) (o : Bool) → Bool
opens [] fd o = o
opens (accept a ∷ out) fd o = opens out fd (if a == fd then true else o)
opens (close a ∷ out) fd o = opens out fd (if a == fd then false else o)
opens (write a message ∷ out) fd o = opens out fd o
opens (stray_store ∷ out) fd o = opens out fd o

-- The writes that reach it, in order.
unfoldable pub mail : List Effect → (fd : ℕ) (o : Bool) → List (List ℕ)
mail [] fd o = []
mail (accept a ∷ out) fd o = mail out fd (if a == fd then true else o)
mail (close a ∷ out) fd o = mail out fd (if a == fd then false else o)
mail (write a message ∷ out) fd o =
    let rest = mail out fd o in if (a == fd) && o then message ∷ rest else rest
mail (stray_store ∷ out) fd o = mail out fd o

pub opens-append :
    (xs ys : List Effect) (fd : ℕ) (o : Bool) → opens (xs ++ ys) fd o ≡ opens ys fd (opens xs fd o)
unfolding opens
opens-append [] ys fd o = refl
opens-append (accept a ∷ xs) ys fd o = opens-append xs ys fd _
opens-append (close a ∷ xs) ys fd o = opens-append xs ys fd _
opens-append (write a message ∷ xs) ys fd o = opens-append xs ys fd o
opens-append (stray_store ∷ xs) ys fd o = opens-append xs ys fd o

pub mail-append :
    (xs ys : List Effect) (fd : ℕ) (o : Bool)
    → mail (xs ++ ys) fd o ≡ mail xs fd o ++ mail ys fd (opens xs fd o)
unfolding mail opens
mail-append [] ys fd o = refl
mail-append (accept a ∷ xs) ys fd o = mail-append xs ys fd _
mail-append (close a ∷ xs) ys fd o = mail-append xs ys fd _
mail-append (write a message ∷ xs) ys fd o = ground (arith, mail-append xs ys fd o)
mail-append (stray_store ∷ xs) ys fd o = mail-append xs ys fd o
