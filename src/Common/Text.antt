-- ===== src/Common/Text.antt =====
-- C strings as lists of byte values: the part of string.h and stdio.h that the programs use. A
-- list stands for the bytes of a string up to its NUL, or for raw memory where that is said.
use Prim.Native.Char.{code}
use Prim.Native.String.{String}
use excc.Common.Tests.{◌==◌, if◌then◌else◌, Bool-cases}
use excc.Common.Lists.{length, take, drop}
use Prim.Native.Nat.{ℕ, zero, suc, ◌-◌, ◌≤◌, ◌<◌}
use mathlib.Core.Path.{◌≡◌, refl, ap, ◌∙◌}
use mathlib.Core.Logic.{◌↔◌, ◌≢◌, inl, inr}
use mathlib.Core.Bool.{Bool, true, false, ◌&&◌}
use mathlib.Core.List.{List, [], ◌∷◌, ◌++◌, append-nil}
use mathlib.Core.Option
use mathlib.Core.Option.{Option, none, some}
use native.Mathlib.Omega.{arith}

-- The bytes of an ASCII text.
abbrev pub codes : String → List ℕ
codes String.[] = []
codes (String.◌∷◌ c s) = code c ∷ codes s

abbrev pub newline : ℕ
newline = b'\n'

-- The C string that starts at the head of some memory: its bytes before the first NUL.
unfoldable pub c_string : List ℕ → List ℕ
c_string [] = []
c_string (c ∷ m) = elim c [ zero ↦ [] | suc k ↦ suc k ∷ c_string m ]

-- strcmp(a, b) == 0
unfoldable pub str_eq : List ℕ → List ℕ → Bool
str_eq [] [] = true
str_eq [] (b ∷ t) = false
str_eq (a ∷ s) [] = false
str_eq (a ∷ s) (b ∷ t) = (a == b) && str_eq s t

-- strchr(s, c) - s, with none for NULL
unfoldable pub strchr : List ℕ → ℕ → Option ℕ
strchr [] c = none
strchr (x ∷ s) c = let rest = Option.map suc (strchr s c) in if x == c then some 0 else rest

-- snprintf into a buffer of the given size: what fits before the NUL.
abbrev pub snprintf : ℕ → List ℕ → List ℕ
snprintf size s = take (size - 1) s

pub str_eq_iff : (s t : List ℕ) → (str_eq s t ≡ true) ↔ (s ≡ t)
unfolding str_eq
str_eq_iff [] [] = ((λ _. refl), λ _. refl)
str_eq_iff [] (b ∷ t) = ((λ e. cc), λ e. cc)
str_eq_iff (a ∷ s) [] = ((λ e. cc), λ e. cc)
str_eq_iff (a ∷ s) (b ∷ t) =
    ((λ e. ground (arith, (str_eq_iff s t).0)), λ e. ground (arith, (str_eq_iff s t).1))

-- Neither NUL nor line feed.
abbrev pub IsPlain : List ℕ → Type 0
IsPlain [] = Unit {0}
IsPlain (c ∷ s) = (0 < c) × (c ≢ newline) × IsPlain s

abbrev pub HasNoNul : List ℕ → Type 0
HasNoNul [] = Unit {0}
HasNoNul (c ∷ s) = (0 < c) × HasNoNul s

pub HasNoNul-append : (s t : List ℕ) → HasNoNul s → HasNoNul t → HasNoNul (s ++ t)
HasNoNul-append [] t h k = k
HasNoNul-append (c ∷ s) t h k = (h.0, HasNoNul-append s t h.1 k)

pub c_string-append : (s m : List ℕ) → HasNoNul s → c_string (s ++ m) ≡ s ++ c_string m
unfolding c_string
c_string-append [] m h = refl
c_string-append (zero ∷ s) m h = absurd (omega arith)
c_string-append (suc c ∷ s) m h = ap (◌∷◌ (suc c)) (c_string-append s m h.1)

pub c_string-all : (s : List ℕ) → HasNoNul s → c_string s ≡ s
unfolding c_string
c_string-all [] h = refl
c_string-all (zero ∷ s) h = absurd (omega arith)
c_string-all (suc c ∷ s) h = ap (◌∷◌ (suc c)) (c_string-all s h.1)

pub IsPlain-HasNoNul : (s : List ℕ) → IsPlain s → HasNoNul s
IsPlain-HasNoNul [] h = tt
IsPlain-HasNoNul (c ∷ s) h = (h.0, IsPlain-HasNoNul s h.2)

pub c_string-nul : (s m : List ℕ) → HasNoNul s → c_string (s ++ 0 ∷ m) ≡ s
unfolding c_string
c_string-nul s m h = c_string-append s (0 ∷ m) h ∙ append-nil s

drop-HasNoNul : (n : ℕ) (s : List ℕ) → HasNoNul s → HasNoNul (drop n s)
drop-HasNoNul zero s h = h
drop-HasNoNul (suc n) [] h = tt
drop-HasNoNul (suc n) (c ∷ s) h = drop-HasNoNul n s h.1

pub drop-append : (n : ℕ) (s m : List ℕ) → n ≤ length s → drop n (s ++ m) ≡ drop n s ++ m
drop-append zero s m h = refl
drop-append (suc n) [] m h = absurd (omega arith)
drop-append (suc n) (c ∷ s) m h = drop-append n s m (omega arith)

-- Bytes that are stored over a longer string: its rest is still there.
pub c_string-over :
    (text rest over : List ℕ)
    → HasNoNul text
    → HasNoNul over
    → length over ≤ length text
    → c_string (over ++ drop (length over) (text ++ 0 ∷ rest)) ≡ over ++ drop (length over) text
c_string-over text rest over h j fits =
    c_string-append over _ j
    ∙ rw
        (
          drop-append (length over) text (0 ∷ rest) fits,
          c_string-nul (drop (length over) text) rest (drop-HasNoNul (length over) text h),
        )
        refl

pub c_string-plain : (s m : List ℕ) → IsPlain s → c_string (s ++ m) ≡ s ++ c_string m
c_string-plain s m h = c_string-append s m (IsPlain-HasNoNul s h)

pub strchr-plain :
    (s m : List ℕ) → IsPlain s → strchr (s ++ newline ∷ m) newline ≡ Option.some (length s)
unfolding strchr
strchr-plain [] m h = refl
strchr-plain (c ∷ s) m h = ground (arith, strchr-plain s m h.2)

pub take-length-append : (s m : List ℕ) → take (length s) (s ++ m) ≡ s
take-length-append [] m = refl
take-length-append (c ∷ s) m = ap (◌∷◌ c) (take-length-append s m)

pub length-c_string : (m : List ℕ) → length (c_string m) ≤ length m
unfolding c_string
length-c_string [] = omega arith
length-c_string (zero ∷ m) = omega arith
length-c_string (suc k ∷ m) = omega (arith, length-c_string m)

pub str_eq-ne : (s t : List ℕ) → s ≢ t → str_eq s t ≡ false
str_eq-ne s t h = elim (Bool-cases (str_eq s t)) [
  | inl same ↦ absurd (h ((str_eq_iff s t).0 same))
  | inr other ↦ other
]
