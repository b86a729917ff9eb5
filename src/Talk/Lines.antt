-- ===== src/Talk/Lines.antt =====
-- kadai2/simple-talk-server.c and simple-talk-client.c: what the buffer holds after a line is typed.
use excc.Common.{
  ℕ, zero, suc, ◌+◌, ◌<◌, ◌≡◌, ◌≢◌, refl, ap, ◌∙◌, false, List, [], ◌∷◌, ◌++◌, arith, length, set,
  get_or, drop, ◌==◌, length-append,
}
use excc.Common.Text.{c_string-nul, IsPlain-HasNoNul, newline, c_string, IsPlain, c_string-plain}
use excc.ChatClient.{stored}
use excc.ChatClient.{line, eof}
use excc.Talk.{Memory, fgets, strip_last, strip_newline}

-- The memory once a line has been typed that is `text` and a line feed.
abbrev pub holding : Memory → List ℕ → Memory
holding m text = record m { buffer = text ++ 0 ∷ 0 ∷ drop (length text + 2) m.buffer }

pub c_string-end : (s m : List ℕ) → IsPlain s → c_string (s ++ 0 ∷ m) ≡ s
c_string-end s m h = c_string-nul s m (IsPlain-HasNoNul s h)

get_or-end : (s m : List ℕ) (c : ℕ) → get_or (s ++ c ∷ m) (length s) 0 ≡ c
get_or-end [] m c = refl
get_or-end (x ∷ s) m c = get_or-end s m c

set-end : (s m : List ℕ) (c d : ℕ) → set (s ++ c ∷ m) (length s) d ≡ s ++ d ∷ m
set-end [] m c d = refl
set-end (x ∷ s) m c d = ap (◌∷◌ x) (set-end s m c d)

get_or-plain : (s m : List ℕ) (i : ℕ) → IsPlain s → i < length s → get_or (s ++ m) i 0 ≢ newline
get_or-plain [] m i h below = absurd (omega arith)
get_or-plain (x ∷ s) m zero h below = h.1
get_or-plain (x ∷ s) m (suc i) h below = get_or-plain s m i h.2 (omega arith)

append_two : (s m : List ℕ) (c d : ℕ) → ((s ++ c ∷ []) ++ d ∷ []) ++ m ≡ s ++ c ∷ d ∷ m
append_two [] m c d = refl
append_two (x ∷ s) m c d = ap (◌∷◌ x) (append_two s m c d)

length-append_two : (s : List ℕ) (c d : ℕ) → length ((s ++ c ∷ []) ++ d ∷ []) ≡ length s + 2
length-append_two [] c d = refl
length-append_two (x ∷ s) c d = omega (arith, length-append_two s c d)

fill :
    (text b : List ℕ)
    → stored b ((text ++ newline ∷ []) ++ 0 ∷ []) ≡ text ++ newline ∷ 0 ∷ drop (length text + 2) b
fill text b =
    ap (λ n. ((text ++ newline ∷ []) ++ 0 ∷ []) ++ drop n b) (length-append_two text newline 0)
    ∙ append_two text (drop (length text + 2) b) newline 0

pub fgets-line :
    (m : Memory) (text : List ℕ)
    → fgets m (line (text ++ newline ∷ []))
      ≡ record m { buffer = text ++ newline ∷ 0 ∷ drop (length text + 2) m.buffer }
unfolding fgets
fgets-line m text = ap (λ b. record m { buffer = b }) (fill text m.buffer)

strlen-line :
    (text rest : List ℕ)
    → IsPlain text
    → length (c_string (text ++ newline ∷ 0 ∷ rest)) ≡ suc (length text)
unfolding c_string
strlen-line text rest h =
    rw (c_string-plain text (newline ∷ 0 ∷ rest) h, length-append) (omega arith)

-- A typed line is stored without its line feed.
pub strip_newline-line :
    (m : Memory) (text : List ℕ)
    → IsPlain text
    → strip_newline (fgets m (line (text ++ newline ∷ []))) ≡ holding m text
unfolding strip_newline strip_last
strip_newline-line m text h =
    rw
      (fgets-line m text, strlen-line text (drop (length text + 2) m.buffer) h, get_or-end, set-end)
      refl

-- What is typed next is not there: the line stays.
pub strip_newline-again :
    (m : Memory) (text : List ℕ)
    → IsPlain text
    → 0 < length text
    → strip_newline (fgets (holding m text) eof) ≡ holding m text
unfolding strip_newline strip_last fgets
strip_newline-again m [] h some = absurd (omega arith)
strip_newline-again m (c ∷ s) h some =
    let rest = 0 ∷ 0 ∷ drop (length (c ∷ s) + 2) m.buffer in
    let kept : (get_or ((c ∷ s) ++ rest) (length s) 0 == newline) ≡ false =
      ground (arith, get_or-plain (c ∷ s) rest (length s) h (omega arith)) in
    rw (c_string-end (c ∷ s) (0 ∷ drop (length (c ∷ s) + 2) m.buffer) h, kept) refl
