-- ===== src/Echo/Answers.antt =====
-- kadai2/echoserver.c and lowerechoserver.c: what a client gets back.
use excc.Common.{
  ℕ, zero, suc, ◌+◌, ◌≡◌, refl, ap, true, List, [], ◌∷◌, ◌++◌, arith, length, take, get_or, map,
  drop, sym,
}
use excc.Common.Text.{c_string, take-length-append, HasNoNul}
use excc.ChatServer.{ReadResult, failed, bytes}
use excc.ChatClient.{Effect, write, close, stored}
use excc.Echo.{
  Program, echo, lower_echo, is_upper, lower, tolower_string, convert, continue, round, ended,
  prepend, connection,
}

-- What is written for some bytes: the second server puts those before the first NUL in lower case.
abbrev pub reply : Program → List ℕ → List ℕ
reply echo text = text
reply lower_echo text = map lower (c_string text) ++ drop (length (c_string text)) text

-- A write for each `read` that gives bytes.
abbrev pub replies : Program → List (List ℕ) → List Effect
replies p [] = []
replies p (text ∷ texts) = write (reply p text) ∷ replies p texts

-- What a `read` gives that is not the end of the connection.
pub data Read : Type 0 where
  fails : Read
  gives : ℕ → List ℕ → Read

abbrev pub answer : Read → ReadResult
answer fails = failed
answer (gives b bs) = bytes (b ∷ bs)

abbrev pub texts : List Read → List (List ℕ)
texts [] = []
texts (fails ∷ rs) = texts rs
texts (gives b bs ∷ rs) = (b ∷ bs) ∷ texts rs

-- The bytes written are those read, whatever lies behind them.
take-tolower_string :
    (s m : List ℕ) → take (length s) (tolower_string (s ++ m)) ≡ reply lower_echo s
unfolding tolower_string c_string
take-tolower_string [] m = refl
take-tolower_string (zero ∷ s) m = ap (◌∷◌ 0) (take-length-append s m)
take-tolower_string (suc c ∷ s) m = ap (◌∷◌ (lower (suc c))) (take-tolower_string s m)

pub take-convert : (p : Program) (s m : List ℕ) → take (length s) (convert p (s ++ m)) ≡ reply p s
take-convert echo s m = take-length-append s m
take-convert lower_echo s m = take-tolower_string s m

connection-serving :
    (p : Program) (m : List ℕ) {next n : List ℕ} {now more : List Effect} (r : ReadResult)
    (rs : List ReadResult)
    → round p m r ≡ continue next now
    → connection p next rs ≡ ended n more
    → connection p m (r ∷ rs) ≡ ended n (now ++ more)
unfolding connection prepend
connection-serving p m r rs here rest = rw (connection, here, rest) refl

-- Up to the end of the connection, each `read` that gives bytes is answered by one `write` of as many
-- bytes, in order, and a failed `read` by none: the echo server sends the same bytes, the other one
-- puts those before the first NUL in lower case. What the buffer held before does not matter. At the
-- end an empty write is made, and the socket is closed.
pub connection-replies :
    (p : Program) (rbuf : List ℕ) (rs : List Read) (later : List ReadResult)
    → (last : List ℕ) × (connection p rbuf (map answer rs ++ bytes [] ∷ later)
        ≡ ended last (replies p (texts rs) ++ write [] ∷ close ∷ []))
unfolding connection round
connection-replies p rbuf [] later = (convert p rbuf, refl)
connection-replies p rbuf (fails ∷ rs) later =
    let (last, rest) = connection-replies p rbuf rs later in
    (last, connection-serving p rbuf failed (map answer rs ++ bytes [] ∷ later) refl rest)
connection-replies p rbuf (gives b bs ∷ rs) later =
    let memory = convert p (stored rbuf (b ∷ bs)) in
    let (last, rest) = connection-replies p memory rs later in
    (
      last,
      connection-serving p rbuf (bytes (b ∷ bs)) (map answer rs ++ bytes [] ∷ later)
          (ap (λ t. continue memory (write t ∷ [])) (take-convert p (b ∷ bs) _)) rest,
    )

get_or-tolower_string :
    (s m : List ℕ) (c : ℕ)
    → HasNoNul s
    → is_upper c ≡ true
    → get_or (tolower_string (s ++ c ∷ m)) (length s) 0 ≡ c + 32
unfolding tolower_string
get_or-tolower_string [] m zero h upper = absurd (ground arith)
get_or-tolower_string [] m (suc c) h upper = rw upper refl
get_or-tolower_string (zero ∷ s) m c h upper = absurd (omega arith)
get_or-tolower_string (suc x ∷ s) m c h upper = get_or-tolower_string s m c h.1 upper

-- Where 1024 bytes without a NUL fill the buffer, a capital letter that lies behind it in memory is
-- overwritten by the small one.
pub stray_lower :
    (rbuf m : List ℕ) (c b : ℕ) (bs : List ℕ)
    → HasNoNul (b ∷ bs)
    → stored rbuf (b ∷ bs) ≡ (b ∷ bs) ++ c ∷ m
    → length (b ∷ bs) ≡ 1024
    → is_upper c ≡ true
    → (next : List ℕ) × (out : List Effect) × (round lower_echo rbuf (bytes (b ∷ bs))
        ≡ continue next out)
      × (get_or next 1024 0 ≡ c + 32)
unfolding round
stray_lower rbuf m c b bs h behind full upper =
    (_, _, refl, rw (behind, sym full) (get_or-tolower_string (b ∷ bs) m c h upper))
