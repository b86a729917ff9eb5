-- ===== src/ChatClient/Answers.antt =====
-- kadai4/chatclient.c: what the client takes for the server's two answers.
use excc.Common.{
  ℕ, zero, suc, ◌+◌, ◌-◌, ◌≤◌, ◌<◌, ◌≡◌, ◌↔◌, refl, ap, ◌∙◌, Bool, true, false, List, [], ◌∷◌, ◌++◌,
  arith, if◌then◌else◌, length, length-append, set, take, drop, replicate, length-replicate,
  length-take-le,
}
use excc.Common.Text.{newline, c_string, str_eq_iff, HasNoNul}
use excc.ChatServer.{bytes, ack_msg, username_ack_msg}
use excc.ChatClient.{
  stored, is_answer, name_line, name_buffer, accepted, handle_error, register_name, handshake,
  Effect, write, close,
}

-- A buffer with a NUL behind the place of the expected text begins with that text as a C string if
-- and only if its first bytes are that text.
c_string-set :
    (n : ℕ) (m : List ℕ) → n < length m → HasNoNul (take n m) → c_string (set m n 0) ≡ take n m
unfolding c_string
c_string-set n [] h k = elim h [ ]
c_string-set zero (c ∷ m) h k = refl
c_string-set (suc n) (zero ∷ m) h k = absurd (omega arith)
c_string-set (suc n) (suc c ∷ m) h k = ap (◌∷◌ (suc c)) (c_string-set n m (omega arith) k.1)

c_string-set-eq :
    (s m : List ℕ)
    → length s < length m
    → HasNoNul s
    → c_string (set m (length s) 0) ≡ s
    → take (length s) m ≡ s
unfolding c_string
c_string-set-eq [] m h k e = refl
c_string-set-eq (x ∷ s) [] h k e = elim h [ ]
c_string-set-eq (x ∷ s) (zero ∷ m) h k e = cc
c_string-set-eq (x ∷ s) (suc c ∷ m) h k e = ground (arith, c_string-set-eq s m (omega arith) k.1)

pub is_answer_iff :
    (s m : List ℕ)
    → length s < length m
    → HasNoNul s
    → (is_answer s m ≡ true) ↔ (take (length s) m ≡ s)
unfolding is_answer
is_answer_iff s m h k = (
  (λ e. c_string-set-eq s m h k ((str_eq_iff _ _).0 e)),
  λ e. (str_eq_iff _ _).1 (c_string-set (length s) m h (rw e k) ∙ e),
)

-- Both tests must pass.
both_pass :
    (a b : Bool) (out x y : List Effect)
    → ((if a then if b then accepted out else handle_error x else handle_error y) ≡ accepted out)
      ↔ ((a ≡ true) × (b ≡ true))
both_pass true true out x y = ((λ e. (refl, refl)), λ e. refl)
both_pass true false out x y = ((λ e. cc), λ e. cc (e.1))
both_pass false b out x y = ((λ e. cc), λ e. cc (e.0))

-- The texts of the two answers are shorter than the buffer, and have no NUL.
ack-HasNoNul : HasNoNul ack_msg
ack-HasNoNul = omega arith

username_ack-HasNoNul : HasNoNul username_ack_msg
username_ack-HasNoNul = omega arith

length-name_buffer : (username : List ℕ) → length (name_buffer username) ≡ 128
unfolding name_buffer name_line
length-name_buffer username =
    let line = take 127 username ++ newline ∷ [] in
    omega (
      arith,
      length-append line (replicate (128 - length line) 0),
      length-replicate {A = ℕ} (128 - length line) 0,
      length-append (take 127 username) (newline ∷ []),
      length-take-le 127 username,
    )

length-stored-le : (buffer received : List ℕ) → length buffer ≤ length (stored buffer received)
length-stored-le buffer received = omega (
  arith,
  length-append received (drop (length received) buffer),
  length-drop (length received) buffer,
)
  where
    length-drop : (n : ℕ) (xs : List ℕ) → length xs ≤ n + length (drop n xs)
    length-drop zero xs = omega arith
    length-drop (suc n) [] = omega arith
    length-drop (suc n) (x ∷ xs) = omega (arith, length-drop n xs)

-- If both calls of `read` return bytes and `write` works, the client goes on if and only if the
-- memory of its buffer then begins with the text that it waits for, both times. It has sent its name
-- and a line feed, and shows nothing of what came behind the second text.
pub handshake_iff :
    (buffer username : List ℕ) (b c : ℕ) (bs cs : List ℕ)
    → length buffer ≡ 128
    → (handshake buffer username (bytes (b ∷ bs)) true (bytes (c ∷ cs))
        ≡ accepted (write (name_line username) ∷ []))
      ↔ ((take 17 (stored buffer (b ∷ bs)) ≡ ack_msg)
          × (take 20 (stored (name_buffer username) (c ∷ cs)) ≡ username_ack_msg))
unfolding handshake register_name
handshake_iff buffer username b c bs cs size =
    let first =
      is_answer_iff ack_msg (stored buffer (b ∷ bs))
        (omega (arith, length-stored-le buffer (b ∷ bs))) ack-HasNoNul in
    let second =
      is_answer_iff username_ack_msg (stored (name_buffer username) (c ∷ cs))
        (omega
          (arith, length-stored-le (name_buffer username) (c ∷ cs), length-name_buffer username))
        username_ack-HasNoNul in
    let both =
      both_pass (is_answer ack_msg (stored buffer (b ∷ bs)))
        (is_answer username_ack_msg (stored (name_buffer username) (c ∷ cs)))
        (write (name_line username) ∷ []) (write (name_line username) ∷ close ∷ []) (close ∷ []) in
    (
      (λ e. let (p, q) = both.0 e in (first.0 p, second.0 q)),
      λ e. both.1 (first.1 e.0, second.1 e.1),
    )
