-- ===== src/ChatServer/Names.antt =====
-- kadai4/chatserver.c: what `receive_username` takes for the name. Its buffer is not initialised and
-- `read` puts no NUL behind the bytes that it stores.
use mathlib.Core.List.{append-nil}
use mathlib.Core.Option.{Option}
use mathlib.Core.List.{append_assoc}
use excc.Common.{
  zero, suc, sym, ◌≤◌, take, ℕ, ◌+◌, ◌<◌, ◌≡◌, refl, ap, ◌∙◌, List, [], ◌∷◌, ◌++◌, arith, length,
  length-append, drop, ltb, if◌then◌else◌,
}
use excc.Common.Text.{
  newline, strchr, c_string, IsPlain, c_string-plain, strchr-plain, take-length-append,
}
use excc.ChatServer.{
  ClientList, bytes, receive_username, register_client_name, stray_store, stored, username,
}

drop-length-append : (p s m : List ℕ) → length p ≡ length s → drop (length s) (p ++ m) ≡ m
drop-length-append [] [] m e = refl
drop-length-append [] (c ∷ s) m e = absurd (omega arith)
drop-length-append (b ∷ p) [] m e = absurd (omega arith)
drop-length-append (b ∷ p) (c ∷ s) m e = drop-length-append p s m (omega arith)

IsPlain-append : (s t : List ℕ) → IsPlain s → IsPlain t → IsPlain (s ++ t)
IsPlain-append [] t h k = k
IsPlain-append (c ∷ s) t h k = (h.0, h.1, IsPlain-append s t h.2 k)

-- Memory that begins with plain bytes and a line feed.
username-plain :
    (s m : List ℕ)
    → IsPlain s
    → username (s ++ newline ∷ m) ≡ (s, if ltb (length s) 16 then [] else stray_store ∷ [])
unfolding username
username-plain s m h =
    let read : c_string (s ++ newline ∷ m) ≡ s ++ newline ∷ c_string m =
      c_string-plain s (newline ∷ m) h ∙ ap (◌++◌ s) line_feed in
    rw (
      read,
      username,
      strchr-plain s (c_string m) h,
      read,
      take-length-append s (newline ∷ c_string m),
    )
  where
    line_feed : c_string (newline ∷ m) ≡ newline ∷ c_string m
    line_feed = unfold c_string in refl

-- If the bytes that arrive begin with at most 15 bytes other than NUL and line feed, and then a line
-- feed, the name is those bytes, whatever the buffer and the memory behind it held and whatever
-- follows, and nothing is stored outside the buffer.
pub username_line :
    (name rest stack : List ℕ)
    → IsPlain name
    → length name < 16
    → username (stored stack (name ++ newline ∷ rest)) ≡ (name, [])
username_line name rest stack plain short =
    rw
      (
        append_assoc name (newline ∷ rest) (drop (length (name ++ newline ∷ rest)) stack),
        username-plain name (rest ++ drop (length (name ++ newline ∷ rest)) stack) plain,
      )
      (ground arith)

-- If the bytes that arrive hold no NUL and no line feed, the name goes on with what the memory held
-- before: all of it up to its next line feed, where no NUL comes first. If the two together have
-- sixteen bytes or more, the NUL that ends the name is stored outside the buffer.
pub username_unterminated :
    (received under old rest : List ℕ)
    → IsPlain received
    → IsPlain old
    → length under ≡ length received
    → username (stored (under ++ (old ++ newline ∷ rest)) received)
      ≡ (received ++ old, if ltb (length received + length old) 16 then [] else stray_store ∷ [])
username_unterminated received under old rest plain plain' e = rw (
  drop-length-append under received (old ++ newline ∷ rest) e,
  ← append_assoc received old (newline ∷ rest),
  username-plain (received ++ old) rest (IsPlain-append received old plain plain'),
  length-append received old,
)

strchr-plain_none : (s : List ℕ) → IsPlain s → strchr s newline ≡ Option.none
unfolding strchr
strchr-plain_none [] h = refl
strchr-plain_none (c ∷ s) h = ground (arith, strchr-plain_none s h.2)

take-append : (n : ℕ) (s m : List ℕ) → n ≤ length s → take n (s ++ m) ≡ take n s
take-append zero s m h = refl
take-append (suc n) [] m h = elim h [ ]
take-append (suc n) (c ∷ s) m h = ap (◌∷◌ c) (take-append n s m (omega arith))

take-IsPlain : (n : ℕ) (s : List ℕ) → IsPlain s → IsPlain (take n s)
take-IsPlain zero s h = tt
take-IsPlain (suc n) [] h = tt
take-IsPlain (suc n) (c ∷ s) h = (h.0, h.1, take-IsPlain n s h.2)

c_string-plain_all : (s : List ℕ) → IsPlain s → c_string s ≡ s
c_string-plain_all s h =
    ap c_string (sym (append-nil s)) ∙ c_string-plain s [] h ∙ unfold c_string in append-nil s

-- Sixteen plain bytes fill the buffer. With a NUL right behind it, the first fifteen are the name.
pub username_full :
    (head under rest : List ℕ)
    → IsPlain head
    → length head ≡ 16
    → length under ≡ 16
    → username (stored (under ++ zero ∷ rest) head) ≡ (take 15 head, [])
unfolding username
username_full head under rest plain full size =
    let memory : stored (under ++ zero ∷ rest) head ≡ head ++ zero ∷ rest =
      ap (◌++◌ head) (drop-length-append under head (zero ∷ rest) (omega arith)) in
    let text : c_string (head ++ zero ∷ rest) ≡ head =
      c_string-plain head (zero ∷ rest) plain ∙ unfold c_string in append-nil head in
    let name : c_string (take 15 (head ++ zero ∷ rest)) ≡ take 15 head =
      ap c_string (take-append 15 head (zero ∷ rest) (omega arith))
      ∙ c_string-plain_all (take 15 head) (take-IsPlain 15 head plain) in
    ap username memory ∙ rw (text, username, strchr-plain_none head plain, name)

-- So the name is registered as it was sent.
pub receive_username_line :
    (cl : ClientList) (i : ℕ) (name stack : List ℕ)
    → IsPlain name
    → length name < 16
    → receive_username cl i stack (bytes (name ++ newline ∷ [])) ≡ register_client_name cl i name
unfolding receive_username
receive_username_line cl i [] stack plain short = rw (username_line [] [] stack plain short)
receive_username_line cl i (c ∷ s) stack plain short =
    rw (username_line (c ∷ s) [] stack plain short)

pub receive_username_full :
    (cl : ClientList) (i : ℕ) (head under rest : List ℕ)
    → IsPlain head
    → length head ≡ 16
    → length under ≡ 16
    → receive_username cl i (under ++ zero ∷ rest) (bytes head)
      ≡ register_client_name cl i (take 15 head)
unfolding receive_username
receive_username_full cl i [] under rest plain full size = absurd (omega arith)
receive_username_full cl i (c ∷ s) under rest plain full size =
    rw (username_full (c ∷ s) under rest plain full size)
