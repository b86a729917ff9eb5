-- ===== src/Echo/Serving.antt =====
-- kadai2/echoserver.c and lowerechoserver.c: what the clients get back, one after the other.
use mathlib.Core.List.{append_assoc, append-nil}
use excc.Common.{ℕ, ◌≡◌, refl, sym, ap, ◌∙◌, List, [], ◌∷◌, ◌++◌, map}
use excc.ChatServer.{bytes}
use excc.ChatClient.{Effect, write, close}
use excc.Echo.{
  Program, Accepted, nameless, named, Served, waiting, exited, crashed, before, greeting, closed,
  serve,
}
use excc.Echo.Answers.{Read, answer, texts, replies, connection-replies}

-- A client with a name, what it sends, and the end of its connection.
pub data Client : Type 0 where
  client : (h_name : List ℕ) (reads : List Read) → Client

abbrev pub accepted : Client → Accepted
accepted (client h_name reads) = named h_name (map answer reads ++ bytes [] ∷ [])

-- What the server does for each.
abbrev pub service : Program → Client → List Effect
service p (client h_name reads) =
    greeting h_name ∷ (replies p (texts reads) ++ (write [] ∷ close ∷ closed ∷ []))

abbrev pub services : Program → List Client → List Effect
services p [] = []
services p (c ∷ cs) = service p c ++ services p cs

before-append : (xs ys : List Effect) (s : Served) → before xs (before ys s) ≡ before (xs ++ ys) s
unfolding before
before-append xs ys (waiting rbuf out) = ap (waiting rbuf) (sym (append_assoc xs ys out))
before-append xs ys (exited code out) = ap (exited code) (sym (append_assoc xs ys out))
before-append xs ys (crashed out) = ap crashed (sym (append_assoc xs ys out))

before-none : (s : Served) → before [] s ≡ s
unfolding before
before-none (waiting rbuf out) = refl
before-none (exited code out) = refl
before-none (crashed out) = refl

serve-client :
    (p : Program) (rbuf : List ℕ) (c : Client) (later : List Accepted)
    → (last : List ℕ) × (serve p rbuf (accepted c ∷ later)
        ≡ before (service p c) (serve p last later))
unfolding serve
serve-client p rbuf (client h_name reads) later =
    let (last, whole) = connection-replies p rbuf reads [] in
    let out = replies p (texts reads) in
    (
      last,
      rw (serve, whole)
          (before-append (greeting h_name ∷ []) ((out ++ write [] ∷ close ∷ []) ++ closed ∷ [])
              (serve p last later)
            ∙ ap (λ o. before (greeting h_name ∷ o) (serve p last later))
                (append_assoc out (write [] ∷ close ∷ []) (closed ∷ []))),
    )

serve-clients :
    (p : Program) (rbuf : List ℕ) (cs : List Client) (later : List Accepted)
    → (last : List ℕ) × (serve p rbuf (map accepted cs ++ later)
        ≡ before (services p cs) (serve p last later))
serve-clients p rbuf [] later = (rbuf, sym (before-none (serve p rbuf later)))
serve-clients p rbuf (c ∷ cs) later =
    let (middle, first) = serve-client p rbuf c (map accepted cs ++ later) in
    let (last, rest) = serve-clients p middle cs later in
    (
      last,
      first
          ∙ ap (before (service p c)) rest
          ∙ before-append (service p c) (services p cs) (serve p last later),
    )

-- The clients are served one after the other, in the order in which they connect: each is answered as
-- if it were alone, whatever the buffer holds from those before it, and then its socket is closed. A
-- client whose address has no name ends the server: none behind it is served.
pub serve_in_turn :
    (p : Program) (rbuf : List ℕ) (cs : List Client) (later : List Accepted)
    → ((last : List ℕ) × (serve p rbuf (map accepted cs) ≡ waiting last (services p cs)))
      × (serve p rbuf (map accepted cs ++ nameless ∷ later) ≡ crashed (services p cs))
unfolding serve before
serve_in_turn p rbuf cs later =
    let (last, whole) = serve-clients p rbuf cs [] in
    let (_, broken) = serve-clients p rbuf cs (nameless ∷ later) in
    (
      (
        last,
        ap (serve p rbuf) (sym (append-nil (map accepted cs)))
            ∙ whole
            ∙ ap (waiting last) (append-nil (services p cs)),
      ),
      broken ∙ ap crashed (append-nil (services p cs)),
    )
