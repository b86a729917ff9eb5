-- ===== src/UdpClient/Session.antt =====
-- kadai4/chatclient-udp.c: what the loop sends and shows.
use mathlib.Core.Option.{Option}
use mathlib.Core.List.{append-nil}
use excc.Common.{
  ℕ, ◌≤◌, ◌≡◌, refl, ap, ◌∙◌, Bool, true, List, [], ◌∷◌, ◌++◌, length, take, take-all,
}
use excc.Common.Text.{c_string, HasNoNul, HasNoNul-append, c_string-all}
use excc.Common.Outcome.{Each}
use excc.ChatServer.{failed, bytes}
use excc.ChatClient.{Effect, write, print, Input, eof, line, Event, select_error, ready}
use excc.ChatClient.Session.{
  sent, shown, input, received, all_input, all_received, sent-append, shown-append,
}
use excc.Pipes.Hearing.{take-HasNoNul}
use excc.UdpClient.{
  continue, running, after, send_datagram, typed, receive_datagram, shows, heard, then_heard, round,
  session,
}

-- The events of the rounds.
abbrev pub events : List (Bool × Event) → List Event
events [] = []
events ((b, e) ∷ es) = e ∷ events es

-- Each `send` succeeds, nothing fails, and the datagrams are neither empty nor longer than 127 bytes;
-- there is no NUL in what is typed or received.
abbrev pub IsQuiet : Bool × Event → Type 0
IsQuiet (b, select_error) = ⊥
IsQuiet (b, ready i Option.none) = (b ≡ true) × HasNoNul (input i)
IsQuiet (b, ready i (Option.some failed)) = ⊥
IsQuiet (b, ready i (Option.some (bytes []))) = ⊥
IsQuiet (b, ready i (Option.some (bytes (c ∷ cs)))) =
    (b ≡ true) × HasNoNul (input i) × HasNoNul (c ∷ cs) × (length (c ∷ cs) ≤ 127)

-- What is typed in quiet rounds holds no NUL.
pub input-HasNoNul : (es : List (Bool × Event)) → Each IsQuiet es → HasNoNul (all_input (events es))
input-HasNoNul [] q = tt
input-HasNoNul ((b, select_error) ∷ es) q = absurd q.0
input-HasNoNul ((b, ready i Option.none) ∷ es) q =
    HasNoNul-append (input i) _ q.0.1 (input-HasNoNul es q.1)
input-HasNoNul ((b, ready i (Option.some failed)) ∷ es) q = absurd q.0
input-HasNoNul ((b, ready i (Option.some (bytes []))) ∷ es) q = absurd q.0
input-HasNoNul ((b, ready i (Option.some (bytes (c ∷ cs)))) ∷ es) q =
    HasNoNul-append (input i) _ q.0.1 (input-HasNoNul es q.1)

-- A round in which a client gets a datagram, and nothing is typed.
abbrev pub gets : List ℕ → Bool × Event
gets datagram = (true, ready Option.none (Option.some (bytes datagram)))

-- A datagram that is longer than the buffer is cut, and the rest of it is gone.
abbrev pub CutsDatagrams : (ℕ → List ℕ → List ℕ) → Type 0
CutsDatagrams recv = (n : ℕ) (d : List ℕ) → recv n d ≡ take n d

module _ (recv : ℕ → List ℕ → List ℕ) (cuts : CutsDatagrams recv) where
  abbrev Passes : Event → List Effect → Type 0
  Passes select_error out = ⊥
  Passes (ready i r) out = (sent out ≡ input i) × (shown out ≡ received r)

  typed_passes :
      (b : Bool) (i : Option Input)
      → b ≡ true
      → HasNoNul (input i)
      → (out : List Effect) × (typed b i ≡ continue out) × (sent out ≡ input i) × (shown out ≡ [])
  unfolding typed send_datagram
  typed_passes b Option.none e h = ([], refl, refl, refl)
  typed_passes b (Option.some eof) e h = ([], refl, refl, refl)
  typed_passes b (Option.some (line text)) e h =
      (write (c_string text) ∷ [], rw e, append-nil (c_string text) ∙ c_string-all text h, refl)

  round_traffic :
      (x : Bool × Event)
      → IsQuiet x
      → (out : List Effect) × (round recv x.0 x.1 ≡ continue out) × Passes x.1 out
  unfolding round then_heard heard receive_datagram shows
  round_traffic (b, select_error) q = absurd q
  round_traffic (b, ready i Option.none) q =
      let (out, e, s, t) = typed_passes b i q.0 q.1 in (out, rw e, (s, t))
  round_traffic (b, ready i (Option.some failed)) q = absurd q
  round_traffic (b, ready i (Option.some (bytes []))) q = absurd q
  round_traffic (b, ready i (Option.some (bytes (c ∷ cs)))) q =
      let (out, e, s, t) = typed_passes b i q.0 q.1 in
      let whole : recv 127 (c ∷ cs) ≡ c ∷ cs = cuts 127 (c ∷ cs) ∙ take-all 127 (c ∷ cs) q.3 in
      (
        out ++ print (c_string (c ∷ cs)) ∷ [],
        rw (e, then_heard, heard, whole),
        (
          sent-append out _ ∙ append-nil (sent out) ∙ s,
          shown-append out _ ∙ rw (t, append-nil (c_string (c ∷ cs))) (c_string-all (c ∷ cs) q.2),
        ),
      )

  -- In rounds in which nothing fails and every datagram has between 1 and 127 bytes, the client goes
  -- on. It sends all that is typed, and shows all that it receives, each in its order. (What is typed
  -- and received holds no NUL.)
  pub udp_session_passes :
      (es : List (Bool × Event))
      → Each IsQuiet es
      → (out : List Effect) × (session recv es ≡ running out)
        × (sent out ≡ all_input (events es))
        × (shown out ≡ all_received (events es))
  unfolding session after
  udp_session_passes [] q = ([], refl, refl, refl)
  udp_session_passes ((b, select_error) ∷ es) q = absurd q.0
  udp_session_passes ((b, ready i r) ∷ es) q =
      let (out, here, pass) = round_traffic (b, ready i r) q.0 in
      let (more, rest, sends, shows') = udp_session_passes es q.1 in
      (
        out ++ more,
        rw (here, rest),
        sent-append out more ∙ rw (pass.0, sends),
        shown-append out more ∙ rw (pass.1, shows'),
      )

  -- Of one datagram it shows what fits its buffer.
  pub gets-shows :
      (b : ℕ) (text : List ℕ)
      → HasNoNul (b ∷ text)
      → session recv (gets (b ∷ text) ∷ []) ≡ running (print (take 127 (b ∷ text)) ∷ [])
  unfolding session round then_heard heard receive_datagram shows typed after
  gets-shows b text plain = rw (cuts 127 (b ∷ text)) (
      ap (λ t. running (print t ∷ []))
        (c_string-all (take 127 (b ∷ text)) (take-HasNoNul 127 (b ∷ text) plain)))
