-- ===== src/UdpClient.antt =====
-- kadai4/chatclient-udp.c: the UDP chat client after it has connected its socket. Its calls, its
-- answers from the kernel and its name line are those of the TCP client, with `write` for `send`;
-- beside them stands whether `send` succeeds, and `recv`, which gives the bytes that a datagram leaves
-- in a buffer of the given size.
pub mod Joining
pub mod Session
mod Tests
use mathlib.Core.Option.{Option}
use excc.Common.{ℕ, ◌-◌, Bool, true, false, ◌&&◌, List, [], ◌∷◌, ◌++◌, if◌then◌else◌, length, ltb}
use excc.Common.Text.{codes, c_string, str_eq}
use excc.ChatServer.{ReadResult, failed, bytes, ack_msg, username_ack_msg, max_buffer_size}
use excc.ChatClient.{
  Effect, write, print, close, Handshake, accepted, handle_error, name_line, Input, eof, line,
  Event, select_error, ready,
}

abbrev pub hello : List ℕ
hello = codes "HELLO\n"

-- The client goes on, leaves its loop, or has called `exit(EXIT_FAILURE)` in `handle_error`.
pub data Round : Type 0 where
  continue : List Effect → Round
  break : List Effect → Round
  fail : List Effect → Round

pub data Ending : Type 0 where
  running : List Effect → Ending
  returned : List Effect → Ending
  failure : List Effect → Ending

pub after : Round → Ending → Ending
after (continue out) (running more) = running (out ++ more)
after (continue out) (returned more) = returned (out ++ more)
after (continue out) (failure more) = failure (out ++ more)
after (break out) e = returned (out ++ close ∷ [])
after (fail out) e = failure (out ++ close ∷ [])

-- `send_datagram`: what it sends, and whether the client goes on.
pub send_datagram : (sent : Bool) → List ℕ → Round
send_datagram true message = continue (write message ∷ [])
send_datagram false message = fail (write message ∷ [])

pub typed : (sent : Bool) → Option Input → Round
typed sent Option.none = continue []
typed sent (Option.some eof) = continue []
typed sent (Option.some (line text)) = send_datagram sent (c_string text)

-- What is done with the bytes received: none, or those that `printf` shows up to a NUL.
pub shows : List Effect → List ℕ → Round
shows out [] = break (out ++ print (codes "Server disconnected\n") ∷ [])
shows out (b ∷ bs) = continue (out ++ print (c_string (b ∷ bs)) ∷ [])

module _ (recv : ℕ → List ℕ → List ℕ) where
  -- `receive_datagram`: the bytes received, or none where it ends in `handle_error`.
  pub receive_datagram : ReadResult → Option (List ℕ)
  receive_datagram failed = Option.none
  receive_datagram (bytes d) = Option.some (recv (max_buffer_size - 1) d)

  -- receive_datagram(...) > 0 && strcmp(buffer, expected) == 0; a failed `recv` has ended the client
  -- as a wrong answer does.
  pub is_answer : List ℕ → ReadResult → Bool
  is_answer expected r = elim (receive_datagram r) [
    | Option.none ↦ false
    | Option.some got ↦ ltb 0 (length got) && str_eq (c_string got) expected
  ]

  pub register_name : (username : List ℕ) (sent : Bool) → ReadResult → Handshake
  register_name username sent answer =
      if sent && is_answer username_ack_msg answer
      then accepted (write hello ∷ write (name_line username) ∷ [])
      else handle_error (write hello ∷ write (name_line username) ∷ close ∷ [])

  pub handshake :
      (username : List ℕ) (sent : Bool) → ReadResult → (sent' : Bool) → ReadResult → Handshake
  handshake username sent first sent' second =
      if sent && is_answer ack_msg first
      then register_name username sent' second
      else handle_error (write hello ∷ close ∷ [])

  pub heard : Option ReadResult → List Effect → Round
  heard Option.none out = continue out
  heard (Option.some r) out = elim (receive_datagram r) [
    | Option.none ↦ fail out
    | Option.some got ↦ shows out got
  ]

  -- The second part of a round is made if the first has not ended the client.
  pub then_heard : Round → Option ReadResult → Round
  then_heard (continue out) r = heard r out
  then_heard (break out) r = break out
  then_heard (fail out) r = fail out

  -- One round of the `while` in `main`.
  pub round : (sent : Bool) → Event → Round
  round sent select_error = break []
  round sent (ready input answer) = then_heard (typed sent input) answer

  -- The loop over a sequence of answers.
  pub session : List (Bool × Event) → Ending
  session [] = running []
  session ((sent, e) ∷ es) = after (round sent e) (session es)
