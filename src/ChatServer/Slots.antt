-- ===== src/ChatServer/Slots.antt =====
-- kadai4/chatserver.c: the loop over the slots attends to what the clients do, one after the other.
use mathlib.Core.List.{append_assoc, append-nil}
use excc.Common.{
  ℕ, zero, suc, ◌+◌, ◌≤◌, ◌<◌, ◌≡◌, ◌≢◌, refl, sym, ap, ◌∙◌, Bool, true, false, List, [], ◌∷◌, ◌++◌,
  arith, if◌then◌else◌, length,
}
use excc.Common.Text.{c_string}
use excc.ChatServer.{
  ClientInfo, ClientList, ClientStatus, none, connecting, connected, Effect, ReadResult, failed,
  bytes, client, stray_store, stored, receive_username, handle_massage,
}
use excc.ChatServer.Loop.{Ready, serve_status, serve_client, serve_clients}
use excc.ChatServer.Invariant.{IsValid}
use excc.ChatServer.Steps.{IsTidy, IsTidyFrom, tidy_behind, length-username}
use excc.ChatServer.Wire.{opens, mail, opens-append, mail-append}
use excc.Room.{Room, Mail, Event, says, leaves, Served, silent, hear}
use excc.ChatServer.Seats.{is_seated, room, AreDistinct}
use excc.ChatServer.Attending.{Acts, mail_from, Tracks, Keeps, client_disconnected-Keeps}
use excc.ChatServer.Answering.{register_client_name-Keeps, line-Keeps}

-- What a client without a name does, and what a registered one does.
abbrev pub name_event : (fd : ℕ) (stack : List ℕ) → ReadResult → Event ℕ
name_event fd stack failed = leaves fd
name_event fd stack (bytes []) = leaves fd
name_event fd stack (bytes (b ∷ bs)) = says fd (stored stack (b ∷ bs))

abbrev pub text_event : (fd : ℕ) → ReadResult → Event ℕ
text_event fd failed = leaves fd
text_event fd (bytes []) = leaves fd
text_event fd (bytes (b ∷ bs)) = says fd (c_string (b ∷ bs))

abbrev pub status_events : ClientStatus → Ready → (fd : ℕ) → List (Event ℕ)
status_events none r fd = []
status_events connecting r fd =
    if r.readable fd then name_event fd (r.stack fd) (r.received fd) ∷ [] else []
status_events connected r fd = if r.readable fd then text_event fd (r.received fd) ∷ [] else []

abbrev pub slot_events : Ready → ClientInfo → List (Event ℕ)
slot_events r c = status_events c.status r c.socket

-- What the clients in `n` slots from `i` on do.
abbrev pub loop_events : Ready → ClientList → (n i : ℕ) → List (Event ℕ)
loop_events r cl zero i = []
loop_events r cl (suc n) i = slot_events r (client cl i) ++ loop_events r cl n (suc i)

-- `read` stores no more bytes than `handle_massage` asks for.
abbrev pub IsShort : ReadResult → Type 0
IsShort failed = Unit {0}
IsShort (bytes received) = length received ≤ 127

-- What the room is to do is done for a sequence of events.
pub record Passes (cl : ClientList) (es : List (Event ℕ)) (m : ClientList) (out : List Effect)
    : Type 0 where
  pub served : Served Acts (room cl) es (room m) (mail_from cl out)
  pub tracks : Tracks cl m out
  pub valid : IsValid m
  pub distinct : AreDistinct m.clients

Served-ext :
    {r n : Room ℕ} {es : List (Event ℕ)} {later mail : Mail ℕ}
    → Served Acts r es n later
    → ((fd : ℕ) → mail fd ≡ later fd)
    → Served Acts r es n mail
Served-ext (silent quiet) e = silent (λ fd. e fd ∙ quiet fd)
Served-ext (hear act rest split) e = hear act rest (λ fd. e fd ∙ split fd)

pub Served-append :
    {r m n : Room ℕ} {es more : List (Event ℕ)} {now later mail : Mail ℕ}
    → Served Acts r es m now
    → Served Acts m more n later
    → ((fd : ℕ) → mail fd ≡ now fd ++ later fd)
    → Served Acts r (es ++ more) n mail
Served-append {later} (silent quiet) rest split =
    Served-ext rest (λ fd. split fd ∙ ap (λ x. x ++ later fd) (quiet fd))
Served-append {later} (hear {now} {later = after} act middle e) rest split =
    hear act (Served-append {mail = λ fd. after fd ++ later fd} middle rest (λ fd. refl)) (λ fd.
      split fd ∙ ap (λ x. x ++ later fd) (e fd) ∙ append_assoc (now fd) (after fd) (later fd))

Passes-append :
    {cl m n : ClientList} {es more : List (Event ℕ)} {out out' : List Effect}
    → Passes cl es m out
    → Passes m more n out'
    → Passes cl (es ++ more) n (out ++ out')
Passes-append {cl} {m} {out} {out'} p q = record {
  served = Served-append p.served q.served (λ fd.
      mail-append out out' fd (is_seated cl fd)
      ∙ ap (λ o. mail out fd (is_seated cl fd) ++ mail out' fd o) (p.tracks fd));
  tracks = λ fd.
      opens-append out out' fd (is_seated cl fd) ∙ ap (opens out' fd) (p.tracks fd) ∙ q.tracks fd;
  valid = q.valid;
  distinct = q.distinct;
}

Passes-none : {cl : ClientList} → IsValid cl → AreDistinct cl.clients → Passes cl [] cl []
unfolding opens mail
Passes-none v d = record {
  served = silent (λ fd. refl);
  tracks = λ fd. refl;
  valid = v;
  distinct = d;
}

Passes-one :
    {cl m : ClientList} {i : ℕ} {e : Event ℕ} {out : List Effect}
    → Keeps cl i e m out
    → Passes cl (e ∷ []) m out
Passes-one k = record {
  served = hear k.acts (silent {mail = λ fd. []} (λ fd. refl)) (λ fd. sym (append-nil _));
  tracks = k.tracks;
  valid = k.valid;
  distinct = k.distinct;
}

-- A handler for slot `i`, and the other slots.
abbrev Turn : ClientList → ℕ → List (Event ℕ) → ClientList × List Effect → Type 0
Turn cl i es r = Passes cl es r.0 r.1 × ((j : ℕ) → i ≢ j → client r.0 j ≡ client cl j)

Keeps-Turn :
    {cl m : ClientList} {i : ℕ} {e : Event ℕ} {out : List Effect}
    → Keeps cl i e m out
    → Turn cl i (e ∷ []) (m, out)
Keeps-Turn k = (Passes-one k, k.others)

Keeps-stray :
    {cl m : ClientList} {i : ℕ} {e : Event ℕ} {out : List Effect}
    → Keeps cl i e m out
    → Keeps cl i e m (stray_store ∷ out)
unfolding opens mail
Keeps-stray k = record {
  acts = k.acts;
  tracks = k.tracks;
  valid = k.valid;
  distinct = k.distinct;
  others = k.others;
}

module _ {cl : ClientList} (v : IsValid cl) (d : AreDistinct cl.clients) (i : ℕ)
    (inside : i < 5) where
  Turn-if :
      (b : Bool) (e : Event ℕ) (x : ClientList × List Effect)
      → (b ≡ true → Turn cl i (e ∷ []) x)
      → Turn cl i (if b then e ∷ [] else []) (if b then x else (cl, []))
  Turn-if true e x t = t refl
  Turn-if false e x t = (Passes-none v d, λ j other. refl)

  name-Turn :
      (stack : List ℕ) (r : ReadResult)
      → (client cl i).status ≡ connecting
      → IsTidy stack r
      → Turn cl i (name_event (client cl i).socket stack r ∷ []) (receive_username cl i stack r)
  unfolding receive_username
  name-Turn stack failed e t = Keeps-Turn (client_disconnected-Keeps v d i inside (ground arith))
  name-Turn stack (bytes []) e t =
      Keeps-Turn (client_disconnected-Keeps v d i inside (ground arith))
  name-Turn stack (bytes (b ∷ bs)) e t =
      rw (receive_username, t)
        (Keeps-Turn (
          register_client_name-Keeps v d i inside (stored stack (b ∷ bs)) e
            (length-username (stored stack (b ∷ bs)) t)))

  text-Turn :
      (r : ReadResult)
      → (client cl i).status ≡ connected
      → IsShort r
      → Turn cl i (text_event (client cl i).socket r ∷ []) (handle_massage cl i r)
  unfolding handle_massage
  text-Turn failed e h =
      Keeps-Turn (Keeps-stray (client_disconnected-Keeps v d i inside (ground arith)))
  text-Turn (bytes []) e h = Keeps-Turn (client_disconnected-Keeps v d i inside (ground arith))
  text-Turn (bytes (b ∷ bs)) e h = Keeps-Turn (line-Keeps v d i inside b bs e h)

  status-Turn :
      (s : ClientStatus) (r : Ready)
      → (client cl i).status ≡ s
      → IsTidyFrom r cl i
      → ((fd : ℕ) → IsShort (r.received fd))
      → Turn cl i (status_events s r (client cl i).socket) (serve_status s r cl i)
  unfolding serve_status
  status-Turn none r e t h = (Passes-none v d, λ j other. refl)
  status-Turn connecting r e t h =
      let fd = (client cl i).socket in
      Turn-if (r.readable fd) _ _
        (λ reads. name-Turn (r.stack fd) (r.received fd) e (t i (omega arith) e reads))
  status-Turn connected r e t h =
      let fd = (client cl i).socket in
      Turn-if (r.readable fd) _ _ (λ reads. text-Turn (r.received fd) e (h fd))

loop_events_cong :
    (r : Ready) (cl m : ClientList) (n i : ℕ)
    → ((j : ℕ) → i ≤ j → client m j ≡ client cl j)
    → loop_events r m n i ≡ loop_events r cl n i
loop_events_cong r cl m zero i same = refl
loop_events_cong r cl m (suc n) i same =
    ap (λ c. slot_events r c ++ loop_events r m n (suc i)) (same i (omega arith))
    ∙ ap (◌++◌ (slot_events r (client cl i)))
        (loop_events_cong r cl m n (suc i) (λ j h. same j (omega arith)))

pub serve_clients-Passes :
    (r : Ready) (n : ℕ) (cl : ClientList) (i : ℕ)
    → IsValid cl
    → AreDistinct cl.clients
    → IsTidyFrom r cl i
    → ((fd : ℕ) → IsShort (r.received fd))
    → i + n ≤ 5
    → Passes cl (loop_events r cl n i) (serve_clients r n cl i).0 (serve_clients r n cl i).1
unfolding serve_clients serve_client
serve_clients-Passes r zero cl i v d t h fits = Passes-none v d
serve_clients-Passes r (suc n) cl i v d t h fits =
    let (first, others) = status-Turn v d i (omega arith) (client cl i).status r refl t h in
    let m = (serve_client r cl i).0 in
    let rest =
      serve_clients-Passes r n m (suc i) first.valid first.distinct
        (tidy_behind v i r (omega arith) t) h (omega arith) in
    let same : loop_events r m n (suc i) ≡ loop_events r cl n (suc i) =
      loop_events_cong r cl m n (suc i) (λ j below. others j (omega arith)) in
    Passes-append first (rw same at rest)
