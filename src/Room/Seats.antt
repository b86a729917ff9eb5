-- ===== src/Room/Seats.antt =====
-- The table of a chat server of kadai4, seen as the seats of a room: of an entry `C` the key by which its
-- client is known, the name and the status.
use mathlib.Core.Option.{Option}
use mathlib.Core.List.{Mem, mem-cons_self, mem-cons_of_mem, eq-or-mem_of_mem-cons, not-mem-nil}
use mathlib.Core.Logic.{∥∥₁_elim}
use excc.Common.{
  ℕ, zero, suc, ◌<◌, ◌≡◌, ◌≢◌, ◌↔◌, refl, sym, ◌∙◌, inl, inr, Bool, true, false, not, ◌&&◌, List,
  [], ◌∷◌, arith, Bool-cases, if◌then◌else◌, get_or, set, length, get_or-set,
}
use excc.ChatServer.{ClientStatus, is_none, is_connected, none, connecting, connected}
use excc.Room.{Seat, waiting, member}

abbrev pub status_seat : ClientStatus → List ℕ → Option Seat
status_seat none name = Option.none
status_seat connecting name = Option.some waiting
status_seat connected name = Option.some (member name)

module _ {A C : Type 0} (key : C → A) (name_of : C → List ℕ) (status : C → ClientStatus)
    (vacant : C) (same : A → A → Bool) where
  abbrev pub used : C → Bool
  used c = not (is_none (status c))

  abbrev pub seat_of : C → Option Seat
  seat_of c = status_seat (status c) (name_of c)

  unfoldable pub seat_in : List C → A → Option Seat
  seat_in [] a = Option.none
  seat_in (c ∷ cs) a = if used c && same (key c) a then seat_of c else seat_in cs a

  -- No two entries in use have one key.
  abbrev pub AreDistinct : List C → Type 0
  AreDistinct cs =
      (i j : ℕ)
      → used (get_or cs i vacant) ≡ true
      → used (get_or cs j vacant) ≡ true
      → key (get_or cs i vacant) ≡ key (get_or cs j vacant)
      → i ≡ j

  abbrev pub Absent : List C → A → Type 0
  Absent cs a = (j : ℕ) → used (get_or cs j vacant) ≡ true → key (get_or cs j vacant) ≢ a

  pub tail-AreDistinct : (c : C) (cs : List C) → AreDistinct (c ∷ cs) → AreDistinct cs
  tail-AreDistinct c cs d i j u w e =
      let same : suc i ≡ suc j = d (suc i) (suc j) u w e in omega arith

  -- The names of the members, in the order of the slots.
  unfoldable pub names : List C → List (List ℕ)
  names [] = []
  names (c ∷ cs) = let rest = names cs in if is_connected (status c) then name_of c ∷ rest else rest

  module _ (same_iff : (a b : A) → (same a b ≡ true) ↔ (a ≡ b)) where
    pub seat_in-none : (cs : List C) (a : A) → Absent cs a → seat_in cs a ≡ Option.none
    unfolding seat_in
    seat_in-none [] a h = refl
    seat_in-none (c ∷ cs) a h =
        ground (arith, h 0, same_iff (key c) a, seat_in-none cs a (λ j. h (suc j)))

    module _ (free : status vacant ≡ none) where
      pub seat_in-at :
          (cs : List C) (j : ℕ)
          → AreDistinct cs
          → used (get_or cs j vacant) ≡ true
          → seat_in cs (key (get_or cs j vacant)) ≡ seat_of (get_or cs j vacant)
      unfolding seat_in
      seat_in-at [] j d u = ground (arith, free)
      seat_in-at (c ∷ cs) zero d u = rw (u, (same_iff (key c) (key c)).1 refl) refl
      seat_in-at (c ∷ cs) (suc j) d u =
          let a = key (get_or cs j vacant) in
          elim (Bool-cases (used c && same (key c) a)) [
            | inl here ↦
                let first : 0 ≡ suc j =
                  d 0 (suc j) (ground arith) u ((same_iff (key c) a).0 (ground arith)) in
                absurd (omega arith)
            | inr other ↦ rw other (seat_in-at cs j (tail-AreDistinct c cs d) u)
          ]

      -- Who sits somewhere has an entry.
      pub seat_in-some :
          (cs : List C) (a : A) (s : Seat)
          → seat_in cs a ≡ Option.some s
          → (j : ℕ) × (j < length cs)
            × (used (get_or cs j vacant) ≡ true)
            × (key (get_or cs j vacant) ≡ a)
      unfolding seat_in
      seat_in-some [] a s e = cc
      seat_in-some (c ∷ cs) a s e = elim (Bool-cases (used c && same (key c) a)) [
        | inl here ↦ (0, omega arith, ground arith, (same_iff (key c) a).0 (ground arith))
        | inr other ↦
            let (j, inside, u, same_key) = seat_in-some cs a s (rw other at e) in
            (suc j, omega (arith, inside), u, same_key)
      ]

      -- No entry in use has a key that has no seat.
      pub seat_in-Absent :
          (cs : List C) (a : A) → AreDistinct cs → seat_in cs a ≡ Option.none → Absent cs a
      seat_in-Absent cs a d e j u same_key =
          let there = seat_in-at cs j d u in
          let here : seat_in cs (key (get_or cs j vacant)) ≡ Option.none = rw same_key e in
          ground (arith, there, here)

      mem-names :
          (cs : List C) (name : List ℕ)
          → Mem name (names cs)
          → ∥ (
              (j : ℕ) × (status (get_or cs j vacant) ≡ connected)
              × (name_of (get_or cs j vacant) ≡ name)) ∥₁
      unfolding names
      mem-names [] name h = absurd (not-mem-nil h)
      mem-names (c ∷ cs) name h = elim (Bool-cases (is_connected (status c))) [
        | inl here ↦ ∥∥₁_elim (eq-or-mem_of_mem-cons (rw here at h)) (hlevel) (λ o. elim o [
          | inl same_name ↦ ∣ (0, ground arith, sym same_name) ∣₁
          | inr later ↦ behind (mem-names cs name later)
        ])
        | inr other ↦ behind (mem-names cs name (rw other at h))
      ]
        where
          behind :
              ∥ (
                (j : ℕ) × (status (get_or cs j vacant) ≡ connected)
                × (name_of (get_or cs j vacant) ≡ name)) ∥₁
              → ∥ (
                  (j : ℕ) × (status (get_or (c ∷ cs) j vacant) ≡ connected)
                  × (name_of (get_or (c ∷ cs) j vacant) ≡ name)) ∥₁
          behind t = ∥∥₁_elim t (hlevel) (λ p. ∣ (suc p.0, p.1, p.2) ∣₁)

      pub names-Taken :
          (cs : List C) (name : List ℕ)
          → AreDistinct cs
          → Mem name (names cs)
          → ∥ ((b : A) × (seat_in cs b ≡ Option.some (member name))) ∥₁
      names-Taken cs name d h = ∥∥₁_elim (mem-names cs name h) (hlevel) (λ p.
          let (j, there, same_name) = p in
          ∣ (
            key (get_or cs j vacant),
            seat_in-at cs j d (ground arith) ∙ rw (there, same_name) refl,
          ) ∣₁)

    -- One entry in use is set free.
    pub seat_in-free :
        (cs : List C) (i : ℕ) (c : C)
        → i < length cs
        → used c ≡ false
        → used (get_or cs i vacant) ≡ true
        → AreDistinct cs
        → (b : A)
        → seat_in (set cs i c) b
          ≡ (if same (key (get_or cs i vacant)) b then Option.none else seat_in cs b)
    unfolding seat_in
    seat_in-free [] i c h gone u d b = absurd (omega arith)
    seat_in-free (x ∷ cs) zero c h gone u d b = elim (Bool-cases (same (key x) b)) [
      | inl equal ↦
          let behind : seat_in cs b ≡ Option.none = seat_in-none cs b (λ j w e.
            let first : 0 ≡ suc j = d 0 (suc j) u w ((same_iff (key x) b).0 equal ∙ sym e) in
            omega arith) in
          ground (arith, behind)
      | inr apart ↦ ground arith
    ]
    seat_in-free (x ∷ cs) (suc i) c h gone u d b =
        let rest = seat_in-free cs i c (omega arith) gone u (tail-AreDistinct x cs d) b in
        let k = key (get_or cs i vacant) in
        elim (Bool-cases (used x && same (key x) b)) [
          | inl here ↦
              let other : same k b ≡ true → ⊥ = λ e.
                let first : 0 ≡ suc i =
                  d 0 (suc i) (ground arith) u
                    ((same_iff (key x) b).0 (ground arith) ∙ sym ((same_iff k b).0 e)) in
                omega arith in
              ground (arith, other)
          | inr past ↦ ground (arith, rest)
        ]

    -- What is set in the table is distinct from the others in use, if it is in use itself.
    pub AreDistinct-set :
        (cs : List C) (i : ℕ) (c : C)
        → i < length cs
        → AreDistinct cs
        → ((j : ℕ)
            → i ≢ j
            → used c ≡ true
            → used (get_or cs j vacant) ≡ true
            → key (get_or cs j vacant) ≢ key c)
        → AreDistinct (set cs i c)
    AreDistinct-set cs i c h d others j k = ground (
      arith,
      get_or-set cs i j c vacant h,
      get_or-set cs i k c vacant h,
      others j,
      others k,
      d j k,
    )

    -- One entry is replaced by one with the same key, or a free one by one with a new key.
    pub seat_in-set :
        (cs : List C) (i : ℕ) (c : C)
        → i < length cs
        → (used (get_or cs i vacant) ≡ true → key (get_or cs i vacant) ≡ key c)
        → ((j : ℕ) → i ≢ j → used (get_or cs j vacant) ≡ true → key (get_or cs j vacant) ≢ key c)
        → (b : A) → seat_in (set cs i c) b ≡ (if same (key c) b then seat_of c else seat_in cs b)
    unfolding seat_in
    seat_in-set [] i c h own others b = absurd (omega arith)
    seat_in-set (x ∷ cs) zero c h own others b = elim (Bool-cases (same (key c) b)) [
      | inl equal ↦
          let behind : seat_in cs b ≡ Option.none = seat_in-none cs b (λ j u e.
            others (suc j) (λ q. omega arith) u (e ∙ sym ((same_iff (key c) b).0 equal))) in
          ground (arith, behind)
      | inr apart ↦ ground (arith, own)
    ]
    seat_in-set (x ∷ cs) (suc i) c h own others b = ground (
      arith,
      seat_in-set cs i c (omega arith) own (λ j e. others (suc j) (λ q. e (omega arith))) b,
      others 0 (λ q. omega arith),
      same_iff (key c) b,
      same_iff (key x) b,
    )

  pub Taken-names :
      (cs : List C) (name : List ℕ) (b : A)
      → seat_in cs b ≡ Option.some (member name)
      → Mem name (names cs)
  unfolding seat_in names
  Taken-names [] name b e = cc
  Taken-names (c ∷ cs) name b e = elim (Bool-cases (used c && same (key c) b)) [
    | inl here ↦
        let own : seat_of c ≡ Option.some (member name) = rw here at e in
        elim (Bool-cases (is_connected (status c))) [
          | inl up ↦
              let same_name : name_of c ≡ name = ground arith in rw (up, same_name) mem-cons_self
          | inr down ↦ absurd (ground arith)
        ]
    | inr other ↦
        let there = Taken-names cs name b (rw other at e) in
        elim (Bool-cases (is_connected (status c))) [
          | inl up ↦ rw up (mem-cons_of_mem (name_of c) there)
          | inr down ↦ rw down there
        ]
  ]
