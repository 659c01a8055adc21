-- ===== src/Room/History.antt =====
-- Who is a member of a room, by what has happened: the calls of deprecated/room.cpp against the latest
-- of the events of each token.
use isolation_server.Common.{
  ℕ, ◌≡◌, refl, sym, ◌∙◌, ap, none, some, true, List, [], ◌∷◌, Option, Bytes, ◌==◌, ==_iff, ltb,
  leb, if◌then◌else◌, length, take, All, arith, Bool-cases, Option-cases, inl, inr, if_both,
}
use isolation_server.Common.Map
use isolation_server.Common.Map.{Map, find-insert, find-erase}
use isolation_server.Util.Words.{to_size}
use isolation_server.Room.{
  Client, Externals, World, change, posted_also, post_all, broadcast_message, start_sync_timer,
  with_handler, without_handler, enter_room, exit_room, disconnect_client, on_broadcast, Event,
  entered, exited, disconnected, received, ticked, step, steps,
}
use isolation_server.Room.Members.{applied, find-change}
use isolation_server.Room.Broadcast.{IsInside}

abbrev pub token_of : Option Client → Option ℕ
token_of none = none
token_of (some c) = some c.token

-- `tokens`: the tokens of the clients of the program, by their addresses.
abbrev pub IsNamed : (tokens : ℕ → Option ℕ) → Map Client → Type 0
IsNamed tokens clients = (a : ℕ) → token_of (Map.find a clients) ≡ tokens a

-- An entry counts where the address has a client, with a token other than 0.
abbrev pub entry : (t address : ℕ) → Option ℕ → Option ℕ → Option ℕ
entry t address none o = o
entry t address (some token) o = if ltb token 1 then o else if token == t then some address else o

-- The address under which a token stands in a room: that of its latest entry, unless it has left or
-- was disconnected since.
unfoldable pub latest : (tokens : ℕ → Option ℕ) (t : ℕ) → List Event → Option ℕ → Option ℕ
latest tokens t [] o = o
latest tokens t (entered address ∷ es) o = latest tokens t es (entry t address (tokens address) o)
latest tokens t (exited index ∷ es) o = latest tokens t es (if to_size index == t then none else o)
latest tokens t (disconnected token ∷ es) o = latest tokens t es (if token == t then none else o)
latest tokens t (received memory n ∷ es) o = latest tokens t es o
latest tokens t (ticked ∷ es) o = latest tokens t es o

absent_erased :
    (k t : ℕ) (m : Map ℕ)
    → Map.find k m ≡ none
    → Map.find t m ≡ (if k == t then none else Map.find t m)
absent_erased k t m absent = elim (Bool-cases (k == t)) [
  | inl same ↦
      let gone : Map.find t m ≡ none = rw (sym ((==_iff k t).0 same)) absent in rw (same, gone) refl
  | inr other ↦ rw other refl
]

module _ (tokens : ℕ → Option ℕ) where
  change-IsNamed :
      (f : Client → Client)
      → ((c : Client) → (f c).token ≡ c.token)
      → (address : ℕ) (clients : Map Client) → IsNamed tokens clients
      → IsNamed tokens (change address f clients)
  change-IsNamed f same address clients h a = rw (find-change f clients address a) (
      if_both (address == a) (λ o. token_of o ≡ tokens a) (applied_named (Map.find a clients) (h a))
        (h a))
    where
      applied_named :
          (o : Option Client) → token_of o ≡ tokens a → token_of (applied f o) ≡ tokens a
      applied_named none e = e
      applied_named (some c) e = rw (same c) e

  post_all-IsNamed :
      (buffer : Bytes) (members : Map ℕ) (clients : Map Client)
      → IsNamed tokens clients
      → IsNamed tokens (post_all buffer members clients)
  unfolding post_all
  post_all-IsNamed buffer [] clients h = h
  post_all-IsNamed buffer ((t, address) ∷ members) clients h =
      post_all-IsNamed buffer members _
        (change-IsNamed (posted_also buffer) (λ c. refl) address clients h)

  module _ (E : Externals) (t : ℕ) (w : World) (h : IsNamed tokens w.clients) where
    -- After an event the token stands under `o`.
    abbrev Stands : Option ℕ → World → Type 0
    Stands o w' = (Map.find t w'.room.clients ≡ o) × IsNamed tokens w'.clients

    abbrev before : Option ℕ
    before = Map.find t w.room.clients

    enter_room-Stands :
        (address : ℕ) (c : Client)
        → Stands (entry t address (some c.token) before) (enter_room E address c w).1
    unfolding enter_room
    enter_room-Stands address c = elim (Bool-cases (ltb c.token 1)) [
      | inl invalid ↦ rw invalid (refl, h)
      | inr valid ↦ rw valid (
        find-insert c.token t address w.room.clients,
        change-IsNamed (with_handler E) (λ c. refl) address w.clients h,
      )
    ]

    exit_room-Stands :
        (index : ℕ) → Stands (if to_size index == t then none else before) (exit_room E index w)
    unfolding exit_room
    exit_room-Stands index = elim (Option-cases (Map.find (to_size index) w.room.clients)) [
      | inl absent ↦
          rw (absent, exit_room) (absent_erased (to_size index) t w.room.clients absent, h)
      | inr (address, here) ↦
          rw (here, exit_room)
            (
              find-erase (to_size index) t w.room.clients,
              change-IsNamed (without_handler E) (λ c. refl) address w.clients h,
            )
    ]

    disconnect_client-Stands :
        (token : ℕ) → Stands (if token == t then none else before) (disconnect_client E token w)
    unfolding disconnect_client
    disconnect_client-Stands token = (find-erase token t w.room.clients, h)

    post_all-Stands :
        (buffer : Bytes)
        → Stands before (record w { clients = post_all buffer w.room.clients w.clients })
    post_all-Stands buffer = (refl, post_all-IsNamed buffer w.room.clients w.clients h)

    -- What one event makes of the token's entry.
    step-Stands :
        (e : Event)
        → IsInside e
        → (w' : World) × (step E e w ≡ some w') × Stands (latest tokens t (e ∷ []) before) w'
    unfolding step latest on_broadcast broadcast_message start_sync_timer
    step-Stands (entered address) inside = elim (Option-cases (Map.find address w.clients)) [
      | inl absent ↦
          let unnamed : none ≡ tokens address = rw absent at (h address) in
          (w, rw (absent, step) refl, (rw (sym unnamed) refl, h))
      | inr (c, found) ↦
          let named : some c.token ≡ tokens address = rw found at (h address) in
          let (stands, names) = enter_room-Stands address c in
          ((enter_room E address c w).1, rw (found, step) refl, (rw (sym named) stands, names))
    ]
    step-Stands (exited index) inside = (_, refl, exit_room-Stands index)
    step-Stands (disconnected token) inside = (_, refl, disconnect_client-Stands token)
    step-Stands ticked inside = (
      _,
      refl,
      if_both (ltb 0 (length w.room.broadcasting_message)) (Stands before) (post_all-Stands _)
          (refl, h),
    )
    step-Stands (received memory n) inside =
        let low : leb n (length memory) ≡ true = ground arith in
        elim (Option-cases (E.parse_broadcast_message (take n memory))) [
          | inl broken ↦ (w, rw (broken, on_broadcast, low) refl, (refl, h))
          | inr (message, parses) ↦ (
            broadcast_message E message w,
            rw (parses, on_broadcast, low) refl,
            post_all-Stands _,
          )
        ]

  latest-cons :
      (t : ℕ) (e : Event) (es : List Event) (o : Option ℕ)
      → latest tokens t (e ∷ es) o ≡ latest tokens t es (latest tokens t (e ∷ []) o)
  unfolding latest
  latest-cons t (entered address) es o = refl
  latest-cons t (exited index) es o = refl
  latest-cons t (disconnected token) es o = refl
  latest-cons t (received memory n) es o = refl
  latest-cons t ticked es o = refl

  -- Whoever enters a room, leaves it, is disconnected or sends a message with a length inside its
  -- memory, and whenever the timer ticks: every event is served, and then each token stands in the
  -- room under the address of its latest entry, unless it left or was disconnected after that; a token
  -- without any such event stands as before. The clients keep their tokens.
  pub steps-latest :
      (E : Externals) (t : ℕ) (es : List Event) (w : World)
      → IsNamed tokens w.clients
      → All IsInside es
      → (w' : World) × (steps E es w ≡ some w')
        × (Map.find t w'.room.clients ≡ latest tokens t es (Map.find t w.room.clients))
        × IsNamed tokens w'.clients
  unfolding steps latest
  steps-latest E t [] w h inside = (w, refl, refl, h)
  steps-latest E t (e ∷ es) w h inside =
      let (w1, first, (stands, h1)) = step-Stands E t w h e inside.0 in
      let (w2, rest, ends, h2) = steps-latest E t es w1 h1 inside.1 in
      (
        w2,
        rw first rest,
        ends
            ∙ ap (latest tokens t es) stands
            ∙ sym (latest-cons t e es (Map.find t w.room.clients)),
        h2,
      )
