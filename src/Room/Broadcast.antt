-- ===== src/Room/Broadcast.antt =====
-- The messages of a room: who gets a broadcast, after any calls that the room gets.
use isolation_server.Common.{
  ℕ, ◌≤◌, ◌≡◌, refl, sym, ◌∙◌, Bool, true, false, List, [], ◌∷◌, none, some, Bytes, ◌==◌, ==_iff,
  leb, if◌then◌else◌, length, take, All, arith, Bool-cases, Option-cases, inl, inr,
}
use isolation_server.Common.Map
use isolation_server.Common.Map.{Map}
use isolation_server.Room.{
  Client, Externals, World, change, posted_also, packet, post_all, broadcast_message, on_broadcast,
  Event, entered, exited, disconnected, received, ticked, step, steps,
}
use isolation_server.Room.Members.{
  IsAbove, IsSorted, IsClient, IsRoom, find-change, change-IsClient, broadcast_message-IsRoom,
  start_sync_timer-IsRoom, enter_room-IsRoom, exit_room-IsRoom, disconnect_client-IsRoom,
}

-- Whether the members have an address under a token.
abbrev pub has : (token address : ℕ) → Map ℕ → Bool
has token address members = elim (Map.find token members) [ none ↦ false | some a ↦ a == address ]

find-IsAbove : (k j : ℕ) (m : Map ℕ) → j ≤ k → IsAbove k m → Map.find j m ≡ none
unfolding Map.find
find-IsAbove k j [] h above = refl
find-IsAbove k j ((i, a) ∷ m) h above = ground (arith, find-IsAbove k j m h above.1)

-- Each entry is a client of the program, under its own token.
abbrev Own : Map ℕ → Map Client → Type 0
Own members clients =
    (token address : ℕ) → Map.find token members ≡ some address → IsClient clients address token

module _ (t b : ℕ) (m : Map ℕ) where
  has_first : (token a : ℕ) → (t == token) ≡ true → has token a ((t, b) ∷ m) ≡ (b == a)
  unfolding Map.find
  has_first token a same = rw (has, same) refl

  has_later : (token a : ℕ) → (t == token) ≡ false → has token a ((t, b) ∷ m) ≡ has token a m
  unfolding Map.find
  has_later token a other = rw (has, other) refl

  has_gone : (token a : ℕ) → IsAbove t m → (t == token) ≡ true → has token a m ≡ false
  has_gone token a above same =
      rw (has, find-IsAbove t token m (ground (arith, ==_iff t token)) above) refl

  -- The members behind the first are the only ones at other addresses.
  has_other :
      (token a : ℕ) → IsAbove t m → (b == a) ≡ false → has token a ((t, b) ∷ m) ≡ has token a m
  has_other token a above other = elim (Bool-cases (t == token)) [
    | inl same ↦ has_first token a same ∙ other ∙ sym (has_gone token a above same)
    | inr different ↦ has_later token a different
  ]

-- The client at the address of the first entry has its token.
first_token :
    (t b : ℕ) (m : Map ℕ) (clients : Map Client) (a : ℕ) (c : Client)
    → Own ((t, b) ∷ m) clients
    → Map.find a clients ≡ some c
    → (b == a) ≡ true
    → (t == c.token) ≡ true
unfolding Map.find
first_token t b m clients a c own found same =
    let (d, there, token) = own t b (ground (arith, ==_iff t t)) in
    let e : some d ≡ some c = ground (arith, ==_iff b a, there, found) in
    ground (arith, e, token, ==_iff t c.token)

module _ (buffer : Bytes) where
  rest-Own :
      (t b : ℕ) (m : Map ℕ) (clients : Map Client)
      → IsAbove t m
      → Own ((t, b) ∷ m) clients
      → Own m (change b (posted_also buffer) clients)
  unfolding Map.find
  rest-Own t b m clients above own token address found =
      change-IsClient (posted_also buffer) (λ c. refl) clients b address token
        (own token address (elim (Bool-cases (t == token)) [
          | inl same ↦
              let gone : Map.find token m ≡ none =
                find-IsAbove t token m (ground (arith, ==_iff t token)) above in
              absurd (ground (arith, gone, found))
          | inr other ↦ rw other found
        ]))

  abbrev Posted : (a : ℕ) → Client → Map ℕ → Map Client → Type 0
  Posted a c members clients =
      Map.find a (post_all buffer members clients)
      ≡ some (if has c.token a members then posted_also buffer c else c)

  post_all-Posted :
      (members : Map ℕ) (clients : Map Client) (a : ℕ) (c : Client)
      → IsSorted members
      → Own members clients
      → Map.find a clients ≡ some c
      → Posted a c members clients
  unfolding post_all Map.find
  post_all-Posted [] clients a c sorted own found = found
  post_all-Posted ((t, b) ∷ m) clients a c sorted own found =
      let rest = rest-Own t b m clients sorted.0 own in
      elim (Bool-cases (b == a)) [
        | inl same ↦
            let here : (t == c.token) ≡ true = first_token t b m clients a c own found same in
            rw (has_first t b m c.token a here, same)
              (post_all-Posted m _ a (posted_also buffer c) sorted.1 rest
                  (find-change (posted_also buffer) clients b a ∙ rw (same, found) refl)
                ∙ rw (has_gone t b m c.token a sorted.0 here) refl)
        | inr other ↦ rw (has_other t b m c.token a sorted.0 other) (
            post_all-Posted m _ a c sorted.1 rest
              (find-change (posted_also buffer) clients b a ∙ rw (other, found) refl))
      ]

module _ (E : Externals) (w : World) (h : IsRoom w) where
  -- In a room that satisfies the invariant, for a pointer and a length inside the memory, and a
  -- message that parses: the handler of EnterRoom ends, every client that is a member of the room
  -- has got one packet with the message, no other client has got any, and the room is as it was.
  pub on_broadcast-Posted :
      (memory : Bytes) (n : ℕ) (message : Bytes)
      → n ≤ length memory
      → E.parse_broadcast_message (take n memory) ≡ some message
      → (w' : World) × (on_broadcast E memory n w ≡ some w')
        × (w'.room ≡ w.room)
        × ((a : ℕ) (c : Client)
            → Map.find a w.clients ≡ some c
            → Map.find a w'.clients
              ≡ some (
                  if has c.token a w.room.clients
                  then posted_also (packet E.response_broadcasting_message message) c
                  else c))
  unfolding on_broadcast broadcast_message
  on_broadcast-Posted memory n message inside parses =
      let low : leb n (length memory) ≡ true = ground arith in
      (
        broadcast_message E message w,
        rw (parses, on_broadcast, low) refl,
        refl,
        λ a c found. post_all-Posted _ w.room.clients w.clients a c h.sorted h.members found,
      )

-- The lengths of the messages stay inside the memory.
abbrev pub IsInside : Event → Type 0
IsInside (received memory n) = n ≤ length memory
IsInside _ = Unit

module _ (E : Externals) where
  step-IsRoom :
      (e : Event) (w : World)
      → IsRoom w
      → IsInside e
      → (w' : World) × (step E e w ≡ some w') × IsRoom w'
  unfolding step on_broadcast
  step-IsRoom (entered address) w h inside = elim (Option-cases (Map.find address w.clients)) [
    | inl absent ↦ (w, rw (absent, step) refl, h)
    | inr (c, found) ↦ (_, rw (found, step) refl, enter_room-IsRoom E w h address c found)
  ]
  step-IsRoom (exited index) w h inside = (_, refl, exit_room-IsRoom E w h index)
  step-IsRoom (disconnected token) w h inside = (_, refl, disconnect_client-IsRoom E w h token)
  step-IsRoom ticked w h inside = (_, refl, start_sync_timer-IsRoom E w h)
  step-IsRoom (received memory n) w h inside =
      let low : leb n (length memory) ≡ true = ground arith in
      elim (Option-cases (E.parse_broadcast_message (take n memory))) [
        | inl broken ↦ (w, rw (broken, on_broadcast, low) refl, h)
        | inr (message, parses) ↦
            (_, rw (parses, on_broadcast, low) refl, broadcast_message-IsRoom E w h message)
      ]

  -- From a room that satisfies the invariant, whoever enters, leaves, disconnects or sends a message
  -- with a length inside its memory, and whenever the timer ticks: every event is served, and then
  -- the room again has no two entries of a token, and only clients that are there, under their own
  -- tokens.
  pub steps-IsRoom :
      (es : List Event) (w : World)
      → IsRoom w
      → All IsInside es
      → (w' : World) × (steps E es w ≡ some w') × IsRoom w'
  unfolding steps
  steps-IsRoom [] w h inside = (w, refl, h)
  steps-IsRoom (e ∷ es) w h inside =
      let (w', first, h') = step-IsRoom e w h inside.0 in
      let (w'', rest, h'') = steps-IsRoom es w' h' inside.1 in (w'', rw first rest, h'')
