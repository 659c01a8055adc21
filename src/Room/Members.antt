-- ===== src/Room/Members.antt =====
-- The members of a room: each is a client of the program, under its own token.
use isolation_server.Common.{
  ℕ, ◌≤◌, ◌<◌, ◌≡◌, refl, sym, ◌∙◌, [], ◌∷◌, Option, none, some, Bytes, ◌==◌, ==_iff, ltb,
  if◌then◌else◌, length, All, arith, Bool-cases, Option-cases, inl, inr,
}
use isolation_server.Common.Map
use isolation_server.Common.Map.{Map, find-insert, find-erase}
use isolation_server.Util.Words.{to_size}
use isolation_server.Room.{
  Client, Externals, World, change, posted_also, post_all, broadcast_message, start_sync_timer,
  with_handler, without_handler, enter_room, exit_room, disconnect_client,
}

-- The keys ascend.
abbrev pub IsAbove : ℕ → Map ℕ → Type 0
IsAbove k m = All (λ e. k < e.0) m

abbrev pub IsSorted : Map ℕ → Type 0
IsSorted [] = Unit
IsSorted ((k, a) ∷ m) = IsAbove k m × IsSorted m

insert-IsAbove : (j k a : ℕ) (m : Map ℕ) → j < k → IsAbove j m → IsAbove j (Map.insert k a m)
unfolding Map.insert
insert-IsAbove j k a [] h above = (h, tt)
insert-IsAbove j k a ((i, b) ∷ m) h above = ground (arith, insert-IsAbove j k a m h above.1)

below-IsAbove : (i j : ℕ) (m : Map ℕ) → i ≤ j → IsAbove j m → IsAbove i m
below-IsAbove i j [] h above = tt
below-IsAbove i j ((k, a) ∷ m) h above = (omega (arith, above.0), below-IsAbove i j m h above.1)

erase-IsAbove : (j k : ℕ) (m : Map ℕ) → IsAbove j m → IsAbove j (Map.erase k m)
unfolding Map.erase
erase-IsAbove j k [] above = tt
erase-IsAbove j k ((i, b) ∷ m) above = ground (arith, erase-IsAbove j k m above.1)

pub insert-IsSorted : (k a : ℕ) (m : Map ℕ) → IsSorted m → IsSorted (Map.insert k a m)
unfolding Map.insert
insert-IsSorted k a [] h = (tt, tt)
insert-IsSorted k a ((j, b) ∷ m) h = elim (Bool-cases (j == k)) [
  | inl same ↦ rw same (below-IsAbove k j m (omega (arith, (==_iff j k).0 same)) h.0, h.1)
  | inr other ↦ elim (Bool-cases (ltb k j)) [
    | inl before ↦ rw (other, before) ((ground arith, below-IsAbove k j m (ground arith) h.0), h)
    | inr behind ↦
        rw (other, behind)
          (insert-IsAbove j k a m (ground (arith, ==_iff j k)) h.0, insert-IsSorted k a m h.1)
  ]
]

pub erase-IsSorted : (k : ℕ) (m : Map ℕ) → IsSorted m → IsSorted (Map.erase k m)
unfolding Map.erase
erase-IsSorted k [] h = tt
erase-IsSorted k ((j, b) ∷ m) h = elim (Bool-cases (j == k)) [
  | inl same ↦ rw same (erase-IsSorted k m h.1)
  | inr other ↦ rw other (erase-IsAbove j k m h.0, erase-IsSorted k m h.1)
]

-- A client of the program with a token.
abbrev pub IsClient : Map Client → (address token : ℕ) → Type 0
IsClient clients address token =
    (c : Client) × (Map.find address clients ≡ some c) × (c.token ≡ token)

-- The invariant: no two entries of a token, and each member is there, under its own token.
pub record IsRoom (w : World) : Type 0 where
  pub sorted : IsSorted w.room.clients
  pub members :
      (token address : ℕ)
      → Map.find token w.room.clients ≡ some address
      → IsClient w.clients address token

abbrev pub applied : (Client → Client) → Option Client → Option Client
applied f none = none
applied f (some c) = some (f c)

pub find-change :
    (f : Client → Client) (clients : Map Client) (address a : ℕ)
    → Map.find a (change address f clients)
      ≡ (if address == a then applied f (Map.find a clients) else Map.find a clients)
find-change f clients address a = elim (Option-cases (Map.find address clients)) [
  | inl absent ↦ elim (Bool-cases (address == a)) [
    | inl same ↦
        let e : address ≡ a = (==_iff address a).0 same in
        let gone : Map.find a clients ≡ none = rw (sym e) absent in
        rw (absent, change, same, gone) refl
    | inr other ↦ rw (absent, change, other) refl
  ]
  | inr (c, found) ↦ elim (Bool-cases (address == a)) [
    | inl same ↦
        let e : address ≡ a = (==_iff address a).0 same in
        let here : Map.find a clients ≡ some c = rw (sym e) found in
        rw (found, change, find-insert address a (f c) clients, same, here) refl
    | inr other ↦ rw (found, change, find-insert address a (f c) clients, other) refl
  ]
]

-- A change that leaves tokens as they are.
module _ (f : Client → Client) (same : (c : Client) → (f c).token ≡ c.token) where
  pub change-IsClient :
      (clients : Map Client) (address a token : ℕ)
      → IsClient clients a token
      → IsClient (change address f clients) a token
  change-IsClient clients address a token (c, found, own) = elim (Bool-cases (address == a)) [
    | inl here ↦ (f c, rw (find-change f clients address a, here, found) refl, same c ∙ own)
    | inr other ↦ (c, rw (find-change f clients address a, other) found, own)
  ]

post_all-IsClient :
    (buffer : Bytes) (members : Map ℕ) (clients : Map Client) (a token : ℕ)
    → IsClient clients a token
    → IsClient (post_all buffer members clients) a token
unfolding post_all
post_all-IsClient buffer [] clients a token h = h
post_all-IsClient buffer ((t, address) ∷ members) clients a token h =
    post_all-IsClient buffer members _ a token
      (change-IsClient (posted_also buffer) (λ c. refl) clients address a token h)

module _ (E : Externals) (w : World) (h : IsRoom w) where
  -- The members of the room keep their tokens.
  abbrev Keeps : Map Client → Type 0
  Keeps clients = (a token : ℕ) → IsClient w.clients a token → IsClient clients a token

  kept : (clients : Map Client) → Keeps clients → IsRoom (record w { clients = clients })
  kept clients keeps = record {
    sorted = h.sorted;
    members = λ token address found. keeps address token (h.members token address found);
  }

  post_all-IsRoom :
      (buffer : Bytes) → IsRoom (record w { clients = post_all buffer w.room.clients w.clients })
  post_all-IsRoom buffer = kept _ (post_all-IsClient buffer w.room.clients w.clients)

  pub broadcast_message-IsRoom : (message : Bytes) → IsRoom (broadcast_message E message w)
  unfolding broadcast_message
  broadcast_message-IsRoom message = post_all-IsRoom _

  pub start_sync_timer-IsRoom : IsRoom (start_sync_timer E w)
  unfolding start_sync_timer
  start_sync_timer-IsRoom = elim (Bool-cases (ltb 0 (length w.room.broadcasting_message))) [
    | inl some_message ↦ rw some_message (post_all-IsRoom _)
    | inr no_message ↦ rw no_message h
  ]

  pub enter_room-IsRoom :
      (address : ℕ) (c : Client)
      → Map.find address w.clients ≡ some c
      → IsRoom (enter_room E address c w).1
  unfolding enter_room
  enter_room-IsRoom address c found = elim (Bool-cases (ltb c.token 1)) [
    | inl invalid ↦ rw invalid h
    | inr valid ↦ rw valid (record {
      sorted = insert-IsSorted c.token address w.room.clients h.sorted;
      members = λ token a here.
          change-IsClient (with_handler E) (λ c. refl) w.clients address a token
            (entered token a here);
    })
  ]
    where
      entered :
          (token a : ℕ)
          → Map.find token (Map.insert c.token address w.room.clients) ≡ some a
          → IsClient w.clients a token
      entered token a here = elim (Bool-cases (c.token == token)) [
        | inl same ↦
            let e : some address ≡ some a =
              ground (arith, find-insert c.token token address w.room.clients, here) in
            (c, ground (arith, e, found), (==_iff c.token token).0 same)
        | inr other ↦
            h.members token a (ground (arith, find-insert c.token token address w.room.clients))
      ]

  erase-members :
      (token t a : ℕ)
      → Map.find t (Map.erase token w.room.clients) ≡ some a
      → IsClient w.clients a t
  erase-members token t a found = elim (Bool-cases (token == t)) [
    | inl same ↦ absurd (ground (arith, find-erase token t w.room.clients))
    | inr other ↦ h.members t a (ground (arith, find-erase token t w.room.clients))
  ]

  pub exit_room-IsRoom : (index : ℕ) → IsRoom (exit_room E index w)
  unfolding exit_room
  exit_room-IsRoom index = elim (Option-cases (Map.find (to_size index) w.room.clients)) [
    | inl absent ↦ rw (absent, exit_room) h
    | inr (address, here) ↦
        rw (here, exit_room)
          (record {
            sorted = erase-IsSorted (to_size index) w.room.clients h.sorted;
            members = λ t a found.
                change-IsClient (without_handler E) (λ c. refl) w.clients address a t
                  (erase-members (to_size index) t a found);
          })
  ]

  pub disconnect_client-IsRoom : (token : ℕ) → IsRoom (disconnect_client E token w)
  unfolding disconnect_client
  disconnect_client-IsRoom token = record {
    sorted = erase-IsSorted token w.room.clients h.sorted;
    members = erase-members token;
  }
