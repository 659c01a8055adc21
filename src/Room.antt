-- ===== src/Room.antt =====
-- deprecated/room.h and deprecated/room.cpp: a room of the earlier game server, whose members send one
-- another messages. A client is an object with an address; the room has the addresses of its members
-- by their tokens. The events are the calls that the room gets, one after another.
pub mod Members
pub mod Broadcast
pub mod History
use isolation_server.Common.{
  ℕ, ◌+◌, Bool, true, false, List, [], ◌∷◌, ◌++◌, Option, none, some, Bytes, ◌==◌, ltb, leb,
  if◌then◌else◌, length, take,
}
use isolation_server.Common.Map
use isolation_server.Common.Map.{Map}
use isolation_server.Util.{append_prot_packet}
use isolation_server.Util.Words.{to_size}

-- The packet handlers of a client: that of EnterRoom, and those of other parts of the program.
pub data Handler : Type 0 where
  broadcasting : Handler
  foreign : ℕ → Handler

pub record Client : Type 0 where
  pub token : ℕ
  pub packet_handler : Map Handler
  pub posted : List Bytes

pub record Room : Type 0 where
  pub clients : Map ℕ
  pub broadcasting_message : Bytes

-- The generated code: the numbers of the messages, and the parser and the serializer.
pub record Externals : Type 0 where
  pub request_broadcasting_message : ℕ
  pub response_broadcasting_message : ℕ
  pub request_sync1 : ℕ
  pub parse_broadcast_message : Bytes → Option Bytes
  pub serialize_sync1 : Bytes → Bytes

-- The room with the clients of the program, by their addresses.
pub record World : Type 0 where
  pub room : Room
  pub clients : Map Client

abbrev pub packet : ℕ → Bytes → Bytes
packet type payload = append_prot_packet [] type (length payload + 12) ++ payload

-- A change of the client at an address.
abbrev pub change : ℕ → (Client → Client) → Map Client → Map Client
change address f clients = elim (Map.find address clients) [
  | none ↦ clients
  | some c ↦ Map.insert address (f c) clients
]

abbrev pub posted_also : Bytes → Client → Client
posted_also buffer c = record c { posted = c.posted ++ buffer ∷ [] }

-- The loops that call PostWrite of each member.
unfoldable pub post_all : Bytes → Map ℕ → Map Client → Map Client
post_all buffer [] clients = clients
post_all buffer ((token, address) ∷ members) clients =
    post_all buffer members (change address (posted_also buffer) clients)

module _ (E : Externals) where
  unfoldable pub broadcast_message : Bytes → World → World
  unfolding post_all
  broadcast_message message w = record w {
    clients = post_all (packet E.response_broadcasting_message message) w.room.clients w.clients;
  }

  -- StartSyncTimer, at one tick of the timer.
  unfoldable pub start_sync_timer : World → World
  unfolding post_all
  start_sync_timer w =
      let serialized = E.serialize_sync1 w.room.broadcasting_message in
      if ltb 0 (length w.room.broadcasting_message)
      then record w {
        clients = post_all (packet E.request_sync1 serialized) w.room.clients w.clients;
      }
      else w

  abbrev pub with_handler : Client → Client
  with_handler c = record c {
    packet_handler = Map.insert E.request_broadcasting_message broadcasting c.packet_handler;
  }

  abbrev pub without_handler : Client → Client
  without_handler c = record c {
    packet_handler = Map.erase E.request_broadcasting_message c.packet_handler;
  }

  -- EnterRoom, for the client at an address: what it returns, without the assertion on the token.
  unfoldable pub enter_room : (address : ℕ) → Client → World → Bool × World
  enter_room address client w = if ltb client.token 1 then (false, w) else (
    true,
    record {
      room = record w.room { clients = Map.insert client.token address w.room.clients };
      clients = change address with_handler w.clients;
    },
  )

  -- ExitRoom, for an `int`, which the map of tokens widens.
  unfoldable pub exit_room : (index : ℕ) → World → World
  exit_room index w = elim (Map.find (to_size index) w.room.clients) [
    | none ↦ w
    | some address ↦ record {
      room = record w.room { clients = Map.erase (to_size index) w.room.clients };
      clients = change address without_handler w.clients;
    }
  ]

  unfoldable pub disconnect_client : (token : ℕ) → World → World
  disconnect_client token w = record w {
    room = record w.room { clients = Map.erase token w.room.clients };
  }

  -- The handler that EnterRoom registers, while the room and the client are there; a read past the
  -- memory is undefined.
  unfoldable pub on_broadcast : Bytes → (length : ℕ) → World → Option World
  unfolding broadcast_message
  on_broadcast memory n w =
      if leb n (length memory)
      then elim (E.parse_broadcast_message (take n memory)) [
        | none ↦ some w
        | some message ↦ some (broadcast_message message w)
      ]
      else none

-- What the room gets: a client enters, leaves, or loses its connection, the handler of EnterRoom is
-- called, or the timer ticks.
pub data Event : Type 0 where
  entered : (address : ℕ) → Event
  exited : (index : ℕ) → Event
  disconnected : (token : ℕ) → Event
  received : Bytes → (length : ℕ) → Event
  ticked : Event

module _ (E : Externals) where
  unfoldable pub step : Event → World → Option World
  unfolding enter_room exit_room disconnect_client on_broadcast start_sync_timer
  step (entered address) w = elim (Map.find address w.clients) [
    | none ↦ some w
    | some client ↦ some (enter_room E address client w).1
  ]
  step (exited index) w = some (exit_room E index w)
  step (disconnected token) w = some (disconnect_client E token w)
  step (received memory n) w = on_broadcast E memory n w
  step ticked w = some (start_sync_timer E w)

  abbrev pub and_then : (World → Option World) → Option World → Option World
  and_then f none = none
  and_then f (some w) = f w

  unfoldable pub steps : List Event → World → Option World
  steps [] w = some w
  steps (e ∷ es) w = and_then (steps es) (step e w)
