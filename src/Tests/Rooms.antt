-- ===== src/Tests/Rooms.antt =====
-- The theorems on the rooms, with a member, a client that is no member, and a message.
use isolation_server.Common.{ℕ, ◌≡◌, refl, List, [], ◌∷◌, some, text, arith, if◌then◌else◌}
use isolation_server.Common.Map
use isolation_server.Room.{
  Client, Externals, World, Event, entered, exited, disconnected, received, ticked, posted_also,
  packet, on_broadcast, enter_room, steps,
}
use isolation_server.Room.Members.{IsRoom, enter_room-IsRoom}
use isolation_server.Common.{ℕ, none, ◌==◌, Option, if◌then◌else◌}
use isolation_server.Room.History.{IsNamed, latest, steps-latest}
use isolation_server.Room.Broadcast.{has, on_broadcast-Posted}

abbrev room_externals : Externals
room_externals = record {
  request_broadcasting_message = 20;
  response_broadcasting_message = 21;
  request_sync1 = 22;
  parse_broadcast_message = λ bs. some bs;
  serialize_sync1 = λ bs. bs;
}

abbrev seven : Client
seven = record { token = 7; packet_handler = []; posted = [] }

abbrev eight : Client
eight = record { token = 8; packet_handler = []; posted = [] }

-- Nobody is in the room; two clients stand at the addresses 100 and 101.
abbrev empty_room : World
empty_room = record {
  room = record { clients = []; broadcasting_message = [] };
  clients = (100, seven) ∷ (101, eight) ∷ [];
}

empty_room-IsRoom : IsRoom empty_room
empty_room-IsRoom = record {
  sorted = tt;
  members = λ token address found. absurd (Map.find-nil token address found);
}

abbrev visits : List Event
visits =
    entered 100 ∷ entered 101 ∷ received (text "hello") 5 ∷ exited 7 ∷ ticked ∷ disconnected 8 ∷ []

-- The clients at the two addresses.
abbrev tokens : ℕ → Option ℕ
tokens a = if a == 100 then some 7 else (if a == 101 then some 8 else none)

empty_room-IsNamed : IsNamed tokens empty_room.clients
unfolding Map.find
empty_room-IsNamed a = ground arith

steps-latest_example :
    (w : World) × (steps room_externals visits empty_room ≡ some w)
    × (Map.find 8 w.room.clients ≡ latest tokens 8 visits (Map.find 8 empty_room.room.clients))
    × IsNamed tokens w.clients
steps-latest_example =
    steps-latest tokens room_externals 8 visits empty_room empty_room-IsNamed
      (tt, (tt, (omega arith, (tt, (tt, (tt, tt))))))

abbrev one_member : World
one_member = (enter_room room_externals 100 seven empty_room).1

one_member-IsRoom : IsRoom one_member
unfolding Map.find
one_member-IsRoom = enter_room-IsRoom room_externals empty_room empty_room-IsRoom 100 seven refl

on_broadcast-Posted_example :
    (w : World) × (on_broadcast room_externals (text "hello") 5 one_member ≡ some w)
    × (w.room ≡ one_member.room)
    × ((a : ℕ) (c : Client)
        → Map.find a one_member.clients ≡ some c
        → Map.find a w.clients
          ≡ some (
              if has c.token a one_member.room.clients
              then posted_also (packet 21 (text "hello")) c
              else c))
on_broadcast-Posted_example =
    on_broadcast-Posted room_externals one_member one_member-IsRoom (text "hello") 5 (text "hello")
      (omega arith) refl
