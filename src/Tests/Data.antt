-- ===== src/Tests/Data.antt =====
-- Messages, externals and databases for the tests.
use isolation_server.Common.{
  ◌≡◌, refl, true, [], ◌∷◌, ◌++◌, Option, none, some, Bytes, text, to_string, take, drop,
}
use isolation_server.Redis.Memory.{memory, memory-Laws}
use isolation_server.Program.{World}
use isolation_server.Server
use isolation_server.Server.Messages.{Externals, RegisterAccount, Login}
use isolation_server.Server.Spec.{View, Presence, connect}
use isolation_server.Server.Represents.{Represents}
use isolation_server.Server.Refines.{Refined, after}
use isolation_server.Server.Refines.Connection.{announce_refines}

-- Messages of fields of four bytes, the last one of any length.
abbrev read_register_account : Bytes → Option RegisterAccount
read_register_account [] = none
read_register_account (b ∷ bs) = some (record {
  id = take 4 (b ∷ bs);
  password = take 4 (drop 4 (b ∷ bs));
  nickname = take 4 (drop 8 (b ∷ bs));
  personal_color = drop 12 (b ∷ bs);
})

abbrev read_login : Bytes → Option Login
read_login [] = none
read_login (b ∷ bs) = some (record { id = take 4 (b ∷ bs); password = drop 4 (b ∷ bs) })

abbrev pub externals : Externals
externals = record {
  parse_request_register_account = read_register_account;
  parse_request_login = read_login;
  parse_request_player_data = λ bs. true;
  parse_request_logout = λ bs. true;
  serialize_response_register_account = λ r. r.message;
  serialize_response_login = λ r. r.message;
  serialize_response_player_data = λ r. r.message ++ r.nickname ++ r.personal_color;
  request_register_account = 1;
  response_register_account = 2;
  request_login = 3;
  response_login = 4;
  request_player_data = 5;
  response_player_data = 6;
  request_logout = 7;
  em_disconnected = 8;
  sha256 = λ password. text "#" ++ password;
}

abbrev pub alice : RegisterAccount
alice = record {
  id = text "alic";
  password = text "pass";
  nickname = text "wond";
  personal_color = text "red";
}

abbrev pub alice_request : Bytes
alice_request = text "alicpasswondred"

abbrev pub alice_login : Login
alice_login = record { id = text "alic"; password = text "pass" }

abbrev pub bob : RegisterAccount
bob = record {
  id = text "bobo";
  password = text "word";
  nickname = text "buil";
  personal_color = text "blue";
}

abbrev pub bob_login : Login
bob_login = record { id = text "bobo"; password = text "word" }

abbrev pub empty_view : View
empty_view = record { account = λ id. none; presence = λ token. none; holder = λ id. none }

abbrev pub empty_world : World memory
empty_world = record { database = []; login_key = []; posted = [] }

pub empty-Represents : Represents memory [] empty_view
unfolding isolation_server.Redis.Memory.exists
empty-Represents = record { accounts = λ id. refl; presences = λ t. refl; holders = λ id. refl }

-- Token 7 is connected, since time 5.
abbrev pub connected_view : View
connected_view = connect (to_string 5) 7 empty_view

abbrev pub seven : Presence
seven = record { connected_time = to_string 5; login_id = none }

pub seven_here : connected_view.presence 7 ≡ some seven
unfolding connect
seven_here = refl

pub announced : Refined (λ _. []) empty_world (Server.announce 5 7) (tt, connected_view)
announced = announce_refines memory-Laws empty_world empty_view empty-Represents 7 5

abbrev pub connected_world : World memory
connected_world = after empty_world announced
