-- ===== src/Tests/Requests.antt =====
-- The theorems on the handlers, on the data of `Data`.
use isolation_server.Common.{
  ℕ, ◌≡◌, refl, true, List, [], ◌∷◌, ◌++◌, Option, none, some, text, to_string, bytes_eq, arith,
}
use isolation_server.Common.Map
use isolation_server.Redis.Memory
use isolation_server.Server.System
use isolation_server.Redis.Memory.{memory, memory-Laws}
use isolation_server.Program.{run}
use isolation_server.Server
use isolation_server.Server.Spec.{register_message, enter_message, read_data_message, leave}
use isolation_server.Server.Refines.Handlers.{
  Answered, login_key_of, handle_request_creation_account_refines, handle_request_login_refines,
  handle_request_player_data_refines, handle_request_logout_refines,
}
use isolation_server.Server.Refines.Logout.{login_key_at}
use isolation_server.Server.Keys.{id_key, client_key, logined_key}
use isolation_server.Server.System.{
  Event, accepted, packet, lost, stopped, register_account, login, player_data, logout, serve,
}
use isolation_server.Server.System.Sound.{IsSound}
use isolation_server.Server.System.Safety.{serve_safe, no_double_login}
use isolation_server.Tests.Data.{
  externals, alice, alice_request, alice_login, empty_view, empty-Represents, connected_view, seven,
  seven_here, announced, connected_world,
}

abbrev empty_system : System.System memory
empty_system = record { database = []; connected = []; sockets = [] }

empty-IsSound : IsSound empty_system
empty-IsSound = record {
  view = empty_view;
  represents = empty-Represents;
  linked = record { linked = λ token id e. cc };
  announced = λ token c found. absurd (Map.find-nil token c found);
}

abbrev entering : List Event
entering =
    accepted 5 7
    ∷ packet 6 7 register_account alice_request 15
    ∷ packet 7 7 login (text "alicpass") 8
    ∷ []

abbrev leaving : List Event
leaving = entering ++ packet 8 7 player_data [] 0 ∷ packet 9 7 logout [] 0 ∷ lost 7 ∷ stopped ∷ []

serve_safe_example :
    (s : System.System memory) × (serve externals leaving empty_system ≡ some s) × IsSound s
serve_safe_example =
    serve_safe memory-Laws externals leaving empty_system empty-IsSound
      (tt, (omega arith, (omega arith, (omega arith, (omega arith, (tt, (tt, tt)))))))

abbrev or_empty : Option (System.System memory) → System.System memory
or_empty none = empty_system
or_empty (some s) = s

abbrev entered : System.System memory
entered = or_empty (serve externals entering empty_system)

entered_lem : serve externals entering empty_system ≡ some entered
unfolding serve System.step run Server.announce Map.find Map.insert
    Server.handle_request_creation_account Memory.exists Memory.hset bytes_eq client_key id_key
    Server.handle_request_login Memory.hget logined_key to_string
entered_lem = refl

alice_in : memory.hget (client_key 7) (text "loginId") entered.database ≡ some (text "alic")
unfolding serve System.step run Server.announce Map.find Map.insert
    Server.handle_request_creation_account Memory.exists Memory.hset bytes_eq client_key id_key
    Server.handle_request_login Memory.hget logined_key to_string
alice_in = refl

no_double_login_example : ◌≡◌ {A = ℕ} 7 7
no_double_login_example =
    no_double_login memory-Laws externals entering empty_system entered 7 7 (text "alic")
      empty-IsSound (tt, (omega arith, (omega arith, tt))) entered_lem alice_in alice_in

creation_account_example :
    let (response, v) = register_message externals.sha256 (some alice) connected_view in
    Answered connected_world
      (Server.handle_request_creation_account externals alice_request 15)
      (Server.response_packet 2 (externals.serialize_response_register_account response) ∷ [])
      []
      v
creation_account_example =
    handle_request_creation_account_refines memory-Laws externals connected_world connected_view
      announced.represents alice_request 15 (omega arith)

login_example :
    let (response, v) = enter_message externals.sha256 7 (some alice_login) connected_view in
    Answered connected_world
      (Server.handle_request_login externals 7 7 (text "alicpass") 8)
      (Server.login_packet 4 (externals.serialize_response_login response) ∷ [])
      (login_key_of [] (some alice_login) response)
      v
login_example =
    handle_request_login_refines memory-Laws externals connected_world connected_view
      announced.represents (text "alicpass") 8 (omega arith) 7 7 seven seven_here

player_data_example :
    Answered connected_world
      (Server.handle_request_player_data externals 7 [] 0)
      (Server.response_packet 6
          (externals.serialize_response_player_data (read_data_message 7 true connected_view))
        ∷ [])
      []
      connected_view
player_data_example =
    handle_request_player_data_refines memory-Laws externals connected_world connected_view
      announced.represents [] 0 (omega arith) 7

logout_example :
    Answered connected_world
      (Server.handle_request_logout externals 7 [] 0)
      []
      (login_key_at [] (connected_view.presence 7))
      (leave 7 connected_view)
logout_example =
    handle_request_logout_refines memory-Laws externals connected_world connected_view
      announced.represents [] 0 (omega arith) 7
