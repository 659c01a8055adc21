-- ===== src/Tests/Lobbies.antt =====
-- The theorems on the lobby, with one client that enters it.
use isolation_server.Common.{
  ◌+◌, ◌^◌, ◌≡◌, refl, true, false, List, [], ◌∷◌, ◌++◌, none, some, Bytes, text, length, arith,
  to_string, bytes_eq,
}
use isolation_server.Common.Map
use isolation_server.Redis.Memory
use isolation_server.Redis.Memory.{memory, memory-Laws, Fields}
use isolation_server.Redis.Strings.Fields.{memory_strings, memory_strings-Laws}
use isolation_server.Redis.Expiry.Timed.{
  Timeouts, timed, timed-Laws, timeouts, timeouts-Laws, timed_strings, timed_strings-Laws,
}
use isolation_server.RedisService
use isolation_server.ClientSocket.{construct}
use isolation_server.Server.Keys.{client_key}
use isolation_server.Util.{utf8_length}
use isolation_server.Session.{Session, returned, ◌>>=◌}
use isolation_server.Session.{is_valid_session}
use isolation_server.Session.Info.{SessionInfo, get_session_info_into}
use isolation_server.Common.Parse.{stoull, stoi, is_digit, is_space, digits}
use isolation_server.Lobby.{Lobby, receive_join_code}
use isolation_server.Lobby.List.{
  SessionList, valid_sessions, rewrite_session_list_cache, rewrite_session_list_cache_lem,
}
use isolation_server.Lobby.Entry.{
  Numbers, Socket, Hall, Event, entering, disconnecting, leaving, set_client_handler,
  request_enter_lobby, disconnected_client, handle_request_session_leave, steps,
}
use isolation_server.Lobby.Entry.Clients.{
  IsHall, admitted-IsHall, steps-IsHall, request_enter_lobby_again,
}
use isolation_server.Lobby.Requests.{
  Messages, packet, handle_request_session_create, handle_request_session_enter,
}
use isolation_server.Lobby.Requests.Journey.{created_session_listed}
use isolation_server.Lobby.Requests.Made.{shown}

abbrev numbers : Numbers
numbers = record {
  request_session_list = 1;
  request_session_creation = 2;
  request_session_entry = 3;
  request_lobby_exit = 4;
  disconnected = 5;
}

abbrev client : Socket
client = construct 7

abbrev empty_hall : Hall memory
empty_hall = record { logined_clients = []; stopped = []; database = [] }

empty_hall-IsHall : IsHall numbers empty_hall
empty_hall-IsHall = record {
  keyed = λ token c found. absurd (Map.find-nil token c found);
  own = λ token c found. absurd (Map.find-nil token c found);
  handled = λ token c found. absurd (Map.find-nil token c found);
}

abbrev visits : List Event
visits =
    entering (some (client, text "alice"))
    ∷ leaving 7
    ∷ entering (some (client, text "alice"))
    ∷ disconnecting 7
    ∷ entering none
    ∷ []

steps-IsHall_example :
    (h : Hall memory) × (steps memory_strings numbers visits empty_hall ≡ returned h)
    × IsHall numbers h
steps-IsHall_example =
    steps-IsHall {S = memory_strings} memory-Laws memory_strings-Laws numbers visits empty_hall
      empty_hall-IsHall

abbrev no_info : SessionInfo
no_info = record {
  name = [];
  max_client_count = 0;
  client_count = 0;
  password = [];
  join_code = [];
}

abbrev written : SessionList → Bytes
written l = to_string l.count ++ to_string (length l.list)

-- Two sessions, of which redis has only the second.
abbrev half_kept : Lobby
half_kept = record {
  session_index_counter = 2 ^ 31 + 2;
  empty_sessions = [];
  sessions =
      (
        2 ^ 31 + 1,
        record {
          token = 1;
          session_key = text "session:1";
          session_clients_key = text "session:1:clients";
        },
      )
      ∷ (
        2 ^ 31 + 2,
        record {
          token = 2;
          session_key = text "session:2";
          session_clients_key = text "session:2:clients";
        },
      )
      ∷ [];
}

abbrev second_kept : Fields
second_kept =
    (text "session:2", text "hostToken", text "7")
    ∷ (text "session:2", text "maxClientCount", text "4")
    ∷ (text "session:2", text "name", text "game")
    ∷ (text "session:2", text "password", [])
    ∷ (text "session:2", text "joinCode", text "code")
    ∷ (text "session:2:clients", text "7", text "alice")
    ∷ []

rewrite_session_list_cache_example :
    rewrite_session_list_cache memory second_kept written no_info half_kept ≡ (
      valid_sessions memory second_kept half_kept.sessions >>= λ ml.
      returned (written (record { count = 2; list = ml })))
rewrite_session_list_cache_example =
    rewrite_session_list_cache_lem memory second_kept written no_info half_kept

-- The message counts two sessions and lists one.
one_of_two :
    rewrite_session_list_cache memory second_kept written no_info half_kept ≡ returned (text "21")
unfolding rewrite_session_list_cache is_valid_session get_session_info_into Memory.exists
    Memory.hget Memory.hexists Memory.hlen bytes_eq stoull stoi is_digit is_space digits to_string
one_of_two = refl

abbrev messages : Messages
messages = record {
  parse_request_session_creation = λ bs. some (bs, text "lock");
  serialize_response_session_creation = λ r. to_string r.session_index;
  response_session_creation = 6;
  parse_request_session_entry = λ bs. some (2 ^ 31 + length bs);
  serialize_response_session_entry = λ r. [];
  response_session_entry = 7;
}

abbrev lobby : Lobby
lobby = record { session_index_counter = 2 ^ 31; empty_sessions = []; sessions = [] }

abbrev entered_hall : Hall memory
entered_hall = record {
  logined_clients = (7, set_client_handler numbers client) ∷ [];
  stopped = [];
  database = memory_strings.set (client_key 7) (text "alice") [];
}

entered_hall-IsHall : IsHall numbers entered_hall
unfolding Map.insert set_client_handler
entered_hall-IsHall =
    admitted-IsHall {S = memory_strings} memory-Laws memory_strings-Laws numbers empty_hall
      empty_hall-IsHall client (text "alice")

request_enter_lobby_again_example :
    let left = handle_request_session_leave memory_strings numbers 7 entered_hall in
    let gone = disconnected_client memory_strings numbers 7 left in
    (Map.find 7 left.logined_clients ≡ none)
    × (Map.find 7 left.stopped ≡ some tt)
    × (RedisService.exists memory (client_key 7) left.database ≡ true)
    × (RedisService.exists memory (client_key 7) gone.database ≡ false)
    × (Map.find 7 gone.stopped ≡ none)
    × (h : Hall memory) × (request_enter_lobby memory_strings numbers
          (some (client, text "alice"))
          gone
        ≡ returned (none, h))
    × (Map.find 7 h.logined_clients ≡ some (set_client_handler numbers client))
unfolding Map.find utf8_length
request_enter_lobby_again_example =
    request_enter_lobby_again {S = memory_strings} memory-Laws memory_strings-Laws numbers
      entered_hall entered_hall-IsHall 7 5 (set_client_handler numbers client) client (text "alice")
      refl refl refl (omega arith)

abbrev timed_hall : Hall (timed memory)
timed_hall = record { logined_clients = []; stopped = []; database = ([], λ k. none) }

created_session_listed_example :
    (h1 : Hall (timed memory)) × (l1 : Lobby) × (s : Session) × (db1 : Timeouts Fields)
    × (db2 : Timeouts Fields) × (l2 : Lobby) × (db3 : Timeouts Fields) × (request_enter_lobby
          (timed_strings memory_strings)
          numbers
          (some (client, text "alice"))
          timed_hall
        ≡ returned (none, h1))
    × (handle_request_session_create
          (timed memory)
          messages
          1
          7
          (text "alice")
          (text "game")
          4
          lobby
          h1.database
        ≡ returned (packet 6 (to_string (2 ^ 31 + 1)), l1, db1))
    × (Map.find (2 ^ 31 + 1) l1.empty_sessions ≡ some s)
    × (handle_request_session_enter (timed memory) messages 7 (text "alice") (text "a") 1 l1 db1
        ≡ returned (packet 7 [], db2))
    × (receive_join_code (timed memory) (2 ^ 31 + 1) s 7 (text "code") l1 db2 ≡ returned (l2, db3))
    × (rewrite_session_list_cache (timed memory) db3 written no_info l2
        ≡ returned (written (shown (2 ^ 31 + 1) (text "game") (text "lock") (text "code"))))
    × ((timeouts memory).ttl s.session_key db1 ≡ some 180)
    × ((timeouts memory).ttl s.session_clients_key db1 ≡ some 180)
    × ((timeouts memory).ttl s.session_key db3 ≡ none)
    × ((timeouts memory).ttl s.session_clients_key db3 ≡ none)
unfolding utf8_length Memory.exists Memory.hlen Memory.hget
created_session_listed_example =
    created_session_listed {S = timed_strings memory_strings} (timed-Laws memory-Laws)
      (timed_strings-Laws memory_strings-Laws) numbers messages timed_hall lobby client 1 5 4
      (text "alice") (text "game") (text "lock") (text "code") (text "game") (text "a")
      (timeouts-Laws memory) written no_info (omega arith) (omega arith) refl (omega arith) refl
      refl (omega arith) (omega arith) (omega arith) refl refl refl refl refl
