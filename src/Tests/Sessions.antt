-- ===== src/Tests/Sessions.antt =====
-- The theorems on sessions and on the lobby, on small databases.
use isolation_server.Common.{◌+◌, ◌^◌, ◌≤◌, ◌≡◌, ◌≢◌, refl, false, [], ◌∷◌, none, text, arith}
use isolation_server.Common.{bytes_eq, to_string}
use isolation_server.Common.Parse.{stoull, is_space, is_digit, digits}
use isolation_server.Server.Keys.{client_key}
use isolation_server.Common.Map
use isolation_server.Redis.Memory
use isolation_server.Redis.Memory.{memory, memory-Laws, Fields}
use isolation_server.Session.{
  undefined, returned, Session, entered, request_environment, add_client, is_valid_session,
}
use isolation_server.Session.Entry.{add_client-IsDefined}
use isolation_server.Session.Capacity.{IsOpen, add_client_capacity, full_session_admits}
use isolation_server.Lobby.{Lobby, activate_session, keep_session}
use isolation_server.Lobby.Lifecycle.{
  IsOrdered, Reaches, begin, created, activated, Reaches-IsOrdered,
}

-- Session 1, of client 7, for one client, with its host inside; client 8 is known.
abbrev one : Session
one = record {
  token = 1;
  session_key = text "session:1";
  session_clients_key = text "session:1:clients";
}

abbrev full : Fields
full =
    (text "session:1", text "hostToken", text "7")
    ∷ (text "session:1", text "maxClientCount", text "1")
    ∷ (text "session:1", text "name", text "game")
    ∷ (text "session:1", text "password", [])
    ∷ (text "session:1", text "joinCode", text "code")
    ∷ (text "session:1:clients", text "7", text "wond")
    ∷ (text "client:8", text "ConnectedTime", text "5")
    ∷ []

add_client-IsDefined_example : add_client memory one 8 (text "buil") full ≢ undefined
add_client-IsDefined_example = add_client-IsDefined memory one 8 (text "buil") full

full-IsOpen : IsOpen memory one 7 1 full
unfolding is_valid_session Memory.exists bytes_eq Memory.hexists Memory.hget stoull is_space
    is_digit digits
full-IsOpen = record {
  valid = refl;
  host_token = text "7";
  host_stored = refl;
  host_read = refl;
  host_nickname = text "wond";
  host_inside = refl;
  max_text = text "1";
  max_stored = refl;
  max_read = refl;
}

abbrev overfull : Fields
overfull = (text "session:1:clients", text "8", text "buil") ∷ full

add_client_capacity_example : memory.hlen (text "session:1:clients") overfull ≤ 1 + 1
unfolding is_valid_session add_client Memory.exists bytes_eq Memory.hexists Memory.hget Memory.hlen
    Memory.hset stoull is_space is_digit digits client_key to_string
add_client_capacity_example =
    add_client_capacity memory-Laws one 7 1 8 (text "buil") full full-IsOpen refl (omega arith)
      (request_environment false ∷ []) overfull refl

full_session_admits_example :
    (db : Fields) × (add_client memory one 8 (text "buil") full
      ≡ returned (entered (request_environment false ∷ []), db))
    × (memory.hlen (text "session:1:clients") db ≡ 1 + 1)
unfolding is_valid_session add_client Memory.exists bytes_eq Memory.hexists Memory.hget Memory.hlen
    Memory.hset stoull is_space is_digit digits client_key to_string
full_session_admits_example =
    full_session_admits memory-Laws one 7 1 8 (text "buil") full full-IsOpen refl (omega arith) refl
      refl

abbrev blank : Session
blank = record { token = 1; session_key = []; session_clients_key = [] }

-- The counter starts at index 0.
abbrev lobby : Lobby
lobby = record { session_index_counter = 2 ^ 31; empty_sessions = []; sessions = [] }

lobby-IsOrdered : IsOrdered lobby
lobby-IsOrdered = record {
  bound_empty = λ i s e. absurd (Map.find-nil i s e);
  bound_active = λ i s e. absurd (Map.find-nil i s e);
  disjoint = λ i s e. absurd (Map.find-nil i s e);
}

abbrev lobby_of_one : Lobby
lobby_of_one = record {
  session_index_counter = 2 ^ 31 + 1;
  empty_sessions = (2 ^ 31 + 1, one) ∷ [];
  sessions = [];
}

one_kept : keep_session memory lobby none one full ≡ returned (2 ^ 31 + 1, none, lobby_of_one, full)
unfolding keep_session Map.insert
one_kept = refl

one_run : Reaches memory lobby (activate_session (2 ^ 31 + 1) lobby_of_one)
one_run = activated (2 ^ 31 + 1) (created one full full begin one_kept)

Reaches-IsOrdered_example : IsOrdered (activate_session (2 ^ 31 + 1) lobby_of_one)
Reaches-IsOrdered_example = Reaches-IsOrdered lobby-IsOrdered one_run
