-- ===== src/Tests/Infos.antt =====
-- The theorems on what is read of a session, at a session of one client.
use isolation_server.Common.{◌≡◌, refl, true, false, [], ◌∷◌, none, some, text, arith}
use isolation_server.Redis.Memory
use isolation_server.Redis.Memory.{memory, memory-Laws, Fields}
use isolation_server.Redis.Expiry.Timed.{Timeouts, timed, timed-Laws, timeouts, timeouts-Laws}
use isolation_server.Util.{utf8_length}
use isolation_server.Session.{Session, returned, undefined, stop_session, create_session}
use isolation_server.Session.Info.{
  get_session_info, is_active_session, get_join_code, read_environment, environment_packet,
}
use isolation_server.Session.Info.Created.{created_session, stopped_session}

abbrev blank : Session
blank = record { token = 1; session_key = []; session_clients_key = [] }

abbrev no_timeouts : Timeouts Fields
no_timeouts = ([], λ k. none)

created_session_example :
    (s : Session) × (db : Timeouts Fields) × (create_session
        (timed memory)
        blank
        (some (8, text "buil"))
        4
        (text "game")
        []
        no_timeouts
      ≡ returned (none, s, db))
    × (get_session_info (timed memory) s db
        ≡ returned (
            some (record {
              name = text "game";
              max_client_count = 4;
              client_count = 1;
              password = [];
              join_code = [];
            })))
    × (is_active_session (timed memory) s db ≡ true)
    × (read_environment (timed memory) s db true
        ≡ returned
            (record { session_name = text "game"; join_code = []; password = []; host = true }))
    × ((timeouts memory).ttl s.session_key db ≡ some 180)
    × ((timeouts memory).ttl s.session_clients_key db ≡ some 180)
unfolding utf8_length Memory.hlen Memory.hget
created_session_example =
    created_session (timed-Laws memory-Laws) blank 8 4 4 (text "buil") (text "game") [] no_timeouts
      (timeouts-Laws memory) true (omega arith) (omega arith) (omega arith) (omega arith) refl
      (omega arith) refl refl

abbrev one : Session
one = record {
  token = 1;
  session_key = text "session:1";
  session_clients_key = text "session:1:clients";
}

abbrev kept : Fields
kept =
    (text "session:1", text "name", text "game")
    ∷ (text "session:1:clients", text "8", text "buil")
    ∷ []

stopped_session_example :
    let db = stop_session memory one kept in
    (get_session_info memory one db ≡ returned none)
    × (is_active_session memory one db ≡ false)
    × (get_join_code memory one db ≡ [])
    × (environment_packet memory one db 9 (λ env. env.session_name) false ≡ undefined)
stopped_session_example = stopped_session memory-Laws one kept 9 (λ env. env.session_name) false
