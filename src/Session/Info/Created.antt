-- ===== src/Session/Info/Created.antt =====
-- What is read of a session after its creation, and after its end.
use isolation_server.Common.{
  ℕ, ◌^◌, ◌<◌, ◌≤◌, ◌≡◌, refl, ◌∙◌, Bool, true, false, List, [], ◌∷◌, none, some, Bytes, text,
  to_string, arith, bytes_eq, bytes_eq_refl,
}
use isolation_server.Redis.{Redis, Laws}
use isolation_server.Redis.Expiry.{Expiry, ExpiryLaws}
use isolation_server.RedisService
use isolation_server.Session.{
  returned, undefined, Session, is_valid_session, stop_session, session_key_of,
  session_clients_key_of,
}
use isolation_server.Util.{counted, utf8_length}
use isolation_server.Session.{create_session}
use isolation_server.Common.{bytes_eq_iff}
use isolation_server.Common.Parse.{stoi-to_string}
use isolation_server.Session.Creation.{
  clients_key_ne, new_session, new_database, create_session_stored, created-host, created-name,
  created-max, created-password, created-join_code, created-clients, created_valid, created-ttl,
}
use isolation_server.Session.Info.{
  Environment, get_join_code, is_active_session, get_session_info, read_info, read_environment,
  environment_packet,
}

module _ {R : Redis} (L : Laws R) (s : Session) (db : R.Database) where
  stopped-hget : (f : Bytes) → R.hget s.session_key f (stop_session R s db) ≡ none
  unfolding stop_session
  stopped-hget f = ground (
    arith,
    L.hget-del s.session_clients_key s.session_key f (R.del s.session_key db).1,
    L.hget-del s.session_key s.session_key f db,
    bytes_eq_refl s.session_key,
  )

  stopped-exists : R.exists s.session_key (stop_session R s db) ≡ 0
  unfolding stop_session
  stopped-exists = ground (
    arith,
    L.exists-del s.session_clients_key s.session_key (R.del s.session_key db).1,
    L.exists-del s.session_key s.session_key db,
    bytes_eq_refl s.session_key,
  )

  -- After StopSession: GetSessionInfo returns false, the session is not active and has no join code,
  -- and the handler for REQUEST_ENVIRONMENT, which the clients keep, dereferences an empty optional.
  pub stopped_session :
      (type : ℕ) (serialize : Environment → Bytes) (host : Bool)
      → (get_session_info R s (stop_session R s db) ≡ returned none)
        × (is_active_session R s (stop_session R s db) ≡ false)
        × (get_join_code R s (stop_session R s db) ≡ [])
        × (environment_packet R s (stop_session R s db) type serialize host ≡ undefined)
  unfolding get_session_info is_valid_session is_active_session get_join_code environment_packet
  stopped_session type serialize host = (
    rw (stopped-exists, get_session_info) refl,
    rw (stopped-hget (text "hostToken"), is_active_session) refl,
    rw (stopped-hget (text "joinCode"), get_join_code) refl,
    rw (stopped-hget (text "name"), environment_packet) refl,
  )

-- The pairs of HSET leave another key as it is.
module _ {R : Redis} (L : Laws R) (k k' : Bytes) (other : bytes_eq k k' ≡ false) where
  hlen-hash_set_all :
      (pairs : List (Bytes × Bytes)) (db : R.Database)
      → R.hlen k' (RedisService.hash_set_all R k pairs db) ≡ R.hlen k' db
  unfolding RedisService.hash_set_all
  hlen-hash_set_all [] db = refl
  hlen-hash_set_all ((f, v) ∷ pairs) db =
      hlen-hash_set_all pairs (R.hset k f v db).1 ∙ ground (arith, other, L.hlen-hset k f v k' db)

  hget-hash_set_other :
      (f : Bytes) (pairs : List (Bytes × Bytes)) (db : R.Database)
      → R.hget k' f (RedisService.hash_set_all R k pairs db) ≡ R.hget k' f db
  unfolding RedisService.hash_set_all
  hget-hash_set_other f [] db = refl
  hget-hash_set_other f ((g, v) ∷ pairs) db =
      hget-hash_set_other f pairs (R.hset k g v db).1
      ∙ ground (arith, other, L.hget-hset k g v k' f db)

pub key_clients_ne :
    (token : ℕ) → bytes_eq (session_key_of token) (session_clients_key_of token) ≡ false
key_clients_ne token = ground (
  arith,
  clients_key_ne token,
  bytes_eq_iff (session_key_of token) (session_clients_key_of token),
  bytes_eq_refl (session_clients_key_of token),
)

module _ {R : Redis} (L : Laws R) (s : Session) (client max n : ℕ) (nickname name password : Bytes)
    (db : R.Database) where
  abbrev pairs : List (Bytes × Bytes)
  pairs =
      (text "hostToken", to_string client)
      ∷ (text "maxClientCount", to_string max)
      ∷ (text "name", name)
      ∷ (text "password", password)
      ∷ (text "joinCode", [])
      ∷ []

  abbrev s' : Session
  s' = new_session L s client max n nickname name password db

  abbrev db' : R.Database
  db' = new_database L s client max n nickname name password db

  pub one_client :
      R.hlen (session_clients_key_of s.token) db ≡ 0
      → R.hget (session_clients_key_of s.token) (to_string client) db ≡ none
      → R.hlen (session_clients_key_of s.token) db' ≡ 1
  one_client empty absent =
      let key = session_key_of s.token in
      let clients = session_clients_key_of s.token in
      let ne = key_clients_ne s.token in
      let stored = RedisService.hash_set_all R key pairs db in
      let fresh : R.hexists clients (to_string client) stored ≡ false =
        L.hexists-hget clients (to_string client) stored
        ∙ rw (hget-hash_set_other L key clients ne (to_string client) pairs db, absent) refl in
      L.hlen-expire _ _ _ _ (omega arith)
      ∙ L.hlen-expire _ _ _ _ (omega arith)
      ∙ L.hlen-hset clients (to_string client) nickname clients stored
      ∙ rw (bytes_eq_refl clients, fresh, hlen-hash_set_all L key clients ne pairs db, empty) refl

  info_read :
      max < 2 ^ 31
      → read_info R s' db' 1
        ≡ returned (
            some (record {
              name = name;
              max_client_count = max;
              client_count = 1;
              password = password;
              join_code = [];
            }))
  unfolding read_info
  info_read high =
      rw
        (
          created-name L s.token client max nickname name password db,
          read_info,
          created-max L s.token client max nickname name password db,
          stoi-to_string max high,
          created-password L s.token client max nickname name password db,
          created-join_code L s.token client max nickname name password db,
        )
        refl

  -- A client creates a session with a name of two characters or more, for at least one client and at
  -- most the greatest int, and no client is kept under the token of the session yet. Then
  -- GetSessionInfo gives the name, the maximum, the password, one client and an empty join code, the
  -- session is active, and the handler for REQUEST_ENVIRONMENT reads the name, the password and the
  -- empty join code; and both keys of the session expire in 180 seconds.
  pub created_session :
      {X : Expiry R} (XL : ExpiryLaws X) (host : Bool)
      → 0 < client
      → client < 2 ^ 64
      → 0 < max
      → max < 2 ^ 31
      → utf8_length name ≡ counted n
      → 2 ≤ n
      → R.hlen (session_clients_key_of s.token) db ≡ 0
      → R.hget (session_clients_key_of s.token) (to_string client) db ≡ none
      → (s' : Session) × (db' : R.Database) × (create_session R s
            (some (client, nickname))
            max
            name
            password
            db
          ≡ returned (none, s', db'))
        × (get_session_info R s' db'
            ≡ returned (
                some (record {
                  name = name;
                  max_client_count = max;
                  client_count = 1;
                  password = password;
                  join_code = [];
                })))
        × (is_active_session R s' db' ≡ true)
        × (read_environment R s' db' host
            ≡ returned
                (record { session_name = name; join_code = []; password = password; host = host }))
        × (X.ttl s'.session_key db' ≡ some 180)
        × (X.ttl s'.session_clients_key db' ≡ some 180)
  unfolding get_session_info read_info is_active_session read_environment
  created_session XL host low high some_clients max_high count long empty absent = (
    s',
    db',
    create_session_stored L s client max n nickname name password db (λ e. omega (arith, e)) count
        long,
    rw
        (
          created_valid L s.token client max nickname name password db low high,
          get_session_info,
          one_client empty absent,
          info_read max_high,
        )
        refl,
    rw
        (
          created-host L s.token client max nickname name password db,
          L.hexists-hget _ _ _,
          created-clients L s.token client max nickname name password db,
          is_active_session,
        )
        refl,
    rw
        (
          created-name L s.token client max nickname name password db,
          created-join_code L s.token client max nickname name password db,
          created-password L s.token client max nickname name password db,
          read_environment,
        )
        refl,
    (created-ttl L s.token client max nickname name password db XL).0,
    (created-ttl L s.token client max nickname name password db XL).1,
  )
