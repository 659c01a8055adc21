-- ===== src/Session/Creation.antt =====
-- CreateSession, and the entry of the client that created the session.
use isolation_server.Common.{
  ℕ, ◌≤◌, ◌<◌, ◌^◌, ◌≡◌, ◌≢◌, refl, sym, ◌∙◌, ap, Bool, true, false, List, [], ◌∷◌, Option, none,
  some, Bytes, text, to_string, ==_iff, lt→ltb, ltb→lt, if◌then◌else◌, arith, Bool-cases, inl, inr,
  bytes_eq, bytes_eq_iff, bytes_eq_refl, length, length-append,
}
use isolation_server.Common.Parse.{stoull-to_string}
use isolation_server.Util.{counted, utf8_length}
use isolation_server.Redis.{Redis, Laws}
use isolation_server.Redis.Derived.{hget-hset_self}
use isolation_server.Redis.Expiry.{Expiry, ExpiryLaws}
use isolation_server.RedisService
use isolation_server.Server.Keys.{client_key}
use isolation_server.Session.{
  returned, Session, join_code, request_environment, entered, is_valid_session, add_client,
  add_checked, add_host, admit, create_session, session_key_of, session_clients_key_of,
}

-- What the last pair for a field says, or else the value before.
last_of : Bytes → List (Bytes × Bytes) → Option Bytes → Option Bytes
last_of f [] o = o
last_of f ((g, v) ∷ pairs) o = last_of f pairs (if bytes_eq g f then some v else o)

module _ {R : Redis} (L : Laws R) where
  hget-hash_set_all :
      (k f : Bytes) (pairs : List (Bytes × Bytes)) (db : R.Database)
      → R.hget k f (RedisService.hash_set_all R k pairs db) ≡ last_of f pairs (R.hget k f db)
  unfolding RedisService.hash_set_all last_of
  hget-hash_set_all k f [] db = refl
  hget-hash_set_all k f ((g, v) ∷ pairs) db =
      hget-hash_set_all k f pairs (R.hset k g v db).1
      ∙ ap (last_of f pairs) (L.hget-hset k g v k f db ∙ rw (bytes_eq_refl k) refl)

pub clients_key_ne :
    (token : ℕ) → bytes_eq (session_clients_key_of token) (session_key_of token) ≡ false
clients_key_ne token =
    elim (Bool-cases (bytes_eq (session_clients_key_of token) (session_key_of token))) [
      | inl same ↦ absurd (
          omega (
            arith,
            ap length ((bytes_eq_iff (session_clients_key_of token) (session_key_of token)).0 same),
            length-append {0} (session_key_of token) (text ":clients"),
          ))
      | inr other ↦ other
    ]

module _ {R : Redis} (L : Laws R) (token client max : ℕ) (nickname name password : Bytes)
    (db : R.Database) where
  -- The fields of a new session, and then the timeouts of its keys.
  abbrev pub filled : R.Database
  filled =
      let key = session_key_of token in
      let clients = session_clients_key_of token in
      let db1 =
        RedisService.hash_set_all R key
          ((text "hostToken", to_string client)
            ∷ (text "maxClientCount", to_string max)
            ∷ (text "name", name)
            ∷ (text "password", password)
            ∷ (text "joinCode", [])
            ∷ [])
          db in
      (R.hset clients (to_string client) nickname db1).1

  abbrev pub created : R.Database
  created =
      (R.expire (session_clients_key_of token) 180 (R.expire (session_key_of token) 180 filled).1).1

  pub created-exists : (k : Bytes) → R.exists k created ≡ R.exists k filled
  created-exists k = L.exists-expire _ _ _ _ (omega arith) ∙ L.exists-expire _ _ _ _ (omega arith)

  created-hget :
      (f : Bytes)
      → R.hget (session_key_of token) f created
        ≡ last_of f
            ((text "hostToken", to_string client)
              ∷ (text "maxClientCount", to_string max)
              ∷ (text "name", name)
              ∷ (text "password", password)
              ∷ (text "joinCode", [])
              ∷ [])
            (R.hget (session_key_of token) f db)
  created-hget f =
      L.hget-expire _ _ _ _ _ (omega arith)
      ∙ L.hget-expire _ _ _ _ _ (omega arith)
      ∙ L.hget-hset _ _ _ _ _ _
      ∙ rw (clients_key_ne token) (hget-hash_set_all L _ f _ db)

  abbrev pub session : Session
  session = record {
    token = token;
    session_key = session_key_of token;
    session_clients_key = session_clients_key_of token;
  }

  field_there :
      (f v : Bytes)
      → R.hget (session_key_of token) f created ≡ some v
      → R.hexists (session_key_of token) f created ≡ true
  field_there f v e = L.hexists-hget _ _ _ ∙ rw e refl

  pub created-host :
      R.hget (session_key_of token) (text "hostToken") created ≡ some (to_string client)
  unfolding last_of bytes_eq
  created-host = created-hget (text "hostToken")

  pub created-name : R.hget (session_key_of token) (text "name") created ≡ some name
  unfolding last_of bytes_eq
  created-name = created-hget (text "name")

  pub created-max :
      R.hget (session_key_of token) (text "maxClientCount") created ≡ some (to_string max)
  unfolding last_of bytes_eq
  created-max = created-hget (text "maxClientCount")

  pub created-password : R.hget (session_key_of token) (text "password") created ≡ some password
  unfolding last_of bytes_eq
  created-password = created-hget (text "password")

  pub created-join_code : R.hget (session_key_of token) (text "joinCode") created ≡ some []
  unfolding last_of bytes_eq
  created-join_code = created-hget (text "joinCode")

  pub created-clients :
      R.hget (session_clients_key_of token) (to_string client) created ≡ some nickname
  created-clients =
      L.hget-expire _ _ _ _ _ (omega arith)
      ∙ L.hget-expire _ _ _ _ _ (omega arith)
      ∙ hget-hset_self L _ _ _ _

  -- Both keys expire in 180 seconds.
  pub created-ttl :
      {X : Expiry R}
      → ExpiryLaws X
      → (X.ttl (session_key_of token) created ≡ some 180)
        × (X.ttl (session_clients_key_of token) created ≡ some 180)
  created-ttl XL =
      let key = session_key_of token in
      let clients = session_clients_key_of token in
      let key_there : 0 < R.exists key filled =
        rw (sym (created-exists key)) (L.exists-hget _ _ _ _ created-host) in
      let clients_there : 0 < R.exists clients (R.expire key 180 filled).1 =
        rw (sym (L.exists-expire clients clients 180 (R.expire key 180 filled).1 (omega arith)))
          (L.exists-hget _ _ _ _ created-clients) in
      (
        XL.ttl-expire clients key 180 (R.expire key 180 filled).1 (omega arith) clients_there
            ∙ rw (clients_key_ne token) (
                XL.ttl-expire key key 180 filled (omega arith) key_there
                ∙ rw (bytes_eq_refl key) refl),
        XL.ttl-expire clients clients 180 (R.expire key 180 filled).1 (omega arith) clients_there
            ∙ rw (bytes_eq_refl clients) refl,
      )

  pub created_valid : 0 < client → client < 2 ^ 64 → is_valid_session R session created ≡ none
  unfolding is_valid_session
  created_valid low high = ground (
    arith,
    lt→ltb _ _ (L.exists-hget _ _ _ _ created-host),
    lt→ltb _ _ (L.exists-hget _ _ _ _ created-clients),
    field_there _ _ created-host,
    field_there _ _ created-max,
    field_there _ _ created-name,
    field_there _ _ created-password,
    field_there _ _ created-join_code,
    created-host,
    stoull-to_string client high,
    ==_iff client 0,
  )

exists-hash_set_all :
    {R : Redis} (L : Laws R) (k k' : Bytes) (pairs : List (Bytes × Bytes)) (db : R.Database)
    → 0 < R.exists k' db
    → 0 < R.exists k' (RedisService.hash_set_all R k pairs db)
unfolding RedisService.hash_set_all
exists-hash_set_all L k k' [] db h = h
exists-hash_set_all {R} L k k' ((f, v) ∷ pairs) db h =
    exists-hash_set_all L k k' pairs (R.hset k f v db).1 (ground (arith, L.exists-hset k f v k' db))

at_least : (b : Bool) {n : ℕ} → 0 < n → 0 < (if b then 1 else n)
at_least true h = omega arith
at_least false h = h

module _ {R : Redis} (L : Laws R) (s : Session) (client max n : ℕ) (nickname name password : Bytes)
    (db : R.Database) where
  abbrev pub new_session : Session
  new_session = session L s.token client max nickname name password db

  abbrev pub new_database : R.Database
  new_database = created L s.token client max nickname name password db

  pub client_still_known :
      RedisService.exists R (client_key client) db ≡ true
      → RedisService.exists R (client_key client) new_database ≡ true
  client_still_known known = lt→ltb _ _ (
      rw
        (
          created-exists L s.token client max nickname name password db (client_key client),
          L.exists-hset,
        )
        (at_least (bytes_eq (session_clients_key_of s.token) (client_key client))
          (exists-hash_set_all L _ _ _ _ (ltb→lt _ _ known))))

  pub create_session_stored :
      max ≢ 0
      → utf8_length name ≡ counted n
      → 2 ≤ n
      → create_session R s (some (client, nickname)) max name password db
        ≡ returned (none, new_session, new_database)
  unfolding create_session
  create_session_stored some_clients count long =
      rw (count, create_session) (ground (arith, some_clients, ==_iff max 0))

  -- A client creates a session with a name of two characters or more, for at least one client: it
  -- then enters that session as its host, where its own key is in the database and its token is a
  -- number from 1 to 2 ^ 64 - 1.
  pub creator_enters :
      0 < client
      → client < 2 ^ 64
      → RedisService.exists R (client_key client) db ≡ true
      → max ≢ 0
      → utf8_length name ≡ counted n
      → 2 ≤ n
      → (s' : Session) × (db' : R.Database) × (db'' : R.Database) × (create_session R s
            (some (client, nickname))
            max
            name
            password
            db
          ≡ returned (none, s', db'))
        × (add_client R s' client nickname db'
            ≡ returned (entered (join_code ∷ request_environment true ∷ []), db''))
  unfolding add_client add_checked add_host admit
  creator_enters low high known some_clients count long = (
    new_session,
    new_database,
    (R.hset new_session.session_clients_key (to_string client) nickname
        (R.persist new_session.session_clients_key
          (R.persist new_session.session_key new_database).1).1).1,
    create_session_stored some_clients count long,
    ground (
      arith,
      client_still_known known,
      created_valid L s.token client max nickname name password db low high,
      created-host L s.token client max nickname name password db,
      stoull-to_string client high,
      ==_iff client client,
    ),
  )
