-- ===== src/Session/Kept.antt =====
-- A session that is kept in redis, with its host in it: what the calls of deprecated/session.cpp do then.
use isolation_server.Common.{
  ℕ, ◌^◌, ◌<◌, ◌≡◌, refl, ◌∙◌, true, false, [], ◌∷◌, none, some, Bytes, text, to_string, ==_iff,
  lt→ltb, arith, bytes_eq, bytes_eq_refl,
}
use isolation_server.Common.Parse.{stoull-to_string, stoi-to_string}
use isolation_server.Redis.{Redis, Laws}
use isolation_server.Redis.Derived.{hget-hset_self, hget-hset_field}
use isolation_server.RedisService
use isolation_server.Server.Keys.{client_key}
use isolation_server.Session.{
  returned, Session, join_code, request_environment, entered, is_valid_session, set_host_join_code,
  add_client, add_checked, add_host, admit,
}
use isolation_server.Session.Info.{get_session_info, read_info}

-- The session `s` of a host, for `max` clients; the two keys differ.
pub record IsKept (R : Redis) (s : Session) (host max : ℕ) (nickname name password code : Bytes)
    (db : R.Database) : Type 0 where
  pub host_token : R.hget s.session_key (text "hostToken") db ≡ some (to_string host)
  pub max_client_count : R.hget s.session_key (text "maxClientCount") db ≡ some (to_string max)
  pub named : R.hget s.session_key (text "name") db ≡ some name
  pub locked : R.hget s.session_key (text "password") db ≡ some password
  pub joined : R.hget s.session_key (text "joinCode") db ≡ some code
  pub inside : R.hget s.session_clients_key (to_string host) db ≡ some nickname
  pub one : R.hlen s.session_clients_key db ≡ 1
  pub known : RedisService.exists R (client_key host) db ≡ true

-- The database after the host has sent a join code, and after it has entered.
abbrev pub coded : (R : Redis) → Session → (code : Bytes) → R.Database → R.Database
coded R s code db = (R.hset s.session_key (text "joinCode") code db).1

abbrev pub hosted :
    (R : Redis) → Session → (host : ℕ) → (nickname : Bytes) → R.Database → R.Database
hosted R s host nickname db =
    (R.hset s.session_clients_key (to_string host) nickname
      (R.persist s.session_clients_key (R.persist s.session_key db).1).1).1

module _ {R : Redis} (L : Laws R) (s : Session) (host max : ℕ) (nickname name password : Bytes)
    (ne : bytes_eq s.session_clients_key s.session_key ≡ false)
    (en : bytes_eq s.session_key s.session_clients_key ≡ false) where
  abbrev pub Kept : Bytes → R.Database → Type 0
  Kept = IsKept R s host max nickname name password

  module _ (code : Bytes) (db : R.Database) (k : Kept code db) where
    has_field :
        (f v : Bytes) → R.hget s.session_key f db ≡ some v → R.hexists s.session_key f db ≡ true
    has_field f v e = L.hexists-hget _ _ _ ∙ rw e refl

    is_valid_session-IsKept : 0 < host → host < 2 ^ 64 → is_valid_session R s db ≡ none
    unfolding is_valid_session
    is_valid_session-IsKept low high = ground (
      arith,
      lt→ltb _ _ (L.exists-hget _ _ _ _ k.host_token),
      lt→ltb _ _ (L.exists-hget _ _ _ _ k.inside),
      has_field _ _ k.host_token,
      has_field _ _ k.max_client_count,
      has_field _ _ k.named,
      has_field _ _ k.locked,
      has_field _ _ k.joined,
      k.host_token,
      stoull-to_string host high,
      ==_iff host 0,
    )

    read_info-IsKept :
        max < 2 ^ 31
        → read_info R s db 1
          ≡ returned (
              some (record {
                name = name;
                max_client_count = max;
                client_count = 1;
                password = password;
                join_code = code;
              }))
    unfolding read_info
    read_info-IsKept high =
        rw (k.named, read_info, k.max_client_count, stoi-to_string max high, k.locked, k.joined)
          refl

    -- GetSessionInfo gives what is kept.
    pub get_session_info-IsKept :
        0 < host
        → host < 2 ^ 64
        → max < 2 ^ 31
        → get_session_info R s db
          ≡ returned (
              some (record {
                name = name;
                max_client_count = max;
                client_count = 1;
                password = password;
                join_code = code;
              }))
    unfolding get_session_info
    get_session_info-IsKept low high max_high =
        rw (is_valid_session-IsKept low high, get_session_info, k.one, read_info-IsKept max_high)
          refl

    field_coded :
        (code' f v : Bytes)
        → bytes_eq (text "joinCode") f ≡ false
        → R.hget s.session_key f db ≡ some v
        → R.hget s.session_key f (coded R s code' db) ≡ some v
    field_coded code' f v other e =
        hget-hset_field L s.session_key (text "joinCode") db f code' other ∙ e

    coded-IsKept : (code' : Bytes) → Kept code' (coded R s code' db)
    unfolding bytes_eq
    coded-IsKept code' = record {
      host_token = field_coded code' _ _ refl k.host_token;
      max_client_count = field_coded code' _ _ refl k.max_client_count;
      named = field_coded code' _ _ refl k.named;
      locked = field_coded code' _ _ refl k.locked;
      joined = hget-hset_self L _ _ _ _;
      inside = L.hget-hset _ _ _ _ _ _ ∙ rw en k.inside;
      one = L.hlen-hset _ _ _ _ _ ∙ rw en k.one;
      known = ground (
        arith,
        k.known,
        L.exists-hset s.session_key (text "joinCode") code' (client_key host) db,
      );
    }

    -- The host sends a join code.
    pub set_host_join_code-IsKept :
        (code' : Bytes)
        → host < 2 ^ 64
        → (set_host_join_code R s host code' db ≡ returned (true, coded R s code' db))
          × Kept code' (coded R s code' db)
    unfolding set_host_join_code
    set_host_join_code-IsKept code' high = (
      ground (arith, k.host_token, stoull-to_string host high, ==_iff host host),
      coded-IsKept code',
    )

    persisted :
        (k' f : Bytes)
        → R.hget k' f (R.persist s.session_clients_key (R.persist s.session_key db).1).1
          ≡ R.hget k' f db
    persisted k' f = L.hget-persist _ _ _ _ ∙ L.hget-persist _ _ _ _

    field_hosted :
        (f v : Bytes)
        → R.hget s.session_key f db ≡ some v
        → R.hget s.session_key f (hosted R s host nickname db) ≡ some v
    field_hosted f v e = L.hget-hset _ _ _ _ _ _ ∙ rw ne (persisted s.session_key f ∙ e)

    hosted-IsKept : Kept code (hosted R s host nickname db)
    hosted-IsKept =
        let db2 = (R.persist s.session_clients_key (R.persist s.session_key db).1).1 in
        let there : R.hexists s.session_clients_key (to_string host) db2 ≡ true =
          L.hexists-hget _ _ _
          ∙ rw (persisted s.session_clients_key (to_string host), k.inside) refl in
        record {
          host_token = field_hosted _ _ k.host_token;
          max_client_count = field_hosted _ _ k.max_client_count;
          named = field_hosted _ _ k.named;
          locked = field_hosted _ _ k.locked;
          joined = field_hosted _ _ k.joined;
          inside = hget-hset_self L _ _ _ _;
          one =
              L.hlen-hset s.session_clients_key (to_string host) nickname s.session_clients_key db2
              ∙ rw (there, bytes_eq_refl s.session_clients_key)
                  (L.hlen-persist _ _ _ ∙ L.hlen-persist _ _ _ ∙ k.one);
          known = ground (
            arith,
            k.known,
            L.exists-hset s.session_clients_key (to_string host) nickname (client_key host) db2,
            L.exists-persist s.session_clients_key (client_key host) (R.persist s.session_key db).1,
            L.exists-persist s.session_key (client_key host) db,
          );
        }

    -- The host enters.
    pub add_client-IsKept :
        0 < host
        → host < 2 ^ 64
        → (add_client R s host nickname db
            ≡ returned
                (entered (join_code ∷ request_environment true ∷ []), hosted R s host nickname db))
          × Kept code (hosted R s host nickname db)
    unfolding add_client add_checked add_host admit
    add_client-IsKept low high = (
      ground (
        arith,
        k.known,
        is_valid_session-IsKept low high,
        k.host_token,
        stoull-to_string host high,
        ==_iff host host,
      ),
      hosted-IsKept,
    )
