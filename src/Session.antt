-- ===== src/Session.antt =====
-- deprecated/session.h and deprecated/session.cpp: a session of the earlier game server, which keeps what
-- it knows in redis. `R` is the redis server; a client is its token and its nickname. The lines
-- printed to the log are left out.
pub mod Info
pub mod Kept
pub mod Entry
pub mod Creation
pub mod Capacity
use isolation_server.Common.{
  ℕ, ◌+◌, ◌*◌, ◌%◌, ◌^◌, Bool, true, false, not, ◌||◌, ◌++◌, List, [], ◌∷◌, Option, none, some,
  Bytes, text, to_string, ◌==◌, ltb, if◌then◌else◌,
}
use isolation_server.Common.Parse.{Parsed, number, invalid_argument, out_of_range, stoull}
use isolation_server.Redis.{Redis}
use isolation_server.RedisService
use isolation_server.Util.{Count, counted, invalid, unfinished, utf8_length}
use isolation_server.Server.Keys.{client_key}

-- How a call ends: it returns, an exception leaves it, or it does something undefined.
pub data Outcome (A : Type 0) : Type 0 where
  returned : A → Outcome A
  threw : Outcome A
  undefined : Outcome A

infixl 5 ◌>>=◌
abbrev pub ◌>>=◌ : {A B : Type 0} → Outcome A → (A → Outcome B) → Outcome B
returned a >>= f = f a
threw >>= f = threw
undefined >>= f = undefined

-- `*` of an optional.
abbrev pub deref : Option Bytes → Outcome Bytes
deref none = undefined
deref (some value) = returned value

abbrev pub parsed : Parsed → Outcome ℕ
parsed (number n) = returned n
parsed invalid_argument = threw
parsed out_of_range = threw

pub record Session : Type 0 where
  pub token : ℕ
  pub session_key : Bytes
  pub session_clients_key : Bytes

-- The texts that go into `reason`, one constructor for each place that sets it.
pub data Reason : Type 0 where
  client_is_invalid max_client_count_is_zero name_too_short : Reason
  user_key_unknown session_key_unknown session_incomplete : Reason
  host_token_unknown host_token_is_zero host_token_invalid host_token_out_of_range : Reason
  session_clients_key_unknown host_not_in_session invalid_session session_is_full : Reason

-- The packet handlers that AddClient registers with a client; the second one knows whether the
-- client is the host.
pub data Handler : Type 0 where
  join_code : Handler
  request_environment : Bool → Handler

-- What AddClient answers.
pub data Answer : Type 0 where
  entered : List Handler → Answer
  refused : Reason → Answer

-- The sessions key of a session with a token, and the key of its clients.
abbrev pub session_key_of : ℕ → Bytes
session_key_of token = text "session:" ++ to_string token

abbrev pub session_clients_key_of : ℕ → Bytes
session_clients_key_of token = session_key_of token ++ text ":clients"

module _ (R : Redis) where
  open R use {Database}

  -- SetHostJoinCode, for a sender with a token.
  unfoldable pub set_host_join_code :
      Session → (sender : ℕ) → (join_code : Bytes) → Database → Outcome (Bool × Database)
  set_host_join_code s sender code db =
      elim (RedisService.hash_get R s.session_key (text "hostToken") db) [
        | none ↦ returned (false, db)
        | some token ↦ parsed (stoull token) >>= λ host.
            if host == sender
            then returned
                (true, (RedisService.hash_set R s.session_key (text "joinCode") code db).1)
            else returned (false, db)
      ]

  abbrev pub lacks : Session → Bytes → Database → Bool
  lacks s field db = not (RedisService.hash_field_exists R s.session_key field db)

  -- The try block of IsValidSession.
  abbrev pub host_token_reason : Parsed → Option Reason
  host_token_reason (number n) = if n == 0 then some host_token_is_zero else none
  host_token_reason invalid_argument = some host_token_invalid
  host_token_reason out_of_range = some host_token_out_of_range

  abbrev pub clients_reason : Session → Database → Option Reason → Option Reason
  clients_reason s db (some reason) = some reason
  clients_reason s db none =
      if not (RedisService.exists R s.session_clients_key db)
      then some session_clients_key_unknown
      else none

  -- IsValidSession: the reason where it returns false.
  unfoldable pub is_valid_session : Session → Database → Option Reason
  is_valid_session s db =
      if not (RedisService.exists R s.session_key db)
      then some session_key_unknown
      else if lacks s (text "hostToken") db
          || lacks s (text "maxClientCount") db
          || lacks s (text "name") db
          || lacks s (text "password") db
          || lacks s (text "joinCode") db
      then some session_incomplete
      else elim (RedisService.hash_get R s.session_key (text "hostToken") db) [
        | none ↦ some host_token_unknown
        | some token ↦ clients_reason s db (host_token_reason (stoull token))
      ]

  -- CreateSession, for a client (none for a null pointer) with a token and a nickname.
  unfoldable pub create_session :
      Session
      → (client : Option (ℕ × Bytes)) → (max_client_count : ℕ) → (name password : Bytes) → Database
      → Outcome (Option Reason × Session × Database)
  create_session s none max_client_count name password db = returned (some client_is_invalid, s, db)
  create_session s (some (token, nickname)) max_client_count name password db =
      if max_client_count == 0
      then returned (some max_client_count_is_zero, s, db)
      else elim (utf8_length name) [
        | invalid ↦ threw
        | unfinished ↦ undefined
        | counted n ↦
            if ltb n 2
            then returned (some name_too_short, s, db)
            else (let key = session_key_of s.token in
                let clients = session_clients_key_of s.token in
                let db1 =
                  RedisService.hash_set_all R key
                    ((text "hostToken", to_string token)
                      ∷ (text "maxClientCount", to_string max_client_count)
                      ∷ (text "name", name)
                      ∷ (text "password", password)
                      ∷ (text "joinCode", [])
                      ∷ [])
                    db in
                let db2 = (RedisService.hash_set R clients (to_string token) nickname db1).1 in
                let db3 = (RedisService.expire R key 3 db2).1 in
                let db4 = (RedisService.expire R clients 3 db3).1 in
                returned (none, record s { session_key = key; session_clients_key = clients }, db4))
      ]

  -- The end of AddClient: the second handler, and the client among the clients of the session.
  unfoldable pub admit :
      Session
      → (token : ℕ) → (nickname : Bytes) → Bool
      → List Handler
      → Database
      → Outcome (Answer × Database)
  admit s token nickname host handlers db = returned (
    entered (handlers ++ request_environment host ∷ []),
    (RedisService.hash_set R s.session_clients_key (to_string token) nickname db).1,
  )

  -- AddClient for a client that is not the host, from its first check on.
  unfoldable pub add_guest :
      Session
      → (host_token : Bytes) → (token : ℕ) → (nickname : Bytes) → Database
      → Outcome (Answer × Database)
  unfolding admit
  add_guest s host_token token nickname db =
      elim (RedisService.hash_get R s.session_clients_key host_token db) [
        | none ↦ returned (refused host_not_in_session, db)
        | some host_nickname ↦
            elim (RedisService.hash_get R s.session_key (text "maxClientCount") db) [
              | none ↦ returned (refused invalid_session, db)
              | some mcc ↦ parsed (stoull mcc) >>= λ max.
                  if ltb max (RedisService.hash_len R s.session_clients_key db)
                  then returned (refused session_is_full, db)
                  else admit s token nickname false [] db
            ]
      ]

  -- AddClient for the host.
  unfoldable pub add_host :
      Session → (token : ℕ) → (nickname : Bytes) → Database → Outcome (Answer × Database)
  unfolding admit
  add_host s token nickname db =
      let db1 = (RedisService.persist R s.session_key db).1 in
      let db2 = (RedisService.persist R s.session_clients_key db1).1 in
      admit s token nickname true (join_code ∷ []) db2

  -- AddClient after IsValidSession.
  unfoldable pub add_checked :
      Session → (token : ℕ) → (nickname : Bytes) → Database → Outcome (Answer × Database)
  unfolding add_guest add_host
  add_checked s token nickname db =
      deref (RedisService.hash_get R s.session_key (text "hostToken") db) >>= λ host_token.
      parsed (stoull host_token) >>= λ host.
      if host == token
      then add_host s token nickname db
      else add_guest s host_token token nickname db

  -- AddClient, for a client that is not null, with a token and a nickname.
  unfoldable pub add_client :
      Session → (token : ℕ) → (nickname : Bytes) → Database → Outcome (Answer × Database)
  unfolding is_valid_session add_checked
  add_client s token nickname db =
      if not (RedisService.exists R (client_key token) db)
      then returned (refused user_key_unknown, db)
      else elim (is_valid_session s db) [
        | some reason ↦ returned (refused reason, db)
        | none ↦ add_checked s token nickname db
      ]

  -- StopSession.
  unfoldable pub stop_session : Session → Database → Database
  stop_session s db =
      let db1 = (RedisService.del R s.session_key db).1 in
      (RedisService.del R s.session_clients_key db1).1
