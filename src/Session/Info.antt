-- ===== src/Session/Info.antt =====
-- What deprecated/session.cpp reads of a session: GetJoinCode, IsActiveSession, GetSessionInfo, and the
-- answer of the handler for REQUEST_ENVIRONMENT that AddClient registers.
pub mod Created
use isolation_server.Common.{
  ℕ, ◌+◌, Bool, true, false, List, [], ◌∷◌, ◌++◌, Option, none, some, Bytes, text, ◌==◌, length,
  if◌then◌else◌,
}
use isolation_server.Common.Parse.{stoi}
use isolation_server.Redis.{Redis}
use isolation_server.RedisService
use isolation_server.Util.{append_prot_packet}
use isolation_server.Util.Words.{to_int}
use isolation_server.Session.{Outcome, returned, ◌>>=◌, deref, parsed, Session, is_valid_session}

-- The parameters of GetSessionInfo, where it returns true.
pub record SessionInfo : Type 0 where
  pub name : Bytes
  pub max_client_count : ℕ
  pub client_count : ℕ
  pub password : Bytes
  pub join_code : Bytes

-- M_Environment
pub record Environment : Type 0 where
  pub session_name : Bytes
  pub join_code : Bytes
  pub password : Bytes
  pub host : Bool

module _ (R : Redis) (s : Session) (db : R.Database) where
  abbrev pub field : Bytes → Option Bytes
  field f = RedisService.hash_get R s.session_key f db

  unfoldable pub get_join_code : Bytes
  get_join_code = elim (field (text "joinCode")) [ none ↦ [] | some code ↦ code ]

  unfoldable pub is_active_session : Bool
  is_active_session = elim (field (text "hostToken")) [
    | none ↦ false
    | some token ↦ RedisService.hash_field_exists R s.session_clients_key token db
  ]

  -- GetSessionInfo behind the test of the client count.
  unfoldable pub read_info : ℕ → Outcome (Option SessionInfo)
  read_info client_count = elim (field (text "name")) [
    | none ↦ returned none
    | some name ↦ elim (field (text "maxClientCount")) [
      | none ↦ returned none
      | some max ↦ parsed (stoi max) >>= λ max_client_count. elim (field (text "password")) [
        | none ↦ returned none
        | some password ↦ elim (field (text "joinCode")) [
          | none ↦ returned none
          | some join_code ↦ returned (
              some (record {
                name = name;
                max_client_count = max_client_count;
                client_count = client_count;
                password = password;
                join_code = join_code;
              }))
        ]
      ]
    ]
  ]

  -- GetSessionInfo; none where it returns false. The client count is cut to an `int`.
  unfoldable pub get_session_info : Outcome (Option SessionInfo)
  unfolding read_info
  get_session_info = elim (is_valid_session R s db) [
    | some reason ↦ returned none
    | none ↦
        let client_count = to_int (RedisService.hash_len R s.session_clients_key db) in
        if client_count == 0 then returned none else read_info client_count
  ]

  -- GetSessionInfo with its parameters as it leaves them: each is written where its value is read,
  -- also where a later one is missing.
  unfoldable pub write_info : ℕ → SessionInfo → Outcome (Bool × SessionInfo)
  write_info client_count old = elim (field (text "name")) [
    | none ↦ returned (false, record old { client_count = client_count })
    | some name ↦ elim (field (text "maxClientCount")) [
      | none ↦ returned (false, record old { client_count = client_count; name = name })
      | some max ↦ parsed (stoi max) >>= λ max_client_count.
          let known = record old {
            client_count = client_count;
            name = name;
            max_client_count = max_client_count;
          } in
          elim (field (text "password")) [
            | none ↦ returned (false, known)
            | some password ↦ elim (field (text "joinCode")) [
              | none ↦ returned (false, record known { password = password })
              | some join_code ↦
                  returned (true, record known { password = password; join_code = join_code })
            ]
          ]
    ]
  ]

  unfoldable pub get_session_info_into : SessionInfo → Outcome (Bool × SessionInfo)
  unfolding write_info
  get_session_info_into old = elim (is_valid_session R s db) [
    | some reason ↦ returned (false, old)
    | none ↦
        let client_count = to_int (RedisService.hash_len R s.session_clients_key db) in
        if client_count == 0
        then returned (false, record old { client_count = client_count })
        else write_info client_count old
  ]

  -- What the handler for REQUEST_ENVIRONMENT reads.
  unfoldable pub read_environment : (host : Bool) → Outcome Environment
  read_environment host = deref (field (text "name")) >>= λ name.
      deref (field (text "joinCode")) >>= λ join_code.
      deref (field (text "password")) >>= λ password.
      returned
        (record { session_name = name; join_code = join_code; password = password; host = host })

  -- The packet that the handler posts, for the generated number and serializer.
  unfoldable pub environment_packet :
      (type : ℕ) → (serialize : Environment → Bytes) → (host : Bool) → Outcome Bytes
  unfolding read_environment
  environment_packet type serialize host = read_environment host >>= λ env.
      returned (append_prot_packet [] type (length (serialize env) + 12) ++ serialize env)
