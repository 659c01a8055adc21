-- ===== src/Lobby.antt =====
-- deprecated/lobbyManager.cpp: the sessions of the lobby. A session is in `_emptySessions` until its
-- host sends its join code, and in `_sessions` from then on. An index, an `int`, is here the number
-- index + 2 ^ 31; what the constructor leaves in the counter is not known.
pub mod Lifecycle
pub mod List
pub mod Entry
pub mod Requests
use isolation_server.Common.{
  ℕ, ◌+◌, ◌-◌, ◌^◌, Bool, true, false, [], Option, none, some, Bytes, ◌==◌, if◌then◌else◌,
}
use isolation_server.Common.Map
use isolation_server.Common.Map.{Map}
use isolation_server.Redis.{Redis}
use isolation_server.Session
use isolation_server.Session.{Outcome, returned, undefined, ◌>>=◌, Session, Reason, Answer}

pub record Lobby : Type 0 where
  pub session_index_counter : ℕ
  pub empty_sessions : Map Session
  pub sessions : Map Session

-- The response to a request to enter a session.
pub data EntryResponse : Type 0 where
  answered : Answer → EntryResponse
  invalid_session_index parsing_error : EntryResponse

-- The greatest `int`.
abbrev pub int_max : ℕ
int_max = 2 ^ 32 - 1

-- ActivateSession
unfoldable pub activate_session : ℕ → Lobby → Lobby
activate_session index l = elim (Map.find index l.empty_sessions) [
  | none ↦ l
  | some s ↦ record l {
    sessions = Map.insert index s l.sessions;
    empty_sessions = Map.erase index l.empty_sessions;
  }
]

module _ (R : Redis) where
  open R use {Database}

  -- The end of CreateSession; a session that was refused is destroyed. The increment of the counter
  -- overflows at the greatest `int`.
  unfoldable pub keep_session :
      Lobby → Option Reason → Session → Database → Outcome (ℕ × Option Reason × Lobby × Database)
  keep_session l (some reason) s db =
      returned (2 ^ 31 - 1, some reason, l, Session.stop_session R s db)
  keep_session l none s db =
      if l.session_index_counter == int_max
      then undefined
      else (let index = l.session_index_counter + 1 in
          returned (
            index,
            none,
            record l {
              session_index_counter = index;
              empty_sessions = Map.insert index s l.empty_sessions;
            },
            db,
          ))

  -- CreateSession, where the token pool gives a token to the new session: the index, -1 for a
  -- refusal, and its reason.
  unfoldable pub create_session :
      (token : ℕ)
      → (client : Option (ℕ × Bytes)) → (name password : Bytes) → Lobby
      → Database
      → Outcome (ℕ × Option Reason × Lobby × Database)
  unfolding keep_session
  create_session token client name password l db =
      Session.create_session R
        (record { token = token; session_key = []; session_clients_key = [] }) client 4 name
        password db
      >>= λ result. keep_session l (result.0) (result.1) (result.2)

  -- HandleRequestSessionEnter, for the index of a message (none for one that does not parse) and a
  -- client with a token and a nickname.
  unfoldable pub enter_session :
      Option ℕ
      → (token : ℕ) → (nickname : Bytes) → Lobby
      → Database
      → Outcome (EntryResponse × Database)
  enter_session none token nickname l db = returned (parsing_error, db)
  enter_session (some index) token nickname l db = elim (Map.find index l.empty_sessions) [
    | some s ↦ Session.add_client R s token nickname db >>= λ a. returned (answered (a.0), a.1)
    | none ↦ elim (Map.find index l.sessions) [
      | some s ↦ Session.add_client R s token nickname db >>= λ a. returned (answered (a.0), a.1)
      | none ↦ returned (invalid_session_index, db)
    ]
  ]

  -- The handler of a join code that AddClient registers with the host, with the callback that
  -- CreateSession sets.
  unfoldable pub receive_join_code :
      (index : ℕ)
      → Session
      → (sender : ℕ) → (code : Bytes) → Lobby
      → Database
      → Outcome (Lobby × Database)
  unfolding activate_session
  receive_join_code index s sender code l db =
      Session.set_host_join_code R s sender code db >>= λ result.
      returned (if result.0 then activate_session index l else l, result.1)
