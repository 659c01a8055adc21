-- ===== src/Lobby/Requests.antt =====
-- The packets of the lobby of deprecated/lobbyManager.cpp: HandleRequestSessionCreate and
-- HandleRequestSessionEnter, from the payload of a request to the packet of the response.
pub mod Made
pub mod Journey
use isolation_server.Common.{
  ℕ, ◌+◌, ◌-◌, ◌^◌, Bool, true, false, List, [], ◌∷◌, ◌++◌, Option, none, some, Bytes, leb, length,
  take, if◌then◌else◌,
}
use isolation_server.Redis.{Redis}
use isolation_server.Util.{append_prot_packet}
use isolation_server.Session.{Outcome, returned, undefined, ◌>>=◌, Reason}
use isolation_server.Lobby.{Lobby, EntryResponse, create_session, enter_session}

-- The texts that go into the `reason` of a creation.
pub data Text : Type 0 where
  ok : Text
  refused : Reason → Text
  parsing_error : Text

-- M_ResponseSessionCreation; the index, an `int`, is the number index + 2 ^ 31.
pub record CreationResponse : Type 0 where
  pub session_index : ℕ
  pub reason : Text

-- The generated code. A parser gives none where ParseFromArray returns false: the name and the
-- password of a creation, and the index of an entry.
pub record Messages : Type 0 where
  pub parse_request_session_creation : Bytes → Option (Bytes × Bytes)
  pub serialize_response_session_creation : CreationResponse → Bytes
  pub response_session_creation : ℕ
  pub parse_request_session_entry : Bytes → Option ℕ
  pub serialize_response_session_entry : EntryResponse → Bytes
  pub response_session_entry : ℕ

abbrev pub packet : ℕ → Bytes → Bytes
packet type serial = append_prot_packet [] type (length serial + 12) ++ serial

-- The index -1.
abbrev pub no_index : ℕ
no_index = 2 ^ 31 - 1

abbrev pub reason_text : Option Reason → Text
reason_text none = ok
reason_text (some reason) = refused reason

-- The response to a creation that ended with an index and a reason.
abbrev pub creation_response : ℕ → Option Reason → CreationResponse
creation_response index reason =
    if leb (2 ^ 31) index
    then record { session_index = index; reason = ok }
    else record { session_index = no_index; reason = reason_text reason }

module _ (R : Redis) (M : Messages) where
  open R use {Database}

  -- HandleRequestSessionCreate, for a client with a token and a nickname, where the token pool gives
  -- `session_token` to a new session: the packet that is posted.
  unfoldable pub handle_request_session_create :
      (session_token : ℕ)
      → (token : ℕ) → (nickname : Bytes) → Bytes
      → (length : ℕ) → Lobby
      → Database
      → Outcome (Bytes × Lobby × Database)
  handle_request_session_create session_token token nickname memory n l db =
      let answer = λ (r : CreationResponse).
        packet M.response_session_creation (M.serialize_response_session_creation r) in
      if leb n (length memory)
      then elim (M.parse_request_session_creation (take n memory)) [
        | none ↦
            returned (answer (record { session_index = no_index; reason = parsing_error }), l, db)
        | some (name, password) ↦
            create_session R session_token (some (token, nickname)) name password l db >>= λ result.
            returned (answer (creation_response (result.0) (result.1)), result.2, result.3)
      ]
      else undefined

  -- HandleRequestSessionEnter
  unfoldable pub handle_request_session_enter :
      (token : ℕ)
      → (nickname : Bytes) → Bytes
      → (length : ℕ) → Lobby
      → Database
      → Outcome (Bytes × Database)
  handle_request_session_enter token nickname memory n l db =
      if leb n (length memory)
      then (enter_session R (M.parse_request_session_entry (take n memory)) token nickname l db
          >>= λ result. returned (
            packet M.response_session_entry (M.serialize_response_session_entry result.0),
            result.1,
          ))
      else undefined
