-- ===== src/Lobby/Entry.antt =====
-- The clients of the lobby of deprecated/lobbyManager.cpp: who enters it, who is disconnected, and who
-- leaves.
pub mod Clients
use isolation_server.Common.{
  ℕ, Bool, true, false, List, [], ◌∷◌, Option, none, some, Bytes, ltb, if◌then◌else◌,
}
use isolation_server.Common.Map
use isolation_server.Common.Map.{Map}
use isolation_server.Redis.{Redis}
use isolation_server.Redis.Strings.{Strings}
use isolation_server.RedisService
use isolation_server.RedisService.Strings.{set}
use isolation_server.ClientSocket.{
  ClientSocket, set_packet_handler, set_error_handler, clear_packet_handler,
  clear_disconnect_handler,
}
use isolation_server.Server.Keys.{client_key}
use isolation_server.Session.{Outcome, returned, undefined, ◌>>=◌}
use isolation_server.Util.{counted, invalid, unfinished, utf8_length}

-- The handlers of the lobby, by their requests.
pub data Request : Type 0 where
  session_list session_creation session_entry lobby_exit : Request

-- The numbers of the messages.
pub record Numbers : Type 0 where
  pub request_session_list : ℕ
  pub request_session_creation : ℕ
  pub request_session_entry : ℕ
  pub request_lobby_exit : ℕ
  pub disconnected : ℕ

abbrev pub Socket : Type 0
Socket = ClientSocket Request (Unit {0})

-- `_loginedClients`, with the database. `stopped`: the tokens of the clients whose sockets the lobby
-- has closed by Stop, and whose error handler has not been called yet.
pub record Hall (R : Redis) : Type 0 where
  pub logined_clients : Map Socket
  pub stopped : Map (Unit {0})
  pub database : R.Database

pub data Refusal : Type 0 where
  client_is_not_valid nickname_is_not_valid invalid_utf8 nickname_exists : Refusal

-- SetClientHandler; SetDisconnectHandler is the earlier name of SetErrorHandler.
unfoldable pub set_client_handler : Numbers → Socket → Socket
unfolding set_packet_handler set_error_handler clear_packet_handler clear_disconnect_handler
set_client_handler E c = set_error_handler E.disconnected tt (
    set_packet_handler E.request_lobby_exit lobby_exit (
      set_packet_handler E.request_session_entry session_entry (
        set_packet_handler E.request_session_creation session_creation (
          set_packet_handler E.request_session_list session_list
            (clear_disconnect_handler (clear_packet_handler c))))))

module _ {R : Redis} (S : Strings R) (E : Numbers) where
  -- RequestEnterLobby, for a client with a nickname (none for a null pointer): the reason where it
  -- returns false.
  unfoldable pub request_enter_lobby :
      Option (Socket × Bytes) → Hall R → Outcome (Option Refusal × Hall R)
  unfolding set_client_handler
  request_enter_lobby none h = returned (some client_is_not_valid, h)
  request_enter_lobby (some (client, nickname)) h = elim (utf8_length nickname) [
    | invalid ↦ returned (some invalid_utf8, h)
    | unfinished ↦ undefined
    | counted n ↦
        let key_user = client_key client.token in
        if ltb n 2
        then returned (some nickname_is_not_valid, h)
        else if RedisService.exists R key_user h.database
        then returned (some nickname_exists, h)
        else returned (
          none,
          record {
            logined_clients =
                Map.insert client.token (set_client_handler E client) h.logined_clients;
            stopped = h.stopped;
            database = (set S key_user nickname h.database).1;
          },
        )
  ]

  -- DisconnectedClient, which is the error handler of a client: the socket calls it once a read fails,
  -- also one that Stop has closed, and reads no further.
  unfoldable pub disconnected_client : (token : ℕ) → Hall R → Hall R
  disconnected_client token h = record {
    logined_clients = Map.erase token h.logined_clients;
    stopped = Map.erase token h.stopped;
    database = (RedisService.del R (client_key token) h.database).1;
  }

  -- HandleRequestSessionLeave: Stop closes the socket, so that its next read fails.
  unfoldable pub handle_request_session_leave : (token : ℕ) → Hall R → Hall R
  handle_request_session_leave token h = record h {
    stopped = Map.insert token tt h.stopped;
    logined_clients = Map.erase token h.logined_clients;
  }

-- What happens to the clients of the lobby, one after another.
pub data Event : Type 0 where
  entering : Option (Socket × Bytes) → Event
  disconnecting : (token : ℕ) → Event
  leaving : (token : ℕ) → Event

module _ {R : Redis} (S : Strings R) (E : Numbers) where
  unfoldable pub step : Event → Hall R → Outcome (Hall R)
  unfolding request_enter_lobby disconnected_client handle_request_session_leave
  step (entering client) h = request_enter_lobby S E client h >>= λ r. returned r.1
  step (disconnecting token) h = returned (disconnected_client S E token h)
  step (leaving token) h = returned (handle_request_session_leave S E token h)

  unfoldable pub steps : List Event → Hall R → Outcome (Hall R)
  steps [] h = returned h
  steps (e ∷ es) h = step e h >>= steps es
