-- ===== src/Network.antt =====
-- The sockets of src/ClientSocket.cpp with the server of src/Server.cpp: AddClient registers its
-- handlers with a socket, and what the socket reads calls them. The events are what Boost.Asio
-- reports: a connection, the completion of a read, a stop of the server, one after another.
pub mod Reads
pub mod Safety
pub mod Answers
pub mod Wire
pub mod Hub
pub mod Conversation
use isolation_server.Common.{
  ℕ, Bool, true, false, ◌++◌, List, [], ◌∷◌, Option, none, some, Bytes, if◌then◌else◌,
}
use isolation_server.Common.Map
use isolation_server.Common.Map.{Map}
use isolation_server.Redis.{Redis}
use isolation_server.ClientSocket
use isolation_server.ClientSocket.{
  ClientSocket, construct, init, failed, notice, set_packet_handler, set_error_handler, on_read,
}
use isolation_server.Server.Messages.{Externals}
use isolation_server.Server.System
use isolation_server.Server.System.{System, Request, serve}

abbrev pub Socket : Type 0
Socket = ClientSocket Request (Unit {0})

-- The handlers that AddClient registers, in its order.
unfoldable pub register_handlers : Externals → Socket → Socket
unfolding set_packet_handler set_error_handler
register_handlers E c = set_error_handler E.em_disconnected tt (
    set_packet_handler E.request_logout Request.logout (
      set_packet_handler E.request_player_data Request.player_data (
        set_packet_handler E.request_register_account Request.register_account
          (set_packet_handler E.request_login Request.login c))))

-- A socket after its constructor and Init.
unfoldable pub new_socket : (token : ℕ) → (memory : Bytes) → Socket
new_socket token memory = init memory (construct token)

-- The callbacks of a socket of the server.
abbrev pub handlers : Externals → Map Request
handlers E = (register_handlers E (new_socket 0 [])).packet_handler

pub record Network (R : Redis) : Type 0 where
  pub system : System R
  pub sockets : Map Socket

pub data Event : Type 0 where
  accepted : (now token : ℕ) → (memory : Bytes) → Event
  read : (now token : ℕ) → (ec : Bool) → (chunk : Bytes) → Event
  stopped : Event

-- What the callbacks of a socket are for the server. The notice is a line of the log.
unfoldable pub calls :
    (now token : ℕ) → List (ClientSocket.Event Request (Unit {0})) → List System.Event
calls now token [] = []
calls now token (ClientSocket.packet request memory n ∷ es) =
    System.packet now token request memory n ∷ calls now token es
calls now token (failed handler ec ∷ es) = System.lost token ∷ calls now token es
calls now token (notice ∷ es) = calls now token es

module _ {R : Redis} (E : Externals) where
  abbrev pub with_sockets : Map Socket → Option (System R) → Option (Network R)
  with_sockets m none = none
  with_sockets m (some s) = some (record { system = s; sockets = m })

  -- The completion of a read: the callbacks, and the next read or the end of the socket.
  unfoldable pub read_at : (now token : ℕ) → Bool → Bytes → Socket → Network R → Option (Network R)
  unfolding calls
  read_at now token ec chunk c n =
      let (c', events, again) = on_read E.em_disconnected ec chunk c in
      with_sockets (if again then Map.insert token c' n.sockets else Map.erase token n.sockets)
        (serve E (calls now token events) n.system)

  abbrev pub read_found :
      (now token : ℕ) → Bool → Bytes → Network R → Option Socket → Option (Network R)
  read_found now token ec chunk n none = some n
  read_found now token ec chunk n (some c) = read_at now token ec chunk c n

  unfoldable pub step : Event → Network R → Option (Network R)
  unfolding read_at register_handlers new_socket
  step (accepted now token memory) n =
      with_sockets (Map.insert token (register_handlers E (new_socket token memory)) n.sockets)
        (serve E (System.accepted now token ∷ []) n.system)
  step (read now token ec chunk) n = read_found now token ec chunk n (Map.find token n.sockets)
  step stopped n = with_sockets n.sockets (serve E (System.stopped ∷ []) n.system)

  abbrev pub and_then : (Network R → Option (Network R)) → Option (Network R) → Option (Network R)
  and_then f none = none
  and_then f (some n) = f n

  unfoldable pub serve_all : List Event → Network R → Option (Network R)
  serve_all [] n = some n
  serve_all (e ∷ es) n = and_then (serve_all es) (step e n)
