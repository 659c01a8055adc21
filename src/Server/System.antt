-- ===== src/Server/System.antt =====
-- The server with its connections: src/Server.cpp from AddClient to Stop. The events are the calls
-- that Boost.Asio leads to, one after another: a connection is accepted, the socket of a client
-- calls a packet handler or the error handler, the server is stopped. The read under way keeps a
-- socket alive, also after Stop has emptied `_connectedClients`; after its error handler a socket
-- starts no further read, so that it makes no further call.
pub mod Sound
pub mod Connections
pub mod Steps
pub mod Safety
pub mod Connected
use isolation_server.Common.{ℕ, ◌++◌, [], ◌∷◌, List, Option, none, some, Bytes}
use isolation_server.Common.Map
use isolation_server.Common.Map.{Map}
use isolation_server.Redis.{Redis}
use isolation_server.Program.{Program, World, run, ◌>>=◌, ◌>>◌}
use isolation_server.Server
use isolation_server.Server.Messages.{Externals}

-- The handlers that AddClient registers, by the request that they serve.
pub data Request : Type 0 where
  register_account login player_data logout : Request

-- A client as the server sees it.
pub record Client : Type 0 where
  pub login_key : Bytes
  pub posted : List Bytes

pub record System (R : Redis) : Type 0 where
  pub database : R.Database
  -- The keys of `_connectedClients`.
  pub connected : Map (Unit {0})
  -- The clients whose sockets still read.
  pub sockets : Map Client

-- What may happen. `packet now token request memory length`: the handler of a request is called, at
-- a time, with a pointer and a length.
pub data Event : Type 0 where
  accepted : (now token : ℕ) → Event
  packet : (now token : ℕ) → Request → Bytes → ℕ → Event
  lost : (token : ℕ) → Event
  stopped : Event

-- The packet handlers.
unfoldable pub handler : Externals → (now token : ℕ) → Request → Bytes → ℕ → Program (Unit {0})
handler E now token register_account memory n = Server.handle_request_creation_account E memory n
handler E now token login memory n = Server.handle_request_login E now token memory n
handler E now token player_data memory n = Server.handle_request_player_data E token memory n
handler E now token logout memory n = Server.handle_request_logout E token memory n

module _ {R : Redis} where
  abbrev pub world : Client → System R → World R
  world c s = record { database = s.database; login_key = c.login_key; posted = c.posted }

  -- The system after a handler for one client.
  abbrev pub put : ℕ → System R → Option (Unit {0} × World R) → Option (System R)
  put token s none = none
  put token s (some (_, w)) = some (record {
    database = w.database;
    connected = s.connected;
    sockets = Map.insert token (record { login_key = w.login_key; posted = w.posted }) s.sockets;
  })

  unfoldable pub run_for : Program (Unit {0}) → ℕ → Client → System R → Option (System R)
  run_for p token c s = put token s (run p (world c s))

  -- AddClient, at a time.
  unfoldable pub add_client : (now token : ℕ) → System R → Option (System R)
  unfolding run_for
  add_client now token s =
      run_for (Server.announce now token) token (record { login_key = []; posted = [] })
        (record s { connected = Map.insert token tt s.connected })

  abbrev pub drop_client : ℕ → System R → Option (Unit {0} × World R) → Option (System R)
  drop_client token s none = none
  drop_client token s (some (_, w)) = some (record {
    database = w.database;
    connected = Map.erase token s.connected;
    sockets = Map.erase token s.sockets;
  })

  -- The error handler: LogoutClient, Stop, RemoveClient.
  unfoldable pub lose_client : ℕ → Client → System R → Option (System R)
  lose_client token c s =
      drop_client token s (run (Server.logout_client token >> Server.forget token) (world c s))

  abbrev pub packet_at :
      Externals
      → (now token : ℕ) → Request
      → Bytes
      → ℕ
      → System R
      → Option Client
      → Option (System R)
  packet_at E now token request memory n s none = some s
  packet_at E now token request memory n s (some c) =
      run_for (handler E now token request memory n) token c s

  abbrev pub lost_at : ℕ → System R → Option Client → Option (System R)
  lost_at token s none = some s
  lost_at token s (some c) = lose_client token c s

  unfoldable pub step : Externals → Event → System R → Option (System R)
  unfolding handler run_for add_client lose_client
  step E (accepted now token) s = add_client now token s
  step E (packet now token request memory n) s =
      packet_at E now token request memory n s (Map.find token s.sockets)
  step E (lost token) s = lost_at token s (Map.find token s.sockets)
  step E stopped s = some (record s { connected = [] })

  abbrev pub and_then : (System R → Option (System R)) → Option (System R) → Option (System R)
  and_then f none = none
  and_then f (some s) = f s

  unfoldable pub serve : Externals → List Event → System R → Option (System R)
  serve E [] s = some s
  serve E (e ∷ es) s = and_then (serve E es) (step E e s)
