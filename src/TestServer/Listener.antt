-- ===== src/TestServer/Listener.antt =====
-- The class Server of deprecated/TestAsyncServer.cpp: it accepts connections, keeps them in a set,
-- and stops them. Connections are objects with addresses. The events are those of one thread that
-- runs the io_context with the calls of the console between them; what AsyncWriteNotify posts runs
-- with its call.
pub mod Stopping
use isolation_server.Common.{
  Bool, true, false, ◌&&◌, not, List, [], ◌∷◌, Option, none, some, Bytes, ℕ, if◌then◌else◌,
}
use isolation_server.Common.Map
use isolation_server.Common.Map.{Map}
use isolation_server.TestServer.{Connection, Code, on_read, stop_connection, async_write_notify}

-- `accepting`: an accept is under way. `sessions`: the addresses in `_sessions`. `connections`: the
-- objects, also those that only a callback holds.
pub record Listener : Type 0 where
  pub is_stopped : Bool
  pub accepting : Bool
  pub sessions : Map (Unit {0})
  pub connections : Map Connection

abbrev pub stop_at : ℕ → Map Connection → Option Connection → Map Connection
stop_at address m none = m
stop_at address m (some c) = Map.insert address (stop_connection c) m

-- The loop of Stop.
unfoldable pub stop_all : Map (Unit {0}) → Map Connection → Map Connection
stop_all [] m = m
stop_all ((address, _) ∷ sessions) m = stop_all sessions (stop_at address m (Map.find address m))

unfoldable pub stop : Listener → Listener
unfolding stop_all
stop s = if s.is_stopped then s else record {
  is_stopped = true;
  accepting = false;
  sessions = [];
  connections = stop_all s.sessions s.connections;
}

abbrev pub put_at : ℕ → Map Connection → Option Connection → Option (Map Connection)
put_at address m none = none
put_at address m (some c) = some (Map.insert address c m)

unfoldable pub notify_at : Bytes → ℕ → Map Connection → Option Connection → Option (Map Connection)
unfolding async_write_notify
notify_at message address m none = some m
notify_at message address m (some c) = put_at address m (async_write_notify message c)

abbrev pub and_then :
    (Map Connection → Option (Map Connection)) → Option (Map Connection) → Option (Map Connection)
and_then f none = none
and_then f (some m) = f m

-- The loop of Notify: undefined where one write is.
unfoldable pub notify_all : Bytes → Map (Unit {0}) → Map Connection → Option (Map Connection)
unfolding notify_at
notify_all message [] m = some m
notify_all message ((address, _) ∷ sessions) m =
    and_then (notify_all message sessions) (notify_at message address m (Map.find address m))

abbrev pub with_connections : Listener → Option (Map Connection) → Option Listener
with_connections s none = none
with_connections s (some m) = some (record s { connections = m })

unfoldable pub notify : Bytes → Listener → Option Listener
unfolding notify_all
notify message s =
    if s.is_stopped
    then some s
    else with_connections s (notify_all message s.sessions s.connections)

-- The callback of do_accept, for an error code, and the address and the buffer of the new object.
unfoldable pub on_accepted : (ec : Bool) → (address : ℕ) → Bytes → Listener → Listener
on_accepted ec address memory s =
    if not ec && not s.is_stopped
    then record {
      is_stopped = s.is_stopped;
      accepting = true;
      sessions = Map.insert address tt s.sessions;
      connections =
          Map.insert address
            (record {
              is_open = true;
              recv_buffer = memory;
              remained_length = 0;
              all_data_size = 0;
              written = [];
            })
            s.connections;
    }
    else record s { accepting = false }

-- What happens. Stop ends the io_context: no callback runs after it.
pub data Event : Type 0 where
  accepted : (ec : Bool) → (address : ℕ) → Bytes → Event
  completed : (address : ℕ) → Code → Bytes → Event
  notified : Bytes → Event
  stopped : Event

abbrev pub completed_at : ℕ → Code → Bytes → Listener → Option Connection → Listener
completed_at address code chunk s none = s
completed_at address code chunk s (some c) = record s {
  connections = Map.insert address (on_read code chunk c).0 s.connections;
}

unfoldable pub step : Event → Listener → Option Listener
unfolding stop notify on_accepted on_read
step (accepted ec address memory) s =
    some (if s.accepting && not s.is_stopped then on_accepted ec address memory s else s)
step (completed address code chunk) s =
    some (
      if s.is_stopped
      then s
      else completed_at address code chunk s (Map.find address s.connections))
step (notified message) s = notify message s
step stopped s = some (stop s)

abbrev pub and_on : (Listener → Option Listener) → Option Listener → Option Listener
and_on f none = none
and_on f (some s) = f s

unfoldable pub steps : List Event → Listener → Option Listener
steps [] s = some s
steps (e ∷ es) s = and_on (steps es) (step e s)
