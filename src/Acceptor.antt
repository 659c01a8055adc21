-- ===== src/Acceptor.antt =====
-- src/Acceptor.cpp: the accept loop, as a state that the completions of async_accept and the calls
-- of Stop change, one after another. A completion says what Boost.Asio gives the callback: an error,
-- or a socket whose remote endpoint and whose option may be had or make their calls throw; and
-- whether Stop is called (by the delegator, or by another thread) while the delegator runs. An
-- exception leaves the callback, and with it the thread of src/main.cpp: the model has none then.
pub mod Loop
use isolation_server.Common.{
  ℕ, Bool, true, false, not, ◌&&◌, List, [], ◌∷◌, ◌++◌, Option, none, some, if◌then◌else◌,
}

pub record Acceptor : Type 0 where
  pub is_stopped : Bool
  -- The listening socket is open.
  pub is_open : Bool
  -- An async_accept is under way.
  pub is_waiting : Bool
  -- The sockets that the delegator was given.
  pub delegated : List ℕ

pub record Completion : Type 0 where
  pub ec : Bool
  pub has_endpoint : Bool
  pub has_option : Bool
  pub stops_meanwhile : Bool
  pub socket : ℕ

pub data Event : Type 0 where
  completed : Completion → Event
  stop_called : Event

-- Stop; closing ends the accept under way, which then completes with an error.
unfoldable pub stop : Acceptor → Acceptor
stop a = if a.is_stopped then a else record a { is_stopped = true; is_open = false }

-- Accept starts one async_accept.
unfoldable pub accept : Acceptor → Acceptor
accept a = record a { is_waiting = true }

-- The callback of Accept.
unfoldable pub on_accept : Completion → Acceptor → Option Acceptor
unfolding stop accept
on_accept c a =
    let b = record a { is_waiting = false } in
    let d = record b { delegated = b.delegated ++ c.socket ∷ [] } in
    let e = if c.stops_meanwhile then stop d else d in
    if not c.ec && not a.is_stopped
    then (if c.has_endpoint && c.has_option
        then (if not e.is_stopped then some (accept e) else some e)
        else none)
    else some b

-- The constructor, and the call of Accept in src/main.cpp.
unfoldable pub listening : Acceptor
unfolding accept
listening =
    accept (record { is_stopped = false; is_open = true; is_waiting = false; delegated = [] })

-- Only an accept under way completes.
unfoldable pub step : Event → Acceptor → Option Acceptor
unfolding on_accept
step (completed c) a = if a.is_waiting then on_accept c a else some a
step stop_called a = some (stop a)

abbrev pub and_then : (Acceptor → Option Acceptor) → Option Acceptor → Option Acceptor
and_then f none = none
and_then f (some a) = f a

unfoldable pub steps : List Event → Acceptor → Option Acceptor
steps [] a = some a
steps (e ∷ es) a = and_then (steps es) (step e a)
