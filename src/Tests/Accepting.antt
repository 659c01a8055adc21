-- ===== src/Tests/Accepting.antt =====
-- The theorem on the accept loop, with two connections, an error and a connection after it.
use isolation_server.Common.{◌≡◌, refl, true, false, List, [], ◌∷◌, some}
use isolation_server.Acceptor.{
  Acceptor, Completion, Event, completed, stop_called, listening, steps,
}
use isolation_server.Acceptor.Loop.{until_end, accepts_until_end}

abbrev connection : Completion
connection = record {
  ec = false;
  has_endpoint = true;
  has_option = true;
  stops_meanwhile = false;
  socket = 7;
}

abbrev events : List Event
events =
    completed connection
    ∷ completed (record connection { socket = 8 })
    ∷ completed (record connection { ec = true })
    ∷ completed (record connection { socket = 9 })
    ∷ stop_called
    ∷ []

accepts_until_end_example :
    (a : Acceptor) × (steps events listening ≡ some a) × (a.delegated ≡ until_end events)
accepts_until_end_example = accepts_until_end events (refl, (refl, (refl, (refl, (tt, tt)))))

two_handed_on : until_end events ≡ 7 ∷ 8 ∷ []
unfolding until_end
two_handed_on = refl
