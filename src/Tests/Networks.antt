-- ===== src/Tests/Networks.antt =====
-- The theorems on the sockets with the server, at one client that logs in.
use mathlib.Core.Option.{some-injective}
use isolation_server.Server
use isolation_server.Server.Sessions.{IsLinked, connect-IsLinked}
use isolation_server.Server.System.Sound.{connect-IsPresent}
use isolation_server.ClientSocket.{set_packet_handler, set_error_handler}
use isolation_server.Common.{
  true, to_string, map, ◌++◌, sym, ◌==◌, ℕ, ◌≡◌, refl, false, none, [], ◌∷◌, List, some, text,
  arith, Bytes, replicate, length-replicate, inl, inr,
}
use isolation_server.Common.Map
use isolation_server.Redis.Memory.{memory, memory-Laws}
use isolation_server.ClientSocket.Reading.{whole_packet}
use isolation_server.Server.System
use isolation_server.Server.System.{System, login, register_account}
use isolation_server.Network.{
  Socket, Network, Event, accepted, read, stopped, serve_all, step, register_handlers, new_socket,
}
use isolation_server.Network.Safety.{IsAttached, IsWired, network_safe}
use isolation_server.Network.Answers.{IsNumbered, answer}
use isolation_server.Network.Wire.{IsAnswered, read-IsAnswered}
use isolation_server.Network.Hub.{Message, arrives, asks, ends, sent, Hub, replay, Shows}
use isolation_server.Network.Conversation.{conversation_refines}
use isolation_server.Tests.Data.{
  alice_request, externals, empty_view, empty-Represents, connected_view, announced,
  connected_world,
}

abbrev empty_network : Network memory
empty_network = record {
  system = record { database = []; connected = []; sockets = [] };
  sockets = [];
}

empty-IsLinked : IsLinked empty_view
empty-IsLinked = record { linked = λ token id e. cc }

empty-IsWired : IsWired externals empty_network
empty-IsWired = record {
  sound = record {
    view = empty_view;
    represents = empty-Represents;
    linked = empty-IsLinked;
    announced = λ token c found. absurd (Map.find-nil token c found);
  };
  attached = λ token c found. absurd (Map.find-nil token c found);
}

abbrev memory_of_buffer : Bytes
memory_of_buffer = replicate 4096 0

-- A client connects, sends a login in one piece, and closes its connection; the server is stopped.
abbrev visit : List Event
visit =
    accepted 5 7 memory_of_buffer
    ∷ read 6 7 false (whole_packet 3 (text "alicpass"))
    ∷ read 7 7 false []
    ∷ stopped
    ∷ []

network_safe_example :
    (n : Network memory) × (serve_all externals visit empty_network ≡ some n) × IsWired externals n
unfolding isolation_server.Util.append_prot_packet
network_safe_example = network_safe memory-Laws externals visit empty_network empty-IsWired (
  length-replicate {A = ℕ} 4096 0,
  ((omega arith, inr (inr (omega arith))), ((omega arith, inl refl), (tt, tt))),
)

numbered : IsNumbered externals
numbered = record {
  fits = λ request. grind arith;
  open' = λ request. grind arith;
  login_register = omega arith;
  login_data = omega arith;
  login_logout = omega arith;
  register_data = omega arith;
  register_logout = omega arith;
  data_logout = omega arith;
}

abbrev socket_7 : Socket
socket_7 = register_handlers externals (new_socket 7 memory_of_buffer)

abbrev client_7 : System.Client
client_7 = record { login_key = []; posted = [] }

-- Token 7 is connected.
abbrev connected_network : Network memory
connected_network = record {
  system = record {
    database = connected_world.database;
    connected = (7, tt) ∷ [];
    sockets = (7, client_7) ∷ [];
  };
  sockets = (7, socket_7) ∷ [];
}

one_socket :
    {V : Type 0} (v w : V) (token : ℕ)
    → Map.find token ((7, v) ∷ []) ≡ some w
    → (7 ≡ token) × (v ≡ w)
unfolding Map.find
one_socket v w token found =
    let e : (7 == token) ≡ true = ground (arith, found) in
    (ground (arith, e), some-injective _ _ (ground (arith, e, found)))

seven-IsAttached : IsAttached externals connected_network.system 7 socket_7
unfolding Map.find Map.insert register_handlers new_socket set_packet_handler set_error_handler
seven-IsAttached = record {
  full = length-replicate {A = ℕ} 4096 0;
  callbacks = refl;
  losses = refl;
  connected = (client_7, refl);
}

abbrev connected_wired : IsWired externals connected_network
connected_wired = record {
  sound = record {
    view = connected_view;
    represents = announced.represents;
    linked = connect-IsLinked (to_string 5) 7 empty_view empty-IsLinked;
    announced = λ token c found.
        let (here, same) = one_socket client_7 c token found in
        rw (sym here) (connect-IsPresent (to_string 5) 7 empty_view);
  };
  attached = λ token c found.
      let (here, same) = one_socket socket_7 c token found in
      rw (sym here, sym same) seven-IsAttached;
}

read-IsAnswered_example :
    IsAnswered connected_network
      (step externals (read 6 7 false (whole_packet 3 (text "alicpass"))) connected_network)
      7
      (answer externals 7 login (text "alicpass") connected_view).0
      (answer externals 7 login (text "alicpass") connected_view).1
unfolding Map.find register_handlers new_socket isolation_server.Server.Spec.connect
read-IsAnswered_example =
    read-IsAnswered memory-Laws externals numbered connected_network connected_wired 6 7 socket_7
      client_7 login (text "alicpass") refl refl (omega arith)

-- No client was there yet.
abbrev empty_hub : Hub
empty_hub = record { view = empty_view; clients = λ t. none }

empty-Shows : Shows externals empty_network empty_hub
unfolding Map.find
empty-Shows = record {
  wired = empty-IsWired;
  represents = empty-Represents;
  posted = λ t. refl;
  present = λ t c found. absurd (Map.find-nil t c found);
  reads = λ t c found. absurd (Map.find-nil t c found);
}

-- A client connects, makes an account and logs in with it; a second one cannot, while the first is
-- logged in, whose connection ends then.
abbrev two_clients : List Message
two_clients =
    arrives 5 7 memory_of_buffer
    ∷ asks 6 7 register_account alice_request
    ∷ asks 6 7 login (text "alicpass")
    ∷ arrives 7 9 memory_of_buffer
    ∷ asks 7 9 login (text "alicpass")
    ∷ ends 8 7 true
    ∷ []

conversation_refines_example :
    (n : Network memory) × (serve_all externals (map (sent externals) two_clients) empty_network
      ≡ some n)
    × Shows externals n (replay externals two_clients empty_hub)
conversation_refines_example =
    let full = length-replicate {A = ℕ} 4096 0 in
    conversation_refines memory-Laws externals numbered two_clients empty_network empty_hub
      empty-Shows (full, (omega arith, (omega arith, (full, (omega arith, (tt, tt))))))

-- What the hub has of them at the end.
two_clients_posted :
    ((replay externals two_clients empty_hub).clients 7 ≡ none)
    × ((replay externals two_clients empty_hub).clients 9
        ≡ some (Server.login_packet 4 (text "loginedAlready") ∷ []))
unfolding replay isolation_server.Server.Spec.enter_message isolation_server.Server.Spec.enter
    isolation_server.Server.Spec.connect isolation_server.Server.Spec.register_message
    isolation_server.Server.Spec.register isolation_server.Common.bytes_eq
two_clients_posted = (refl, refl)
