-- ===== src/Network/Hub.antt =====
-- The server as its clients see it, without redis, sockets and bytes of headers: the view of
-- src/Server.cpp, and what each client that is connected has been posted.
pub mod Changes
use isolation_server.Common.{
  ℕ, ◌+◌, ◌≤◌, ◌≡◌, Bool, false, List, [], ◌∷◌, ◌++◌, Option, none, some, Bytes, ◌==◌,
  if◌then◌else◌, length, to_string,
}
use isolation_server.Common.Map
use isolation_server.Redis.{Redis}
use isolation_server.Server.Messages.{Externals}
use isolation_server.Server.Spec.{View, connect, disconnect}
use isolation_server.Server.Represents.{Represents}
use isolation_server.Server.System.{Request, Client}
use isolation_server.Server.System.Sound.{IsPresent}
use isolation_server.ClientSocket.{recv_buffer_size}
use isolation_server.ClientSocket.Reading.{whole_packet}
use isolation_server.Network.{Socket, Network, Event, accepted, read}
use isolation_server.Network.Safety.{IsWired}
use isolation_server.Network.Answers.{number, answer}

-- What clients do: one connects, and is given a token and a receive buffer; it sends a request; its
-- connection ends, with an error or without.
pub data Message : Type 0 where
  arrives : (now token : ℕ) → (memory : Bytes) → Message
  asks : (now token : ℕ) → Request → (payload : Bytes) → Message
  ends : (now token : ℕ) → (ec : Bool) → Message

-- What Boost.Asio reports of it.
abbrev pub sent : Externals → Message → Event
sent E (arrives now token memory) = accepted now token memory
sent E (asks now token request payload) =
    read now token false (whole_packet (number E request) payload)
sent E (ends now token ec) = read now token ec []

-- A receive buffer has its size, and a request with its header fits into it.
abbrev pub Fits : Message → Type 0
Fits (arrives now token memory) = length memory ≡ recv_buffer_size
Fits (asks now token request payload) = length payload + 12 ≤ recv_buffer_size
Fits (ends now token ec) = Unit

-- `clients`: the packets that were posted to a token's client, while it is connected.
pub record Hub : Type 0 where
  pub view : View
  pub clients : ℕ → Option (List Bytes)

abbrev pub at_client : (ℕ → Option (List Bytes)) → ℕ → Option (List Bytes) → ℕ → Option (List Bytes)
at_client f token posted t = if token == t then posted else f t

-- A request is answered to the client that sent it; only a client that is connected can send one.
abbrev pub asked : Externals → ℕ → Request → Bytes → Hub → Option (List Bytes) → Hub
asked E token request payload hub none = hub
asked E token request payload hub (some posted) = record {
  view = (answer E token request payload hub.view).1;
  clients =
      at_client hub.clients token (some (posted ++ (answer E token request payload hub.view).0));
}

abbrev pub ended : ℕ → Hub → Option (List Bytes) → Hub
ended token hub none = hub
ended token hub (some posted) = record {
  view = disconnect token hub.view;
  clients = at_client hub.clients token none;
}

abbrev pub react : Externals → Message → Hub → Hub
react E (arrives now token memory) hub = record {
  view = connect (to_string now) token hub.view;
  clients = at_client hub.clients token (some []);
}
react E (asks now token request payload) hub = asked E token request payload hub (hub.clients token)
react E (ends now token ec) hub = ended token hub (hub.clients token)

unfoldable pub replay : Externals → List Message → Hub → Hub
replay E [] hub = hub
replay E (m ∷ ms) hub = replay E ms (react E m hub)

abbrev pub posted_of : Option Client → Option (List Bytes)
posted_of none = none
posted_of (some c) = some c.posted

-- The network does as the hub: it satisfies the invariant, its database holds the view, its clients
-- are those of the hub, with what they were posted, they are present in the view, and their sockets
-- read.
pub record Shows {R : Redis} (E : Externals) (n : Network R) (hub : Hub) : Type 0 where
  pub wired : IsWired E n
  pub represents : Represents R n.system.database hub.view
  pub posted : (t : ℕ) → posted_of (Map.find t n.system.sockets) ≡ hub.clients t
  pub present : (t : ℕ) (c : Client) → Map.find t n.system.sockets ≡ some c → IsPresent hub.view t
  pub reads :
      (t : ℕ) (c : Client)
      → Map.find t n.system.sockets ≡ some c
      → (d : Socket) × (Map.find t n.sockets ≡ some d)
