-- ===== src/Network/Wire.antt =====
-- A request from the bytes that a client sends to the packet that the server posts: ReadAsync and
-- HandlePacket of src/ClientSocket.cpp, and the handlers of src/Server.cpp that AddClient registers.
use isolation_server.Common.{
  true, Option-cases, inl, inr, ℕ, ◌+◌, ◌<◌, ◌≤◌, ◌≡◌, refl, Bool, false, List, [], ◌∷◌, ◌++◌,
  Option, some, Bytes, length, drop, arith,
}
use isolation_server.Common.Map
use isolation_server.Common.Map.{find-insert}
use isolation_server.Redis.{Redis, Laws}
use isolation_server.Server.Messages.{Externals}
use isolation_server.Server.Spec.{View, Presence}
use isolation_server.Server.Represents.{Represents}
use isolation_server.Server.System.{
  System, Request, register_account, login, player_data, logout, Client, handler, world, put,
  run_for, serve,
}
use isolation_server.Server.System
use isolation_server.ClientSocket
use isolation_server.ClientSocket.{recv_buffer_size, on_read, set_packet_handler, set_error_handler}
use isolation_server.ClientSocket.Reading.{length-whole_packet, whole_packet, on_read-whole_packet}
use isolation_server.Network.Answers.{number, IsNumbered, handlers-number, answer, handler-Answers}
use isolation_server.Network.Safety.{IsWired}
use isolation_server.Network.{handlers, Socket, Network, read, step, calls, read_at}

-- A read that brings bytes is followed by the next.
on_read-again :
    (em : ℕ) (chunk : Bytes) (c : Socket) → 0 < length chunk → (on_read em false chunk c).2 ≡ true
unfolding on_read
on_read-again em chunk c some_read = ground arith

-- What a completed read leaves, where it calls the handler of one request, and the socket reads on.
read_at-request :
    {R : Redis} (E : Externals) (n : Network R) (now token : ℕ) (ec : Bool) (chunk : Bytes)
    (c : Socket) (request : Request) (memory : Bytes) (m : ℕ) (s : System R)
    → (on_read E.em_disconnected ec chunk c).1 ≡ ClientSocket.packet request memory m ∷ []
    → (on_read E.em_disconnected ec chunk c).2 ≡ true
    → serve E (System.packet now token request memory m ∷ []) n.system ≡ some s
    → read_at E now token ec chunk c n
      ≡ some (record {
        system = s;
        sockets = Map.insert token (on_read E.em_disconnected ec chunk c).0 n.sockets;
      })
unfolding read_at calls
read_at-request E n now token ec chunk c request memory m s events again served =
    rw (events, again, served) refl

-- The request is answered: the server goes on, has posted the packets of the answer to the client
-- after those that it had posted, and nothing to the others; its database holds the view of the
-- answer, and the client's socket reads on beside the others.
pub record IsAnswered {R : Redis} (n : Network R) (o : Option (Network R)) (token : ℕ)
    (posted : List Bytes) (v : View) : Type 0 where
  pub network : Network R
  pub goes_on : o ≡ some network
  pub client : Client
  pub posts : network.system.sockets ≡ Map.insert token client n.system.sockets
  pub packets : client.posted ≡ posted
  pub socket : Socket
  pub reads_on : network.sockets ≡ Map.insert token socket n.sockets
  pub represents : Represents R network.system.database v

module _ {R : Redis} (L : Laws R) (E : Externals) (numbered : IsNumbered E) (n : Network R)
    (v : View) (r : Represents R n.system.database v) where
  -- A request at a socket with the callbacks of AddClient.
  pub found-IsAnswered :
      (now token : ℕ) (c : Socket) (client : Client) (p : Presence) (request : Request)
      (payload : Bytes)
      → Map.find token n.sockets ≡ some c
      → c.packet_handler ≡ handlers E
      → Map.find token n.system.sockets ≡ some client
      → v.presence token ≡ some p
      → length payload + 12 ≤ recv_buffer_size
      → IsAnswered n
          (step E (read now token false (whole_packet (number E request) payload)) n)
          token
          (client.posted ++ (answer E token request payload v).0)
          (answer E token request payload v).1
  unfolding step serve System.step run_for
  found-IsAnswered now token c client p request payload found callbacks known here fits =
      let rest = drop (length payload + 12) c.recv_buffer in
      let (key, a) =
        handler-Answers L E (world client n.system) v r now token p here request payload rest in
      let events =
        on_read-whole_packet E.em_disconnected c (number E request) payload request
          (numbered.fits request) fits (rw callbacks (handlers-number E numbered request))
          (numbered.open' request) in
      let client' : Client = record {
        login_key = key;
        posted = client.posted ++ (answer E token request payload v).0;
      } in
      let s : System R = record {
        database = a.database;
        connected = n.system.connected;
        sockets = Map.insert token client' n.system.sockets;
      } in
      let chunk = whole_packet (number E request) payload in
      let again =
        on_read-again E.em_disconnected chunk c
          (omega (arith, length-whole_packet (number E request) payload)) in
      let c' : Socket = (on_read E.em_disconnected false chunk c).0 in
      record {
        network = record { system = s; sockets = Map.insert token c' n.sockets };
        goes_on = rw found (
            read_at-request E n now token false chunk c request (payload ++ rest) (length payload) s
              events again (rw (known, a.runs) refl));
        client = client';
        posts = refl;
        packets = refl;
        socket = c';
        reads_on = refl;
        represents = a.represents;
      }

module _ {R : Redis} (L : Laws R) (E : Externals) (numbered : IsNumbered E) (n : Network R)
    (h : IsWired E n) where
  -- Where the message types have different numbers, in a network that satisfies the invariant: a
  -- client whose socket reads sends a request of any of the four kinds, and its packet fits into the
  -- receive buffer and arrives whole in one read. Then the server goes on, it has posted to that
  -- client the packets that `answer` gives for the payload of the request and the view that the
  -- database held, and nothing to the other clients; the database holds the view that `answer`
  -- gives; and that socket reads on, beside the others as they were.
  pub read-IsAnswered :
      (now token : ℕ) (c : Socket) (client : Client) (request : Request) (payload : Bytes)
      → Map.find token n.sockets ≡ some c
      → Map.find token n.system.sockets ≡ some client
      → length payload + 12 ≤ recv_buffer_size
      → let (packets, view) = answer E token request payload h.sound.view in
        IsAnswered n
          (step E (read now token false (whole_packet (number E request) payload)) n)
          token
          (client.posted ++ packets)
          view
  read-IsAnswered now token c client request payload found known fits =
      elim (Option-cases (h.sound.view.presence token)) [
        | inl absent ↦ absurd (h.sound.announced token client known absent)
        | inr (p, here) ↦
            found-IsAnswered L E numbered n h.sound.view h.sound.represents now token c client p
              request payload found (h.attached token c found).callbacks known here fits
      ]
