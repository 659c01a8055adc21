-- ===== src/Network/Answers.antt =====
-- What the handlers that AddClient of src/Server.cpp registers answer to requests, by the view that
-- the database holds.
use isolation_server.Common.{
  ℕ, ◌^◌, ◌<◌, ◌≤◌, ◌≡◌, ◌≢◌, List, [], ◌∷◌, ◌++◌, some, Bytes, length, take, arith, if◌then◌else◌,
  length-append, take-append,
}
use isolation_server.Common.Map
use isolation_server.Common.Map.{find-insert}
use isolation_server.Redis.{Redis, Laws}
use isolation_server.Program.{Program, World}
use isolation_server.Server
use isolation_server.Server.Messages.{Externals}
use isolation_server.Server.Spec.{
  View, Presence, register_message, enter_message, read_data_message, leave,
}
use isolation_server.Server.Represents.{Represents}
use isolation_server.Server.Refines.Handlers.{
  Answered, handle_request_creation_account_refines, handle_request_login_refines,
  handle_request_player_data_refines, handle_request_logout_refines,
}
use isolation_server.Server.System.{Request, register_account, login, player_data, logout, handler}
use isolation_server.ClientSocket.{set_packet_handler, set_error_handler}
use isolation_server.Network.{handlers, register_handlers, new_socket}

-- The number of a request's packets.
abbrev pub number : Externals → Request → ℕ
number E register_account = E.request_register_account
number E login = E.request_login
number E player_data = E.request_player_data
number E logout = E.request_logout

-- The numbers of the message types are different, none is EM_DISCONNECTED, and they fit into the
-- four bytes of a header.
pub record IsNumbered (E : Externals) : Type 0 where
  pub fits : (request : Request) → number E request < 2 ^ 32
  pub open' : (request : Request) → number E request ≢ E.em_disconnected
  pub login_register : E.request_login ≢ E.request_register_account
  pub login_data : E.request_login ≢ E.request_player_data
  pub login_logout : E.request_login ≢ E.request_logout
  pub register_data : E.request_register_account ≢ E.request_player_data
  pub register_logout : E.request_register_account ≢ E.request_logout
  pub data_logout : E.request_player_data ≢ E.request_logout

module _ {A : Type 0} (k j : ℕ) (x : A) (m : Map.Map A) where
  pub find_here : Map.find k (Map.insert k x m) ≡ some x
  find_here = ground (arith, find-insert k k x m)

  find_past : (y : A) → k ≢ j → Map.find k m ≡ some x → Map.find k (Map.insert j y m) ≡ some x
  find_past y other found = ground (arith, find-insert j k y m)

pub handlers-number :
    (E : Externals)
    → IsNumbered E
    → (request : Request) → Map.find (number E request) (handlers E) ≡ some request
unfolding register_handlers new_socket set_packet_handler set_error_handler
handlers-number E h logout = find_here _ 0 logout _
handlers-number E h player_data = find_past _ _ _ _ _ h.data_logout (find_here _ 0 player_data _)
handlers-number E h register_account =
    find_past _ _ _ _ _ h.register_logout
      (find_past _ _ _ _ _ h.register_data (find_here _ 0 register_account _))
handlers-number E h login = find_past _ _ _ _ _ h.login_logout (
    find_past _ _ _ _ _ h.login_data (find_past _ _ _ _ _ h.login_register (find_here _ 0 login _)))

-- What the server answers to the payload of a request, by the view that the database holds: the
-- packets, and the view afterwards.
abbrev pub answer : Externals → (token : ℕ) → Request → Bytes → View → List Bytes × View
answer E token register_account payload v =
    let (response, v') = register_message E.sha256 (E.parse_request_register_account payload) v in
    (
      Server.response_packet E.response_register_account
            (E.serialize_response_register_account response)
          ∷ [],
      v',
    )
answer E token login payload v =
    let (response, v') = enter_message E.sha256 token (E.parse_request_login payload) v in
    (Server.login_packet E.response_login (E.serialize_response_login response) ∷ [], v')
answer E token player_data payload v = (
  Server.response_packet E.response_player_data (
        E.serialize_response_player_data
          (read_data_message token (E.parse_request_player_data payload) v))
      ∷ [],
  v,
)
answer E token logout payload v = ([], if E.parse_request_logout payload then leave token v else v)

-- The handler of a request ends, with these packets posted and a database that holds the view.
abbrev pub Answers : {R : Redis} → World R → Program (Unit {0}) → List Bytes × View → Type 0
Answers w p x = (key : Bytes) × Answered w p x.0 key x.1

module _ {R : Redis} (L : Laws R) (E : Externals) (w : World R) (v : View)
    (r : Represents R w.database v) (now token : ℕ) (p : Presence)
    (here : v.presence token ≡ some p) where
  pub handler-Answers :
      (request : Request) (payload rest : Bytes)
      → Answers w
          (handler E now token request (payload ++ rest) (length payload))
          (answer E token request payload v)
  unfolding handler
  handler-Answers request payload rest = answered_at request (take-append payload rest)
    where
      inside : length payload ≤ length (payload ++ rest)
      inside = omega (arith, length-append {0} payload rest)

      answered_at :
          (request : Request)
          → take (length payload) (payload ++ rest) ≡ payload
          → Answers w
              (handler E now token request (payload ++ rest) (length payload))
              (answer E token request payload v)
      answered_at register_account e =
          (_, rw e at (handle_request_creation_account_refines L E w v r _ _ inside))
      answered_at login e =
          (_, rw e at (handle_request_login_refines L E w v r _ _ inside now token p here))
      answered_at player_data e =
          (_, rw e at (handle_request_player_data_refines L E w v r _ _ inside token))
      answered_at logout e = (_, rw e at (handle_request_logout_refines L E w v r _ _ inside token))
