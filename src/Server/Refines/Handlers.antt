-- ===== src/Server/Refines/Handlers.antt =====
-- The handlers, from the memory that they are given to the packet that they post.
use mathlib.Core.List.{append-nil}
use isolation_server.Common.{
  ℕ, ◌≤◌, ◌≡◌, refl, Bool, true, false, leb, arith, Option, none, some, List, [], ◌∷◌, ◌++◌, Bytes,
  text, length, take, if◌then◌else◌,
}
use isolation_server.Redis.{Redis, Laws}
use isolation_server.Program.{Program, World, run, run-bind, done, post_write, ◌>>=◌}
use isolation_server.Server
use isolation_server.Server.Messages.{Externals, RegisterAccount, Login, Response}
use isolation_server.Server.Spec.{
  Presence, View, register_message, enter_message, read_data_message, leave,
}
use isolation_server.Server.Represents.{Represents}
use isolation_server.Server.Refines.{Refined, Refined-done}
use isolation_server.Server.Refines.Register.{create_account_refines}
use isolation_server.Server.Refines.Login.{login_refines, login_key_after}
use isolation_server.Server.Refines.Data.{player_data_refines}
use isolation_server.Server.Refines.Logout.{logout_refines, login_key_at}

-- The handler ends, with these packets posted, this login key and a database that holds the view.
pub record Answered {R : Redis} (w : World R) (p : Program (Unit {0})) (packets : List Bytes)
    (key : Bytes) (v : View) : Type 0 where
  pub database : R.Database
  pub runs :
      run p w
      ≡ some (tt, record { database = database; login_key = key; posted = w.posted ++ packets })
  pub represents : Represents R database v

Refined-post_write :
    {R : Redis} {A : Type 0} {key : A → Bytes} {w : World R} (p : Program A) (x : A × View)
    (f : A → Bytes)
    → Refined key w p x
    → Answered w (p >>= λ a. post_write (f a)) (f x.0 ∷ []) (key x.0) x.1
unfolding run
Refined-post_write {w = w} p x f r = record {
  database = r.database;
  runs = run-bind p _ w _ x.0 r.runs;
  represents = r.represents;
}

-- A pointer and a length that stay inside the memory.
leb-true : (m n : ℕ) → m ≤ n → leb m n ≡ true
leb-true m n h = ground arith

-- The login key after a login, also where the message does not parse.
abbrev pub login_key_of : Bytes → Option Login → Response → Bytes
login_key_of old none response = old
login_key_of old (some m) response = login_key_after m old response

module _ {R : Redis} (L : Laws R) (E : Externals) (w : World R) (v : View)
    (r : Represents R w.database v) where
  creation_account_result_refines :
      (o : Option RegisterAccount)
      → Refined
          (λ _. w.login_key)
          w
          (Server.creation_account_result E o)
          (register_message E.sha256 o v)
  unfolding Server.creation_account_result register_message
  creation_account_result_refines none = Refined-done _ v refl r
  creation_account_result_refines (some m) = create_account_refines L E m w v r

  login_result_refines :
      (now token : ℕ) (p : Presence) (o : Option Login)
      → v.presence token ≡ some p
      → Refined
          (login_key_of w.login_key o)
          w
          (Server.login_result E now token o)
          (enter_message E.sha256 token o v)
  unfolding Server.login_result enter_message
  login_result_refines now token p none here = Refined-done _ v refl r
  login_result_refines now token p (some m) here = login_refines L E now token m w v p here r

  data_result_refines :
      (token : ℕ) (parses : Bool)
      → Refined
          (λ _. w.login_key)
          w
          (if parses
            then Server.player_data token
            else done (Server.refuse_data (text "parsingError")))
          (read_data_message token parses v, v)
  unfolding read_data_message
  data_result_refines token true = player_data_refines L w v r token
  data_result_refines token false = Refined-done _ v refl r

logout-Answered :
    {R : Redis} (L : Laws R) (w : World R) (v : View)
    → Represents R w.database v
    → (token : ℕ) (parses : Bool)
    → Answered w
        (if parses then Server.logout_client token else done tt)
        []
        (if parses then login_key_at w.login_key (v.presence token) else w.login_key)
        (if parses then leave token v else v)
unfolding run
logout-Answered L w v r token true =
    let out = logout_refines L w v r token in
    record { database = out.database; runs = rw append-nil out.runs; represents = out.represents }
logout-Answered L w v r token false = record {
  database = w.database;
  runs = rw append-nil;
  represents = r;
}

module _ {R : Redis} (L : Laws R) (E : Externals) (w : World R) (v : View)
    (r : Represents R w.database v) (memory : Bytes) (n : ℕ) (inside : n ≤ length memory) where
  -- On a database that holds a view, for a pointer and a length inside the memory:
  -- HandleRequestCreationAccount ends, whatever the message, with one packet posted, whose
  -- response is that of `register_message` (a parsing error, each refusal in its order, or the
  -- new account), with the login key as it was, and with a database that holds the view that
  -- `register_message` gives.
  pub handle_request_creation_account_refines :
      let (response, v') =
        register_message E.sha256 (E.parse_request_register_account (take n memory)) v in
      Answered w
        (Server.handle_request_creation_account E memory n)
        (Server.response_packet E.response_register_account
            (E.serialize_response_register_account response)
          ∷ [])
        w.login_key
        v'
  unfolding Server.handle_request_creation_account
  handle_request_creation_account_refines = rw (leb-true n (length memory) inside) (
      Refined-post_write _ _ _ (
        creation_account_result_refines L E w v r
          (E.parse_request_register_account (take n memory))))

  -- On a database that holds a view, for a pointer and a length inside the memory: for a
  -- connection that the view knows, HandleRequestLogin ends, whatever the message, with one
  -- packet posted, whose response is that of `enter_message` (a parsing error, each refusal in
  -- its order, or the login), with the login key of the id where the response accepts and as it
  -- was otherwise, and with a database that holds the view that `enter_message` gives.
  pub handle_request_login_refines :
      (now token : ℕ) (p : Presence)
      → v.presence token ≡ some p
      → let m = E.parse_request_login (take n memory) in
        let (response, v') = enter_message E.sha256 token m v in
        Answered w
          (Server.handle_request_login E now token memory n)
          (Server.login_packet E.response_login (E.serialize_response_login response) ∷ [])
          (login_key_of w.login_key m response)
          v'
  unfolding Server.handle_request_login
  handle_request_login_refines now token p here = rw (leb-true n (length memory) inside) (
      Refined-post_write _ _ _
        (login_result_refines L E w v r now token p (E.parse_request_login (take n memory)) here))

  -- On a database that holds a view, for a pointer and a length inside the memory:
  -- HandleRequestPlayerData ends, whatever the message, with one packet posted, whose response
  -- is that of `read_data_message` (a parsing error, an unknown connection, no login, no
  -- account, or the data of the account), with the login key as it was, and with a database that
  -- holds the same view.
  pub handle_request_player_data_refines :
      (token : ℕ)
      → let response = read_data_message token (E.parse_request_player_data (take n memory)) v in
        Answered w
          (Server.handle_request_player_data E token memory n)
          (Server.response_packet E.response_player_data (E.serialize_response_player_data response)
            ∷ [])
          w.login_key
          v
  unfolding Server.handle_request_player_data
  handle_request_player_data_refines token = rw (leb-true n (length memory) inside) (
      Refined-post_write _ _ _
        (data_result_refines L E w v r token (E.parse_request_player_data (take n memory))))

  -- On a database that holds a view, for a pointer and a length inside the memory:
  -- HandleRequestLogout ends with no packet posted; for a message that parses the database then
  -- holds the view in which the client has left, and the login key is that of no login if the
  -- client had one; otherwise login key and view are as they were.
  pub handle_request_logout_refines :
      (token : ℕ)
      → let parses = E.parse_request_logout (take n memory) in
        Answered w
          (Server.handle_request_logout E token memory n)
          []
          (if parses then login_key_at w.login_key (v.presence token) else w.login_key)
          (if parses then leave token v else v)
  unfolding Server.handle_request_logout
  handle_request_logout_refines token =
      rw (leb-true n (length memory) inside)
        (logout-Answered L w v r token (E.parse_request_logout (take n memory)))
