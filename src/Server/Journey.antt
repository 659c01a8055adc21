-- ===== src/Server/Journey.antt =====
-- One client from its registration to its logout, at the interface that it sees.
use isolation_server.Common.{
  ℕ, ◌≤◌, ◌≡◌, refl, ap, ◌∙◌, true, arith, none, some, Bytes, text, bytes_eq_refl, length,
}
use isolation_server.Redis.{Redis, Laws}
use isolation_server.Program.{Program, World, run, run-bind, run-done, done, ◌>>=◌, ◌>>◌}
use isolation_server.Server
use isolation_server.Server.{
  refuse, accept, refuse_data, create_account, player_data, logout_client,
}
use isolation_server.Server.Messages.{Externals, RegisterAccount, Login, Response, PlayerData}
use isolation_server.Server.Spec.{
  Presence, View, at_id, new_account, register, enter, log_in, read_data, leave,
}
use isolation_server.Server.Represents.{Represents}
use isolation_server.Server.Refines.{Refined-eq, after}
use isolation_server.Server.Refines.Register.{create_account_refines}
use isolation_server.Server.Refines.Login.{login_refines}
use isolation_server.Server.Refines.Data.{player_data_refines}
use isolation_server.Server.Refines.Logout.{logout_refines}

-- The message that logs in with what was registered.
abbrev pub login_of : RegisterAccount → Login
login_of m = record { id = m.id; password = m.password }

-- The data that was registered.
abbrev pub data_of : RegisterAccount → PlayerData
data_of m = record {
  result = true;
  message = text "ok";
  nickname = m.nickname;
  personal_color = m.personal_color;
}

-- The requests of one client, one after another, and the responses to them.
abbrev pub journey :
    Externals
    → (now token : ℕ) → RegisterAccount
    → Program (Response × Response × PlayerData × PlayerData)
journey E now token m = do
  registered ← create_account E m
  entered ← Server.login E now token (login_of m)
  shown ← player_data token
  logout_client token
  hidden ← player_data token
  done (registered, entered, shown, hidden)

-- The view on the way.
module _ (sha256 : Bytes → Bytes) (m : RegisterAccount) (v : View) where
  abbrev registered_view : View
  registered_view = record v { account = at_id v.account m.id (some (new_account sha256 m)) }

  register_valid :
      2 ≤ length m.id
      → 2 ≤ length m.password
      → 2 ≤ length m.nickname
      → v.account m.id ≡ none
      → register sha256 m v ≡ (accept, registered_view)
  unfolding register
  register_valid i p n free = ground (arith, free)

module _ (sha256 : Bytes → Bytes) (token : ℕ) (m : RegisterAccount) (v : View) where
  abbrev entered_view : View
  entered_view = log_in token m.id (registered_view sha256 m v)

  enter_registered :
      v.holder m.id ≡ none
      → enter sha256 token (login_of m) (registered_view sha256 m v) ≡ (accept, entered_view)
  unfolding enter
  enter_registered free =
      rw (bytes_eq_refl m.id) (rw (bytes_eq_refl (sha256 m.password)) (rw free refl))

  read_entered :
      (p : Presence) → v.presence token ≡ some p → read_data token entered_view ≡ data_of m
  unfolding read_data
  read_entered p here = ground (arith, here, bytes_eq_refl m.id)

  read_left :
      (p : Presence)
      → v.presence token ≡ some p
      → read_data token (leave token entered_view) ≡ refuse_data (text "needLogin")
  unfolding read_data leave
  read_left p here = ground (arith, here, bytes_eq_refl m.id)

-- A connected client registers a free id with a password and a nickname of two bytes or more, and
-- nobody holds the login of that id. Then its registration and its login succeed, it reads the data
-- that it registered, and after its logout it is told to log in again.
pub journey_lem :
    {R : Redis} (L : Laws R) (E : Externals) (w : World R) (v : View) (now token : ℕ) (p : Presence)
    (m : RegisterAccount)
    → Represents R w.database v
    → v.presence token ≡ some p
    → v.account m.id ≡ none
    → v.holder m.id ≡ none
    → 2 ≤ length m.id
    → 2 ≤ length m.password
    → 2 ≤ length m.nickname
    → (w' : World R) × (run (journey E now token m) w
        ≡ some ((accept, accept, data_of m, refuse_data (text "needLogin")), w'))
journey_lem L E w v now token p m r here free unheld i q n =
    let v1 = registered_view E.sha256 m v in
    let v2 = entered_view E.sha256 token m v in
    let first =
      Refined-eq (register_valid E.sha256 m v i q n free) (create_account_refines L E m w v r) in
    let w1 = after w first in
    let second =
      Refined-eq (enter_registered E.sha256 token m v unheld)
        (login_refines L E now token (login_of m) w1 v1 p here first.represents) in
    let w2 = after w1 second in
    let third =
      Refined-eq (ap (λ (d : PlayerData). (d, v2)) (read_entered E.sha256 token m v p here))
        (player_data_refines L w2 v2 second.represents token) in
    let w3 = after w2 third in
    let fourth = logout_refines L w3 v2 third.represents token in
    let w4 = after w3 fourth in
    let fifth =
      Refined-eq
        (ap (λ (d : PlayerData). (d, leave token v2)) (read_left E.sha256 token m v p here))
        (player_data_refines L w4 (leave token v2) fourth.represents token) in
    (
      after w4 fifth,
      run-bind (create_account E m) _ w w1 _ first.runs
          ∙ run-bind (Server.login E now token (login_of m)) _ w1 w2 _ second.runs
          ∙ run-bind (player_data token) _ w2 w3 _ third.runs
          ∙ run-bind (logout_client token) _ w3 w4 _ fourth.runs
          ∙ run-bind (player_data token) _ w4 _ _ fifth.runs
          ∙ run-done _ _,
    )
