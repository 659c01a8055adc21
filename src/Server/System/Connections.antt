-- ===== src/Server/System/Connections.antt =====
-- AddClient and the error handler of src/Server.cpp on the system: what they make of the view that
-- the database holds.
use isolation_server.Common.{ℕ, ◌≡◌, ◌∙◌, ap, some, [], to_string}
use isolation_server.Common.Map
use isolation_server.Redis.{Redis, Laws}
use isolation_server.Program.{World, run-bind}
use isolation_server.Server
use isolation_server.Server.Spec.{View, leave, connect, disconnect}
use isolation_server.Server.Represents.{Represents}
use isolation_server.Server.Refines.Connection.{announce_refines, forget_refines}
use isolation_server.Server.Refines.Logout.{logout_refines}
use isolation_server.Server.System.{
  Client, System, world, put, drop_client, run_for, add_client, lose_client,
}

-- A client without a login, to which nothing was posted.
abbrev pub new_client : Client
new_client = record { login_key = []; posted = [] }

module _ {R : Redis} (L : Laws R) (s : System R) (v : View) (r : Represents R s.database v)
    (token : ℕ) where
  abbrev pub with_client : R.Database → System R
  with_client db = record {
    database = db;
    connected = Map.insert token tt s.connected;
    sockets = Map.insert token new_client s.sockets;
  }

  abbrev pub without_client : R.Database → System R
  without_client db = record {
    database = db;
    connected = Map.erase token s.connected;
    sockets = Map.erase token s.sockets;
  }

  pub add_client_refines :
      (now : ℕ)
      → (db : R.Database) × (add_client now token s ≡ some (with_client db))
        × Represents R db (connect (to_string now) token v)
  unfolding add_client run_for
  add_client_refines now =
      let a = announce_refines L (world new_client s) v r token now in
      (
        a.database,
        ap (put token (record s { connected = Map.insert token tt s.connected })) a.runs,
        a.represents,
      )

  pub lose_client_refines :
      (c : Client)
      → (db : R.Database) × (lose_client token c s ≡ some (without_client db))
        × Represents R db (disconnect token v)
  unfolding lose_client disconnect
  lose_client_refines c =
      let out = logout_refines L (world c s) v r token in
      let w : World R = record { database = out.database; login_key = _; posted = c.posted } in
      let gone = forget_refines L w (leave token v) out.represents token in
      (
        gone.database,
        ap (drop_client token s)
            (run-bind (Server.logout_client token) _ _ _ tt out.runs ∙ gone.runs),
        gone.represents,
      )
