-- ===== src/Server/Refines/Data.antt =====
-- HandleRequestPlayerData of src/Server.cpp and `read_data`.
use isolation_server.Common.{ℕ, ◌≡◌, refl, true, false, Option, none, some, Bytes, text}
use isolation_server.Redis.{Redis, Laws}
use isolation_server.Program.{Program, World, run}
use isolation_server.Server
use isolation_server.Server.Keys.{id_key, client_key}
use isolation_server.Server.Messages.{PlayerData}
use isolation_server.Server.Spec.{Account, Presence, View, data_of, data_at, read_data}
use isolation_server.Server.Represents.{
  Represents, AccountAt, persist-Represents, account_absent, account_present, presence_absent,
  presence_present,
}
use isolation_server.Server.Refines.{Refined, Refined-done, Refined-exists, Refined-hash_get}

module _ {R : Redis} (L : Laws R) (w : World R) (v : View) (r : Represents R w.database v) where
  abbrev Reads : Program PlayerData → PlayerData → Type 0
  Reads p x = Refined (λ _. w.login_key) w p (x, v)

  read_account_refines :
      (id : Bytes) (a : Account)
      → AccountAt R w.database id (some a)
      → Reads (Server.read_account id) (data_of (some a))
  unfolding run Server.read_account
  read_account_refines id a h =
      Refined-hash_get (id_key id) (text "nickname") (some a.nickname) _ _ h.1 (
        Refined-hash_get (id_key id) (text "personalColor") (some a.personal_color) _ _ h.2
          (record {
            database = (R.persist (id_key id) w.database).1;
            runs = refl;
            represents = persist-Represents L (id_key id) w.database v r;
          }))

  check_known_refines :
      (id : Bytes) (a : Option Account)
      → v.account id ≡ a
      → Reads (Server.check_account (some id)) (data_of a)
  unfolding Server.check_account
  check_known_refines id none e =
      Refined-exists (id_key id) false _ _ (account_absent L r id e) (Refined-done _ v refl r)
  check_known_refines id (some a) e =
      let (there, fields) = account_present L r id a e in
      Refined-exists (id_key id) true _ _ there (read_account_refines id a fields)

  check_account_refines :
      (time : Bytes) (login_id : Option Bytes)
      → Reads
          (Server.check_account login_id)
          (data_at v (some (record { connected_time = time; login_id = login_id })))
  unfolding Server.check_account
  check_account_refines time none = Refined-done _ v refl r
  check_account_refines time (some id) = check_known_refines id (v.account id) refl

  player_data_at :
      (token : ℕ) (p : Option Presence)
      → v.presence token ≡ p
      → Reads (Server.player_data token) (data_at v p)
  unfolding Server.player_data Server.check_login
  player_data_at token none e =
      Refined-exists (client_key token) false _ _ (presence_absent L r token e)
        (Refined-done _ v refl r)
  player_data_at token (some p) e =
      let (there, fields) = presence_present L r token p e in
      Refined-exists (client_key token) true _ _ there (
        Refined-hash_get (client_key token) (text "loginId") p.login_id _ _ fields.1
          (check_account_refines p.connected_time p.login_id))

  -- The answer is that of the view, on every branch, and the view stays as it is.
  pub player_data_refines : (token : ℕ) → Reads (Server.player_data token) (read_data token v)
  unfolding read_data
  player_data_refines token = player_data_at token (v.presence token) refl
