-- ===== src/Server/Refines/Login.antt =====
-- HandleRequestLogin of src/Server.cpp and `enter`.
use isolation_server.Common.{
  ℕ, ◌≡◌, refl, ◌∙◌, true, false, ◌==◌, ==_iff, Option, none, some, Bytes, text, bytes_eq,
  bytes_eq_iff, if◌then◌else◌, Bool-cases, inl, inr, to_string,
}
use isolation_server.Redis.{Redis, Laws}
use isolation_server.Redis.Derived.{hget-hset_self, hget-hset_field}
use isolation_server.Program.{World, run}
use isolation_server.Server
use isolation_server.Server.Keys.{
  id_key, client_key, logined_key, client_key-ne, logined_key-eq, client-id, client-logined,
  logined-id, logined-client,
}
use isolation_server.Server.Messages.{Externals, Login, Response}
use isolation_server.Server.Spec.{Account, Presence, View, log_in, enter, enter_known, enter_free}
use isolation_server.Server.Represents.{
  Represents, PresenceAt, HolderAt, Same, Same-trans, AccountAt-Same, PresenceAt-Same,
  HolderAt-Same, hset-Same, account_absent, account_present, holder_absent, holder_present,
}
use isolation_server.Server.Refines.{
  Refined, Refined-if, Refined-done, Refined-exists, Refined-hash_get,
}

login_id_ne : bytes_eq (text "loginId") (text "ConnectedTime") ≡ false
unfolding bytes_eq
login_id_ne = refl

-- The three HSET of a login.
module _ {R : Redis} (L : Laws R) (now token : ℕ) (id : Bytes) where
  open R use {Database}

  entered : Database → Database
  entered db =
      (R.hset (logined_key id) (text "loginTime") (to_string now)
        (R.hset (logined_key id) (text "token") (to_string token)
          (R.hset (client_key token) (text "loginId") id db).1).1).1

  -- A key that is neither of the two.
  entered-Same :
      (k : Bytes) (db : Database)
      → bytes_eq (client_key token) k ≡ false
      → bytes_eq (logined_key id) k ≡ false
      → Same R k db (entered db)
  unfolding entered
  entered-Same k db c l =
      Same-trans (hset-Same L _ k c db _ _)
        (Same-trans (hset-Same L _ k l _ _ _) (hset-Same L _ k l _ _ _))

  entered-PresenceAt :
      (db : Database) (p : Presence)
      → PresenceAt R db token (some p)
      → PresenceAt R (entered db) token (some (record p { login_id = some id }))
  unfolding entered
  entered-PresenceAt db p h =
      PresenceAt-Same token (some (record p { login_id = some id }))
        (Same-trans (hset-Same L _ _ (logined-client id token) _ _ _)
          (hset-Same L _ _ (logined-client id token) _ _ _))
        (hget-hset_field L _ _ _ _ _ login_id_ne ∙ h.0, hget-hset_self L _ _ _ _)

  entered-HolderAt : (db : Database) → HolderAt R (entered db) id (some token)
  unfolding entered bytes_eq
  entered-HolderAt db = hget-hset_field L _ _ _ _ _ refl ∙ hget-hset_self L _ _ _ _

  entered-Represents :
      (db : Database) (v : View) (p : Presence)
      → v.presence token ≡ some p
      → Represents R db v
      → Represents R (entered db) (log_in token id v)
  entered-Represents db v p e r = record {
    accounts = λ j.
        AccountAt-Same j _ (entered-Same _ db (client-id j token) (logined-id id j)) (r.accounts j);
    presences = λ t. elim (Bool-cases (token == t)) [
      | inl same ↦
          rw (same, e, ← (==_iff token t).0 same)
            (entered-PresenceAt db p (rw e at (r.presences token)))
      | inr other ↦ rw other (
          PresenceAt-Same t _
            (entered-Same _ db (client_key-ne token t other) (logined-client id t)) (r.presences t))
    ];
    holders = λ j. elim (Bool-cases (bytes_eq id j)) [
      | inl same ↦ rw (same, ← (bytes_eq_iff id j).0 same) (entered-HolderAt db)
      | inr other ↦ rw other (
          HolderAt-Same j _
            (entered-Same _ db (client-logined j token) (logined_key-eq id j ∙ other))
            (r.holders j))
    ];
  }

-- An accepted login sets the key of the client.
abbrev pub login_key_after : Login → Bytes → Response → Bytes
login_key_after m old response = if response.result then logined_key m.id else old

module _ {R : Redis} (L : Laws R) (E : Externals) (now token : ℕ) (m : Login) where
  check_logined_refines :
      (w : World R) (v : View) (p : Presence) (t : Option ℕ)
      → v.presence token ≡ some p
      → v.holder m.id ≡ t
      → Represents R w.database v
      → Refined
          (login_key_after m w.login_key)
          w
          (Server.check_logined E now token m)
          (enter_free E.sha256 token m v t)
  unfolding run Server.check_logined entered
  check_logined_refines w v p none here free r =
      Refined-exists (logined_key m.id) false _ _ (holder_absent L r m.id free) (record {
        database = entered L now token m.id w.database;
        runs = refl;
        represents = entered-Represents L now token m.id w.database v p here r;
      })
  check_logined_refines w v p (some t) here held r =
      Refined-exists (logined_key m.id) true _ _ (holder_present L r m.id t held)
        (Refined-done _ v refl r)

  check_password_refines :
      (w : World R) (v : View) (p : Presence) (a : Account)
      → v.presence token ≡ some p
      → v.account m.id ≡ some a
      → Represents R w.database v
      → Refined
          (login_key_after m w.login_key)
          w
          (Server.check_password E now token m)
          (enter_known E.sha256 token m v (some a))
  unfolding Server.check_password
  check_password_refines w v p a here known r =
      Refined-hash_get (id_key m.id) (text "password") (some a.password_hash) _ _
        (account_present L r m.id a known).1.0
        (Refined-if (bytes_eq a.password_hash (E.sha256 m.password)) _ _ _ _
          (λ _. check_logined_refines w v p (v.holder m.id) here refl r)
          (λ _. Refined-done _ v refl r))

  login_known_refines :
      (w : World R) (v : View) (p : Presence) (a : Option Account)
      → v.presence token ≡ some p
      → v.account m.id ≡ a
      → Represents R w.database v
      → Refined
          (login_key_after m w.login_key)
          w
          (Server.login E now token m)
          (enter_known E.sha256 token m v a)
  unfolding Server.login
  login_known_refines w v p none here e r =
      Refined-exists (id_key m.id) false _ _ (account_absent L r m.id e) (Refined-done _ v refl r)
  login_known_refines w v p (some a) here e r =
      Refined-exists (id_key m.id) true _ _ (account_present L r m.id a e).0
        (check_password_refines w v p a here e r)

  -- A login of a connected client: the checks in their order, and on success the login.
  pub login_refines :
      (w : World R) (v : View) (p : Presence)
      → v.presence token ≡ some p
      → Represents R w.database v
      → Refined
          (login_key_after m w.login_key)
          w
          (Server.login E now token m)
          (enter E.sha256 token m v)
  unfolding enter
  login_refines w v p here r = login_known_refines w v p (v.account m.id) here refl r
