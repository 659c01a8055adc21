-- ===== src/Server/Refines/Logout.antt =====
-- LogoutClient of src/Server.cpp and `leave`.
use isolation_server.Common.{
  ℕ, ◌≡◌, refl, ◌∙◌, true, false, ◌==◌, ==_iff, Option, none, some, Bytes, text, bytes_eq,
  bytes_eq_iff, Bool-cases, inl, inr,
}
use isolation_server.Redis.{Redis, Laws}
use isolation_server.Redis.Derived.{hget-hdel_self, hget-hdel_field, exists-del_self}
use isolation_server.Program.{World, run}
use isolation_server.Server
use isolation_server.Server.Keys.{
  client_key, logined_key, client_key-ne, logined_key-eq, client-id, client-logined, logined-id,
  logined-client,
}
use isolation_server.Server.Spec.{Presence, View, log_out, leave, leave_at}
use isolation_server.Server.Represents.{
  Represents, PresenceAt, HolderAt, Same, Same-trans, AccountAt-Same, PresenceAt-Same,
  HolderAt-Same, hdel-Same, del-Same, presence_absent, presence_present,
}
use isolation_server.Server.Refines.{Refined, Refined-done, Refined-exists, Refined-hash_get}

login_id_ne : bytes_eq (text "loginId") (text "ConnectedTime") ≡ false
unfolding bytes_eq
login_id_ne = refl

-- The DEL and the HDEL of a logout.
module _ {R : Redis} (L : Laws R) (token : ℕ) (id : Bytes) where
  open R use {Database}

  left : Database → Database
  left db = (R.hdel (client_key token) (text "loginId") (R.del (logined_key id) db).1).1

  -- A key that is neither of the two.
  left-Same :
      (k : Bytes) (db : Database)
      → bytes_eq (client_key token) k ≡ false
      → bytes_eq (logined_key id) k ≡ false
      → Same R k db (left db)
  unfolding left
  left-Same k db c l = Same-trans (del-Same L _ k l db) (hdel-Same L _ k c _ _)

  left-PresenceAt :
      (db : Database) (p : Presence)
      → PresenceAt R db token (some p)
      → PresenceAt R (left db) token (some (record p { login_id = none }))
  unfolding left
  left-PresenceAt db p h =
      let s = del-Same L _ _ (logined-client id token) db in
      (hget-hdel_field L _ _ _ _ login_id_ne ∙ s.hget _ ∙ h.0, hget-hdel_self L _ _ _)

  left-HolderAt : (db : Database) → HolderAt R (left db) id none
  unfolding left
  left-HolderAt db = (hdel-Same L _ _ (client-logined id token) _ _).exists ∙ exists-del_self L _ db

  left-Represents :
      (db : Database) (v : View) (p : Presence)
      → v.presence token ≡ some p
      → Represents R db v
      → Represents R (left db) (log_out token id v)
  left-Represents db v p e r = record {
    accounts = λ j.
        AccountAt-Same j _ (left-Same _ db (client-id j token) (logined-id id j)) (r.accounts j);
    presences = λ t. elim (Bool-cases (token == t)) [
      | inl same ↦
          rw (same, e, ← (==_iff token t).0 same)
            (left-PresenceAt db p (rw e at (r.presences token)))
      | inr other ↦ rw other (
          PresenceAt-Same t _ (left-Same _ db (client_key-ne token t other) (logined-client id t))
            (r.presences t))
    ];
    holders = λ j. elim (Bool-cases (bytes_eq id j)) [
      | inl same ↦ rw (same, ← (bytes_eq_iff id j).0 same) (left-HolderAt db)
      | inr other ↦ rw other (
          HolderAt-Same j _ (left-Same _ db (client-logined j token) (logined_key-eq id j ∙ other))
            (r.holders j))
    ];
  }

-- What LogoutClient leaves as the login key of a client.
abbrev pub login_key_at : Bytes → Option Presence → Bytes
login_key_at old none = old
login_key_at old (some p) = elim p.login_id [ none ↦ old | some id ↦ text "noLogined" ]

module _ {R : Redis} (L : Laws R) (w : World R) (v : View) (r : Represents R w.database v)
    (token : ℕ) where
  end_login_refines :
      (time : Bytes) (login_id : Option Bytes)
      → let p : Presence = record { connected_time = time; login_id = login_id } in
        v.presence token ≡ some p
        → Refined
            (λ _. login_key_at w.login_key (some p))
            w
            (Server.end_login token login_id)
            (tt, leave_at token v (some p))
  unfolding run Server.end_login left
  end_login_refines time none e = Refined-done _ v refl r
  end_login_refines time (some id) e = record {
    database = left L token id w.database;
    runs = refl;
    represents =
        left-Represents L token id w.database v
          (record { connected_time = time; login_id = some id }) e r;
  }

  logout_at :
      (p : Option Presence)
      → v.presence token ≡ p
      → Refined
          (λ _. login_key_at w.login_key p)
          w
          (Server.logout_client token)
          (tt, leave_at token v p)
  unfolding Server.logout_client Server.logout_known
  logout_at none e =
      Refined-exists (client_key token) false _ _ (presence_absent L r token e)
        (Refined-done _ v refl r)
  logout_at (some p) e =
      let (there, fields) = presence_present L r token p e in
      Refined-exists (client_key token) true _ _ there (
        Refined-hash_get (client_key token) (text "loginId") p.login_id _ _ fields.1
          (end_login_refines p.connected_time p.login_id e))

  -- A client that is logged in gives its login back; any other logout changes nothing.
  pub logout_refines :
      Refined
        (λ _. login_key_at w.login_key (v.presence token))
        w
        (Server.logout_client token)
        (tt, leave token v)
  unfolding leave
  logout_refines = logout_at (v.presence token) refl
