-- ===== src/Server/Represents.antt =====
-- When a database holds a `View`, and what keeps a key of it as it is.
use isolation_server.Common.{
  ℕ, ◌≡◌, refl, ◌∙◌, true, false, lt→ltb, Option, none, some, Bytes, text, bytes_eq, to_string,
}
use isolation_server.Redis.{Redis, Laws}
use isolation_server.RedisService
use isolation_server.Server.Keys.{id_key, client_key, logined_key}
use isolation_server.Server.Spec.{Account, Presence, View}

module _ (R : Redis) where
  open R use {Database}

  abbrev pub AccountAt : Database → Bytes → Option Account → Type 0
  AccountAt db id none = R.exists (id_key id) db ≡ 0
  AccountAt db id (some a) =
      (R.hget (id_key id) (text "password") db ≡ some a.password_hash)
      × (R.hget (id_key id) (text "nickname") db ≡ some a.nickname)
      × (R.hget (id_key id) (text "personalColor") db ≡ some a.personal_color)

  abbrev pub PresenceAt : Database → ℕ → Option Presence → Type 0
  PresenceAt db token none = R.exists (client_key token) db ≡ 0
  PresenceAt db token (some p) =
      (R.hget (client_key token) (text "ConnectedTime") db ≡ some p.connected_time)
      × (R.hget (client_key token) (text "loginId") db ≡ p.login_id)

  abbrev pub HolderAt : Database → Bytes → Option ℕ → Type 0
  HolderAt db id none = R.exists (logined_key id) db ≡ 0
  HolderAt db id (some token) = R.hget (logined_key id) (text "token") db ≡ some (to_string token)

  -- The database has the accounts, the connections and the holders of logins of the view, and no
  -- others.
  pub record Represents (db : Database) (v : View) : Type 0 where
    pub accounts : (id : Bytes) → AccountAt db id (v.account id)
    pub presences : (token : ℕ) → PresenceAt db token (v.presence token)
    pub holders : (id : Bytes) → HolderAt db id (v.holder id)

  -- Two databases agree on a key.
  pub record Same (key : Bytes) (db db' : Database) : Type 0 where
    pub exists : R.exists key db' ≡ R.exists key db
    pub hget : (field : Bytes) → R.hget key field db' ≡ R.hget key field db

module _ {R : Redis} where
  open R use {Database}

  pub Same-refl : (key : Bytes) (db : Database) → Same R key db db
  Same-refl key db = record { exists = refl; hget = λ f. refl }

  pub Same-trans :
      {key : Bytes} {a b c : Database} → Same R key a b → Same R key b c → Same R key a c
  Same-trans s t = record { exists = t.exists ∙ s.exists; hget = λ f. t.hget f ∙ s.hget f }

  pub AccountAt-Same :
      {db db' : Database} (id : Bytes) (a : Option Account)
      → Same R (id_key id) db db'
      → AccountAt R db id a
      → AccountAt R db' id a
  AccountAt-Same id none s h = s.exists ∙ h
  AccountAt-Same id (some a) s h = (s.hget _ ∙ h.0, s.hget _ ∙ h.1, s.hget _ ∙ h.2)

  pub PresenceAt-Same :
      {db db' : Database} (token : ℕ) (p : Option Presence)
      → Same R (client_key token) db db'
      → PresenceAt R db token p
      → PresenceAt R db' token p
  PresenceAt-Same token none s h = s.exists ∙ h
  PresenceAt-Same token (some p) s h = (s.hget _ ∙ h.0, s.hget _ ∙ h.1)

  pub HolderAt-Same :
      {db db' : Database} (id : Bytes) (t : Option ℕ)
      → Same R (logined_key id) db db'
      → HolderAt R db id t
      → HolderAt R db' id t
  HolderAt-Same id none s h = s.exists ∙ h
  HolderAt-Same id (some t) s h = s.hget _ ∙ h

-- A command on one key leaves every other key the same.
module _ {R : Redis} (L : Laws R) (k k' : Bytes) (other : bytes_eq k k' ≡ false)
    (db : R.Database) where
  pub hset-Same : (f v : Bytes) → Same R k' db (R.hset k f v db).1
  hset-Same f v = record {
    exists = L.exists-hset k f v k' db ∙ rw other;
    hget = λ j. L.hget-hset k f v k' j db ∙ rw other;
  }

  pub hdel-Same : (f : Bytes) → Same R k' db (R.hdel k f db).1
  hdel-Same f = record {
    exists = L.exists-hdel k f k' db other;
    hget = λ j. L.hget-hdel k f k' j db ∙ rw other;
  }

  pub del-Same : Same R k' db (R.del k db).1
  del-Same = record {
    exists = L.exists-del k k' db ∙ rw other;
    hget = λ j. L.hget-del k k' j db ∙ rw other;
  }

module _ {R : Redis} (L : Laws R) where
  pub persist-Same : (k k' : Bytes) (db : R.Database) → Same R k' db (R.persist k db).1
  persist-Same k k' db = record {
    exists = L.exists-persist k k' db;
    hget = λ j. L.hget-persist k k' j db;
  }

  pub persist-Represents :
      (k : Bytes) (db : R.Database) (v : View)
      → Represents R db v
      → Represents R (R.persist k db).1 v
  persist-Represents k db v r = record {
    accounts = λ id. AccountAt-Same id _ (persist-Same k _ db) (r.accounts id);
    presences = λ t. PresenceAt-Same t _ (persist-Same k _ db) (r.presences t);
    holders = λ id. HolderAt-Same id _ (persist-Same k _ db) (r.holders id);
  }

-- What EXISTS answers, by the view.
module _ {R : Redis} (L : Laws R) {db : R.Database} {v : View} (r : Represents R db v) where
  pub account_absent :
      (id : Bytes) → v.account id ≡ none → RedisService.exists R (id_key id) db ≡ false
  account_absent id e = let h : R.exists (id_key id) db ≡ 0 = rw e at (r.accounts id) in rw h

  pub account_present :
      (id : Bytes) (a : Account)
      → v.account id ≡ some a
      → (RedisService.exists R (id_key id) db ≡ true) × AccountAt R db id (some a)
  account_present id a e =
      let h : AccountAt R db id (some a) = rw e at (r.accounts id) in
      (lt→ltb _ _ (L.exists-hget _ _ _ db h.0), h)

  pub presence_absent :
      (token : ℕ) → v.presence token ≡ none → RedisService.exists R (client_key token) db ≡ false
  presence_absent token e =
      let h : R.exists (client_key token) db ≡ 0 = rw e at (r.presences token) in rw h

  pub presence_present :
      (token : ℕ) (p : Presence)
      → v.presence token ≡ some p
      → (RedisService.exists R (client_key token) db ≡ true) × PresenceAt R db token (some p)
  presence_present token p e =
      let h : PresenceAt R db token (some p) = rw e at (r.presences token) in
      (lt→ltb _ _ (L.exists-hget _ _ _ db h.0), h)

  pub holder_absent :
      (id : Bytes) → v.holder id ≡ none → RedisService.exists R (logined_key id) db ≡ false
  holder_absent id e = let h : R.exists (logined_key id) db ≡ 0 = rw e at (r.holders id) in rw h

  pub holder_present :
      (id : Bytes) (t : ℕ) → v.holder id ≡ some t → RedisService.exists R (logined_key id) db ≡ true
  holder_present id t e =
      let h : HolderAt R db id (some t) = rw e at (r.holders id) in
      lt→ltb _ _ (L.exists-hget _ _ _ db h)
