-- ===== src/Startup/Clean.antt =====
-- What the start leaves in the database.
use isolation_server.Common.Map
use isolation_server.Common.{
  to_string, ℕ, ◌≤◌, ◌≡◌, refl, true, false, ◌++◌, List, [], ◌∷◌, Option, none, some, Bytes, text,
  bytes_eq, All, Bool-cases, inl, inr, arith,
}
use isolation_server.Redis.{Redis, Laws}
use isolation_server.Redis.Scanning.{Scanner, ScanLaws, listed}
use isolation_server.RedisService
use isolation_server.RedisService.Scan.{enough, scan_finds, listed-append, All-concat}
use isolation_server.Server.Keys.{id_key, client_key, logined_key}
use isolation_server.Server.Spec.{Account, View}
use isolation_server.Server.Represents.{
  Represents, AccountAt, AccountAt-Same, Same, Same-refl, Same-trans, del-Same,
}
use isolation_server.Server.System.Sound.{IsSound}
use isolation_server.Startup.{scrub, clean, fresh}

module _ {R : Redis} (L : Laws R) where
  scrub-absent :
      (k : Bytes) (keys : List Bytes) (db : R.Database)
      → R.exists k db ≡ 0
      → R.exists k (scrub R keys db) ≡ 0
  unfolding scrub
  scrub-absent k [] db h = h
  scrub-absent k (j ∷ keys) db h = scrub-absent k keys _ (ground (arith, L.exists-del j k db))

  scrub-listed :
      (k : Bytes) (keys : List Bytes) (db : R.Database)
      → listed k keys ≡ true
      → R.exists k (scrub R keys db) ≡ 0
  unfolding scrub
  scrub-listed k [] db h = cc
  scrub-listed k (j ∷ keys) db h = elim (Bool-cases (bytes_eq j k)) [
    | inl same ↦ scrub-absent k keys _ (ground (arith, same, L.exists-del j k db))
    | inr other ↦ scrub-listed k keys _ (ground (arith, other, h))
  ]

  scrub-Same :
      (k : Bytes) (keys : List Bytes) (db : R.Database)
      → All (λ j. bytes_eq j k ≡ false) keys
      → Same R k db (scrub R keys db)
  unfolding scrub
  scrub-Same k [] db h = Same-refl k db
  scrub-Same k (j ∷ keys) db h = Same-trans (del-Same L j k h.0 db) (scrub-Same k keys _ h.1)

  -- A key is gone if it is among the keys where it exists.
  scrub_gone :
      (k : Bytes) (keys : List Bytes) (db : R.Database)
      → (RedisService.exists R k db ≡ true → listed k keys ≡ true)
      → R.exists k (scrub R keys db) ≡ 0
  scrub_gone k keys db h = elim (Bool-cases (RedisService.exists R k db)) [
    | inl here ↦ scrub-listed k keys db (h here)
    | inr absent ↦ scrub-absent k keys db (ground (arith, absent))
  ]

-- The view of the accounts alone: nobody is connected, and nobody holds a login.
abbrev pub accounts_only : (Bytes → Option Account) → View
accounts_only account = record { account = account; presence = λ t. none; holder = λ id. none }

All-imp :
    (P Q : Bytes → Type 0) → ((k : Bytes) → P k → Q k) → (ks : List Bytes) → All P ks → All Q ks
All-imp P Q f [] h = tt
All-imp P Q f (k ∷ ks) h = (f k h.0, All-imp P Q f ks h.1)

not_id :
    (id k : Bytes) → (rest : Bytes) × (k ≡ text "client:" ++ rest) → bytes_eq k (id_key id) ≡ false
unfolding bytes_eq id_key
not_id id k (rest, e) = rw e

not_id_either :
    (id k : Bytes) → (rest : Bytes) × (k ≡ text "logined:" ++ rest) → bytes_eq k (id_key id) ≡ false
unfolding bytes_eq id_key
not_id_either id k (rest, e) = rw e

module _ {R : Redis} (S : Scanner R) (keys : List Bytes) (db : R.Database) where
  at_client_key :
      ((rest : Bytes)
        → listed (text "client:" ++ rest) keys ≡ RedisService.exists R (text "client:" ++ rest) db)
      → (token : ℕ) → listed (client_key token) keys ≡ RedisService.exists R (client_key token) db
  unfolding client_key
  at_client_key h token = h (to_string token)

  at_logined_key :
      ((rest : Bytes)
        → listed (text "logined:" ++ rest) keys
          ≡ RedisService.exists R (text "logined:" ++ rest) db)
      → (id : Bytes) → listed (logined_key id) keys ≡ RedisService.exists R (logined_key id) db
  unfolding logined_key
  at_logined_key h id = h id

-- The server starts, whatever earlier connections and logins the database has, where SCAN keeps what
-- redis documents of it and the fuel is enough for both scans: it ends with a database in which the
-- accounts are those of before, with no connection and no login, and this start satisfies the
-- invariant of the server.
pub clean-IsSound :
    {R : Redis} {S : Scanner R} (L : Laws R) (laws : ScanLaws S) (db : R.Database)
    (account : Bytes → Option Account) (fuel : ℕ)
    → ((id : Bytes) → AccountAt R db id (account id))
    → enough laws (text "client:*") db ≤ fuel
    → enough laws (text "logined:*") db ≤ fuel
    → (db' : R.Database) × (clean S fuel db ≡ some db')
      × Represents R db' (accounts_only account)
      × IsSound (fresh S db')
unfolding clean
clean-IsSound {R} {S} L laws db account fuel accounts clients_end logins_end =
    let (clients, runs, at_client, only_client) =
      scan_finds laws (text "client:") db fuel
        (refl, (refl, (refl, (refl, (refl, (refl, (refl, tt))))))) clients_end in
    let (logins, runs', at_login, only_login) =
      scan_finds laws (text "logined:") db fuel
        (refl, (refl, (refl, (refl, (refl, (refl, (refl, (refl, tt)))))))) logins_end in
    let keys = clients ++ logins in
    let holds : Represents R (scrub R keys db) (accounts_only account) = record {
      accounts = λ id.
          AccountAt-Same id (account id)
            (scrub-Same L (id_key id) keys db (
              All-concat _ clients logins (All-imp _ _ (not_id id) clients only_client)
                (All-imp _ _ (not_id_either id) logins only_login)))
            (accounts id);
      presences = λ t. scrub_gone L (client_key t) keys db (λ here. ground (
        arith,
        listed-append (client_key t) clients logins,
        at_client_key S clients db at_client t,
        here,
      ));
      holders = λ id. scrub_gone L (logined_key id) keys db (λ here. ground (
        arith,
        listed-append (logined_key id) clients logins,
        at_logined_key S logins db at_login id,
        here,
      ));
    } in
    (
      scrub R keys db,
      rw (runs, runs') refl,
      holds,
      record {
        view = accounts_only account;
        represents = holds;
        linked = record { linked = λ token id e. cc };
        announced = λ token c found. absurd (Map.find-nil token c found);
      },
    )
