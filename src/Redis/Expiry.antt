-- ===== src/Redis/Expiry.antt =====
-- What is left to the keys of redis until they expire, as a parameter beside `Redis`.
pub mod Timed
use isolation_server.Common.{ℕ, ◌<◌, ◌≡◌, Option, none, some, Bytes, bytes_eq, if◌then◌else◌}
use isolation_server.Redis.{Redis}

pub record Expiry (R : Redis) : Type 0 where
  -- TTL, in seconds: none for a key that does not expire or does not exist.
  pub ttl : Bytes → R.Database → Option ℕ

-- The commands run at one instant.
pub record ExpiryLaws {R : Redis} (X : Expiry R) : Type 0 where
  pub ttl-expire :
      (k k' : Bytes) (t : ℕ) (db : R.Database)
      → 0 < t
      → 0 < R.exists k db
      → X.ttl k' (R.expire k t db).1 ≡ (if bytes_eq k k' then some t else X.ttl k' db)
  pub ttl-persist :
      (k k' : Bytes) (db : R.Database)
      → X.ttl k' (R.persist k db).1 ≡ (if bytes_eq k k' then none else X.ttl k' db)
  -- HSET leaves the timeout of its key as it is.
  pub ttl-hset : (k f v k' : Bytes) (db : R.Database) → X.ttl k' (R.hset k f v db).1 ≡ X.ttl k' db
