-- ===== src/Redis/Strings.antt =====
-- The commands on strings, as a parameter beside `Redis`: a key may also hold a string.
pub mod Fields
use isolation_server.Common.{ℕ, ◌≡◌, false, Option, some, Bytes, bytes_eq, if◌then◌else◌}
use isolation_server.Redis.{Redis}

pub record Strings (R : Redis) : Type 0 where
  pub get : Bytes → R.Database → Option Bytes
  -- SET: whatever the key held before, it holds the string.
  pub set : Bytes → Bytes → R.Database → R.Database
  pub flushall : R.Database → R.Database

pub record StringLaws {R : Redis} (S : Strings R) : Type 0 where
  pub get-set : (k v : Bytes) (db : R.Database) → S.get k (S.set k v db) ≡ some v
  pub exists-set :
      (k v k' : Bytes) (db : R.Database)
      → R.exists k' (S.set k v db) ≡ (if bytes_eq k k' then 1 else R.exists k' db)
  -- The hashes of other keys are as they were.
  pub hget-set :
      (k v k' f : Bytes) (db : R.Database)
      → bytes_eq k k' ≡ false
      → R.hget k' f (S.set k v db) ≡ R.hget k' f db
  pub hlen-set :
      (k v k' : Bytes) (db : R.Database)
      → bytes_eq k k' ≡ false
      → R.hlen k' (S.set k v db) ≡ R.hlen k' db
  pub exists-flushall : (k : Bytes) (db : R.Database) → R.exists k (S.flushall db) ≡ 0
