-- ===== src/Redis.antt =====
-- What the server relies on from redis-plus-plus and the redis server behind it: a parameter of the
-- model. `Database` is the state of a redis server in which every key holds a hash, which is all
-- that the authentication server stores; the commands are those of sw::redis::Redis, for a server
-- that answers. `Laws` has the documented meaning of the commands.

pub mod Derived
pub mod Scanning
pub mod Strings
pub mod Expiry
pub mod Sets
pub mod Memory
use isolation_server.Common.{
  ℕ, ◌<◌, ◌+◌, true, not, ◌≡◌, Bool, false, ◌&&◌, Option, none, some, Bytes, bytes_eq,
  if◌then◌else◌,
}

pub record Redis : Type 1 where
  pub Database : Type 0
  -- EXISTS: how many of the given keys exist.
  pub exists : Bytes → Database → ℕ
  -- DEL: how many keys were removed.
  pub del : Bytes → Database → ℕ × Database
  pub persist : Bytes → Database → Bool × Database
  pub hget : Bytes → Bytes → Database → Option Bytes
  -- HSET: whether the field is new.
  pub hset : Bytes → Bytes → Bytes → Database → Bool × Database
  -- HDEL: how many fields were removed.
  pub hdel : Bytes → Bytes → Database → ℕ × Database
  pub hexists : Bytes → Bytes → Database → Bool
  -- HLEN: how many fields the key has.
  pub hlen : Bytes → Database → ℕ
  -- EXPIRE, in seconds.
  pub expire : Bytes → ℕ → Database → Bool × Database

pub record Laws (R : Redis) : Type 0 where
  -- A key that has a field exists.
  pub exists-hget : (k f v : Bytes) (db : R.Database) → R.hget k f db ≡ some v → 0 < R.exists k db
  pub hget-hset :
      (k f v k' f' : Bytes) (db : R.Database)
      → R.hget k' f' (R.hset k f v db).1
        ≡ (if bytes_eq k k' && bytes_eq f f' then some v else R.hget k' f' db)
  pub hget-hdel :
      (k f k' f' : Bytes) (db : R.Database)
      → R.hget k' f' (R.hdel k f db).1
        ≡ (if bytes_eq k k' && bytes_eq f f' then none else R.hget k' f' db)
  pub hget-del :
      (k k' f' : Bytes) (db : R.Database)
      → R.hget k' f' (R.del k db).1 ≡ (if bytes_eq k k' then none else R.hget k' f' db)
  pub hget-persist :
      (k k' f' : Bytes) (db : R.Database) → R.hget k' f' (R.persist k db).1 ≡ R.hget k' f' db
  -- A command on one key leaves the other keys in being as they are; DEL removes its key.
  pub exists-hset :
      (k f v k' : Bytes) (db : R.Database)
      → R.exists k' (R.hset k f v db).1 ≡ (if bytes_eq k k' then 1 else R.exists k' db)
  pub exists-hdel :
      (k f k' : Bytes) (db : R.Database)
      → bytes_eq k k' ≡ false
      → R.exists k' (R.hdel k f db).1 ≡ R.exists k' db
  pub exists-del :
      (k k' : Bytes) (db : R.Database)
      → R.exists k' (R.del k db).1 ≡ (if bytes_eq k k' then 0 else R.exists k' db)
  pub exists-persist :
      (k k' : Bytes) (db : R.Database) → R.exists k' (R.persist k db).1 ≡ R.exists k' db
  -- HEXISTS and HLEN agree with the fields; PERSIST, and EXPIRE with a timeout
  -- above zero, leave the fields of now as they are.
  pub hexists-hget :
      (k f : Bytes) (db : R.Database)
      → R.hexists k f db ≡ elim (R.hget k f db) [ none ↦ false | some v ↦ true ]
  pub hlen-hset :
      (k f v k' : Bytes) (db : R.Database)
      → R.hlen k' (R.hset k f v db).1
        ≡ (if bytes_eq k k' && not (R.hexists k f db) then R.hlen k' db + 1 else R.hlen k' db)
  pub hget-expire :
      (k k' f' : Bytes) (t : ℕ) (db : R.Database)
      → 0 < t
      → R.hget k' f' (R.expire k t db).1 ≡ R.hget k' f' db
  pub exists-expire :
      (k k' : Bytes) (t : ℕ) (db : R.Database)
      → 0 < t
      → R.exists k' (R.expire k t db).1 ≡ R.exists k' db
  pub hlen-expire :
      (k k' : Bytes) (t : ℕ) (db : R.Database)
      → 0 < t
      → R.hlen k' (R.expire k t db).1 ≡ R.hlen k' db
  pub hlen-persist : (k k' : Bytes) (db : R.Database) → R.hlen k' (R.persist k db).1 ≡ R.hlen k' db
