-- ===== src/RedisService.antt =====
-- src/redisInterface.h and src/redisService.cpp: the calls that the servers make of
-- IRedis, as RedisService forwards them to redis-plus-plus.
pub mod Scan
pub mod Strings
pub mod Sets
use isolation_server.Common.{ℕ, ◌*◌, List, [], ◌∷◌, Bool, Option, Bytes, ltb}
use isolation_server.Redis.{Redis}

module _ (R : Redis) where
  open R use {Database}

  abbrev pub exists : Bytes → Database → Bool
  exists key db = ltb 0 (R.exists key db)

  abbrev pub del : Bytes → Database → Bool × Database
  del key db = let (removed, db') = R.del key db in (ltb 0 removed, db')

  abbrev pub persist : Bytes → Database → Bool × Database
  persist key db = R.persist key db

  abbrev pub hash_set : Bytes → Bytes → Bytes → Database → Bool × Database
  hash_set key field value db = R.hset key field value db

  abbrev pub hash_get : Bytes → Bytes → Database → Option Bytes
  hash_get key field db = R.hget key field db

  abbrev pub hash_del : Bytes → Bytes → Database → Bool × Database
  hash_del key field db = let (removed, db') = R.hdel key field db in (ltb 0 removed, db')

  abbrev pub hash_field_exists : Bytes → Bytes → Database → Bool
  hash_field_exists key field db = R.hexists key field db

  -- The overload for a list: HMSET, which is the HSET of its pairs in order.
  unfoldable pub hash_set_all : Bytes → List (Bytes × Bytes) → Database → Database
  hash_set_all key [] db = db
  hash_set_all key ((field, value) ∷ pairs) db =
      hash_set_all key pairs (R.hset key field value db).1

  abbrev pub hash_len : Bytes → Database → ℕ
  hash_len key db = R.hlen key db

  abbrev pub expire : Bytes → (minutes : ℕ) → Database → Bool × Database
  expire key minutes db = R.expire key (minutes * 60) db
