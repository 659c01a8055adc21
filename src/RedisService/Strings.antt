-- ===== src/RedisService/Strings.antt =====
-- Set, Get and FlushAll of src/redisService.cpp.
use isolation_server.Common.{Bool, true, false, [], ◌∷◌, Option, Bytes}
use isolation_server.Redis.{Redis}
use isolation_server.Redis.Strings.{Strings}

module _ {R : Redis} (S : Strings R) where
  -- The empty key is refused.
  abbrev pub set : (key value : Bytes) → R.Database → Bool × R.Database
  set [] value db = (false, db)
  set (b ∷ bs) value db = (true, S.set (b ∷ bs) value db)

  abbrev pub get : (key : Bytes) → R.Database → Option Bytes
  get key db = S.get key db

  abbrev pub flush_all : R.Database → R.Database
  flush_all db = S.flushall db
