-- ===== src/RedisService/Sets.antt =====
-- The calls of src/redisService.cpp on sets.
use isolation_server.Common.{ℕ, Bool, List, Bytes, ltb}
use isolation_server.Redis.{Redis}
use isolation_server.Redis.Sets.{Sets}
use isolation_server.Util.Words.{to_int}

module _ {R : Redis} (S : Sets R) where
  abbrev pub set_add : (key member : Bytes) → R.Database → Bool × R.Database
  set_add key member db = let (added, db') = S.sadd key member db in (ltb 0 added, db')

  abbrev pub set_remove : (key member : Bytes) → R.Database → Bool × R.Database
  set_remove key member db = let (removed, db') = S.srem key member db in (ltb 0 removed, db')

  abbrev pub set_member_exists : (key member : Bytes) → R.Database → Bool
  set_member_exists key member db = S.sismember key member db

  abbrev pub set_members : (key : Bytes) → R.Database → List Bytes
  set_members key db = S.smembers key db

  -- The number is cut to an `int`, which the unsigned result keeps.
  abbrev pub set_cardinality : (key : Bytes) → R.Database → ℕ
  set_cardinality key db = to_int (S.scard key db)
