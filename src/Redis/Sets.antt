-- ===== src/Redis/Sets.antt =====
-- The commands on sets, as a parameter beside `Redis`.
use isolation_server.Common.{ℕ, Bool, List, Bytes}
use isolation_server.Redis.{Redis}

pub record Sets (R : Redis) : Type 0 where
  -- SADD and SREM: how many members were added or removed.
  pub sadd : (key member : Bytes) → R.Database → ℕ × R.Database
  pub srem : (key member : Bytes) → R.Database → ℕ × R.Database
  pub sismember : (key member : Bytes) → R.Database → Bool
  pub smembers : (key : Bytes) → R.Database → List Bytes
  pub scard : (key : Bytes) → R.Database → ℕ
