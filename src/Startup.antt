-- ===== src/Startup.antt =====
-- The start in src/main.cpp, from Ping to the server: the keys of the connections and of the logins
-- that an earlier run has left are deleted.
pub mod Clean
pub mod Main
pub mod Crash
use isolation_server.Common.{ℕ, ◌++◌, List, [], ◌∷◌, Option, none, some, Bytes, text}
use isolation_server.Redis.{Redis}
use isolation_server.Redis.Scanning.{Scanner}
use isolation_server.RedisService
use isolation_server.RedisService.Scan.{scan}
use isolation_server.Server.System.{System}

-- The Del of each key of the scans, in order.
unfoldable pub scrub : (R : Redis) → List Bytes → R.Database → R.Database
scrub R [] db = db
scrub R (key ∷ keys) db = scrub R keys (RedisService.del R key db).1

module _ {R : Redis} (S : Scanner R) where
  abbrev pub scrubbed : R.Database → Option (List Bytes) → Option (List Bytes) → Option R.Database
  scrubbed db (some clients) (some logins) = some (scrub R (clients ++ logins) db)
  scrubbed db none logins = none
  scrubbed db (some clients) none = none

  -- The database that the server starts on.
  unfoldable pub clean : (fuel : ℕ) → R.Database → Option R.Database
  clean fuel db = scrubbed db (scan S fuel (text "client:*") db) (scan S fuel (text "logined:*") db)

  -- The server before its first connection.
  abbrev pub fresh : R.Database → System R
  fresh db = record { database = db; connected = []; sockets = [] }
