-- ===== src/Startup/Main.antt =====
-- main of src/main.cpp, from its environment to the server that listens.
use isolation_server.Common.{
  ℕ, Bool, ◌/◌, ◌%◌, ◌^◌, ◌≤◌, ◌≡◌, refl, Option, none, some, Bytes, text, ◌==◌, if◌then◌else◌,
  arith,
}
use isolation_server.Common.Parse.{number, invalid_argument, out_of_range, stoi}
use isolation_server.Redis.{Redis, Laws}
use isolation_server.Redis.Scanning.{Scanner, ScanLaws}
use isolation_server.RedisService.Scan.{enough}
use isolation_server.Server.Spec.{Account}
use isolation_server.Server.Represents.{Represents, AccountAt}
use isolation_server.Server.System.{System}
use isolation_server.Server.System.Sound.{IsSound}
use isolation_server.Startup.{clean, fresh}
use isolation_server.Startup.Clean.{accounts_only, clean-IsSound}

-- GIT_COMMIT_SHA and ISOLATION_SERVER_LISTENING_PORT.
pub record Environment : Type 0 where
  pub git_commit_sha : Option Bytes
  pub listening_port : Option Bytes

-- The server with its acceptor and its threads, before the first connection.
pub record Running (R : Redis) : Type 0 where
  pub port : ℕ
  pub threads : ℕ
  pub system : System R

-- How main goes, where redis answers: it returns -1, -2 or -3; it returns 0, with a database, after the
-- constructor of Acceptor has thrown; or it runs. `unfinished` is a scan that is cut off.
pub data Started (R : Redis) : Type 0 where
  minus_one minus_two minus_three : Started R
  zero : R.Database → Started R
  unfinished : Started R
  running : Running R → Started R

-- Half of the hardware's threads, but at least one.
unfoldable pub concurrency : ℕ → ℕ
concurrency hardware = let half = hardware / 2 in if half == 0 then 1 else half

-- `binds`: whether the system lets the acceptor be bound to a port.
module _ {R : Redis} (S : Scanner R) (binds : ℕ → Bool) where
  -- The port, an `int`, is cut to the uint16_t of Acceptor.
  abbrev pub listen : (port hardware : ℕ) → Option R.Database → Started R
  listen port hardware none = unfinished
  listen port hardware (some db) =
      if binds (port % 2 ^ 16)
      then running
          (record { port = port % 2 ^ 16; threads = concurrency hardware; system = fresh S db })
      else zero db

  unfoldable pub start : Environment → (hardware : ℕ) → (fuel : ℕ) → R.Database → Started R
  unfolding clean concurrency
  start env hardware fuel db = elim env.git_commit_sha [
    | none ↦ minus_one
    | some sha ↦ elim env.listening_port [
      | none ↦ minus_one
      | some port ↦ elim (stoi port) [
        | invalid_argument ↦ minus_two
        | out_of_range ↦ minus_three
        | number n ↦ listen n hardware (clean S fuel db)
      ]
    ]
  ]

concurrency_some : (hardware : ℕ) → 1 ≤ concurrency hardware
unfolding concurrency
concurrency_some hardware = ground arith

-- Where the commit is named and the port parses, whatever connections and logins the database has,
-- and SCAN keeps what redis documents of it with fuel enough for both scans: if the port, cut to 16
-- bits, can be bound, main runs a server that satisfies its invariant, with the accounts of before, no
-- connection and no login, on that port, with at least one thread; if not, main returns 0 and leaves
-- the database that the server would have started from.
pub start-IsSound :
    {R : Redis} {S : Scanner R} (L : Laws R) (laws : ScanLaws S) (binds : ℕ → Bool)
    (env : Environment) (sha port : Bytes) (n hardware fuel : ℕ) (db : R.Database)
    (account : Bytes → Option Account)
    → env.git_commit_sha ≡ some sha
    → env.listening_port ≡ some port
    → stoi port ≡ number n
    → ((id : Bytes) → AccountAt R db id (account id))
    → enough laws (text "client:*") db ≤ fuel
    → enough laws (text "logined:*") db ≤ fuel
    → (r : Running R) × (start S binds env hardware fuel db
        ≡ (if binds (n % 2 ^ 16) then running r else zero r.system.database))
      × (r.port ≡ n % 2 ^ 16)
      × (1 ≤ r.threads)
      × Represents R r.system.database (accounts_only account)
      × IsSound r.system
unfolding start
start-IsSound {S = S} L laws binds env sha port n hardware fuel db account commit listening parses
      accounts clients_end logins_end =
    let (db', ends, holds, sound) =
      clean-IsSound L laws db account fuel accounts clients_end logins_end in
    (
      record { port = n % 2 ^ 16; threads = concurrency hardware; system = fresh S db' },
      rw (commit, start, listening, parses, ends) refl,
      refl,
      concurrency_some hardware,
      holds,
      sound,
    )
