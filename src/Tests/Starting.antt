-- ===== src/Tests/Starting.antt =====
-- The theorems on the start, after a run that has left a connection behind.
use isolation_server.Common.{◌≤◌, ◌≡◌, refl, [], ◌++◌, List, some, text, Bytes, All}
use isolation_server.Redis.Memory.{memory, memory-Laws}
use isolation_server.Redis.Scanning.{listed}
use isolation_server.Redis.Scanning.Keys.{memory_scanner, memory_scanner-Laws, one_call}
use isolation_server.RedisService
use isolation_server.RedisService.Scan.{scan, scan_finds}
use isolation_server.Program.{World}
use isolation_server.Server
use isolation_server.Server.Spec.{View, register}
use isolation_server.Server.Refines.{Refined, after}
use isolation_server.Server.Refines.Register.{create_account_refines}
use isolation_server.Server.Represents.{Represents}
use isolation_server.Server.System
use isolation_server.Server.System.Sound.{IsSound}
use isolation_server.Startup.{clean, fresh}
use isolation_server.Startup.Clean.{accounts_only}
use isolation_server.Common.Parse.{stoi, is_digit, is_space, digits}
use isolation_server.Common.{ℕ, Bool, ◌==◌, if◌then◌else◌, ◌%◌, ◌^◌}
use isolation_server.Startup.Main.{Environment, Running, running, zero, start, start-IsSound}
use isolation_server.Startup.Crash.{upto, program, restart_recovers}
use isolation_server.Tests.Data.{externals, alice, connected_view, announced, connected_world}

scan_finds_example :
    (found : List Bytes) × (scan memory_scanner 1
        (text "client:" ++ text "*")
        connected_world.database
      ≡ some found)
    × ((rest : Bytes)
        → listed (text "client:" ++ rest) found
          ≡ RedisService.exists memory (text "client:" ++ rest) connected_world.database)
    × All (λ k. (rest : Bytes) × (k ≡ text "client:" ++ rest)) found
scan_finds_example =
    scan_finds memory_scanner-Laws (text "client:") connected_world.database 1
      (refl, (refl, (refl, (refl, (refl, (refl, (refl, tt)))))))
      (one_call (text "client:*") connected_world.database)

-- Token 7 is connected, and alice has an account.
abbrev alice_view : View
alice_view = (register externals.sha256 alice connected_view).1

alice_registers :
    Refined
      (λ _. [])
      connected_world
      (Server.create_account externals alice)
      (register externals.sha256 alice connected_view)
alice_registers =
    create_account_refines memory-Laws externals alice connected_world connected_view
      announced.represents

abbrev alice_world : World memory
alice_world = after connected_world alice_registers

abbrev environment : Environment
environment = record { git_commit_sha = some (text "a1b2"); listening_port = some (text "70000") }

-- A system with one free port.
abbrev only_4464 : ℕ → Bool
only_4464 port = port == 4464

start-IsSound_example :
    (r : Running memory) × (start memory_scanner only_4464 environment 8 1 alice_world.database
      ≡ (if only_4464 (70000 % 2 ^ 16) then running r else zero r.system.database))
    × (r.port ≡ 70000 % 2 ^ 16)
    × (1 ≤ r.threads)
    × Represents memory r.system.database (accounts_only alice_view.account)
    × IsSound r.system
unfolding stoi is_digit is_space digits
start-IsSound_example =
    start-IsSound memory-Laws memory_scanner-Laws only_4464 environment (text "a1b2") (text "70000")
      70000 8 1 alice_world.database alice_view.account refl refl refl
      alice_registers.represents.accounts (one_call (text "client:*") alice_world.database)
      (one_call (text "logined:*") alice_world.database)

-- The process ends after four calls of a login of alice: the connection has its login id, and the
-- login is not held.
abbrev interrupted : World memory
interrupted =
    upto 4 (program externals (System.packet 6 7 System.login (text "alicpass") 8)) alice_world

restart_recovers_example :
    (db : memory.Database) × (clean memory_scanner 1 interrupted.database ≡ some db)
    × Represents memory db (accounts_only alice_view.account)
    × IsSound (fresh memory_scanner db)
unfolding isolation_server.Startup.Crash.registers
restart_recovers_example =
    restart_recovers memory-Laws memory_scanner-Laws externals
      (System.packet 6 7 System.login (text "alicpass") 8) 4 alice_world alice_view.account 1 refl
      alice_registers.represents.accounts (one_call (text "client:*") interrupted.database)
      (one_call (text "logined:*") interrupted.database)
