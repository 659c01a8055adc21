-- ===== src/Tests/Threads.antt =====
-- The interleavings, at a database with one account, and at one with none.
use isolation_server.Common.{◌≡◌, refl, true, [], ◌∷◌, none, some, text, bytes_eq, arith}
use isolation_server.Redis.Memory
use isolation_server.Redis.Memory.{memory, memory-Laws, Fields}
use isolation_server.Program.{run, done, ◌>>◌}
use isolation_server.Server
use isolation_server.Server.Keys.{id_key, client_key, logined_key}
use isolation_server.Server.Journey.{login_of}
use isolation_server.Interleaving.{interleave}
use isolation_server.Interleaving.Races.{both, racing, two_logins_race}
use isolation_server.Interleaving.TornAccount.{registration_torn}
use isolation_server.Tests.Data.{externals, alice, alice_login}

abbrev stored : Fields
stored =
    (text "id:alic", text "password", text "#pass")
    ∷ (text "id:alic", text "nickname", text "wond")
    ∷ (text "id:alic", text "personalColor", text "red")
    ∷ []

two_logins_race_example :
    let end = interleave memory racing (
      both memory
        (Server.login externals 5 7 alice_login)
        (Server.login externals 5 8 alice_login)
        stored) in
    (end.left.program ≡ done Server.accept)
    × (end.right.program ≡ done Server.accept)
    × (memory.hget (client_key 7) (text "loginId") end.database ≡ some (text "alic"))
    × (memory.hget (client_key 8) (text "loginId") end.database ≡ some (text "alic"))
unfolding Memory.exists Memory.hget bytes_eq id_key logined_key
two_logins_race_example =
    two_logins_race memory-Laws externals 5 7 8 alice_login stored refl refl refl (λ e. omega arith)

registration_torn_example :
    run {R = memory} (Server.login externals 5 7 (login_of alice) >> Server.player_data 7) (record {
      database =
          (interleave memory
            (true ∷ true ∷ [])
            (both memory (Server.create_account externals alice) (done tt) [])).database;
      login_key = [];
      posted = [];
    })
    ≡ none
unfolding Memory.exists
registration_torn_example =
    registration_torn memory-Laws externals 5 7 alice [] [] [] refl refl (omega arith) (omega arith)
      (omega arith)
