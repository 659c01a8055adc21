-- ===== src/Interleaving/Races.antt =====
-- Two threads that run HandleRequestLogin of src/Server.cpp at the same time.
use isolation_server.Common.{
  ℕ, ◌≡◌, ◌≢◌, refl, ap, ◌∙◌, Bool, true, false, arith, List, [], ◌∷◌, some, Bytes, text, bytes_eq,
  bytes_eq_refl, if◌then◌else◌, to_string,
}
use isolation_server.Redis.{Redis, Laws}
use isolation_server.RedisService
use isolation_server.Program.{Program, done}
use isolation_server.Server
use isolation_server.Server.{accept}
use isolation_server.Server.Keys.{id_key, client_key, logined_key, client_key-ne, logined-client}
use isolation_server.Server.Messages.{Externals, Login}
use isolation_server.Server.Represents.{hset-Same}
use isolation_server.Interleaving.{Thread, Both, turn, next, interleave}

abbrev pub start : {A : Type 0} → Program A → Thread A
start p = record { program = p; login_key = []; posted = [] }

-- Two handlers on their way, before either has changed its client.
abbrev pub both : (R : Redis) → {A B : Type 0} → Program A → Program B → R.Database → Both R A B
both R p q db = record { left = start p; right = start q; database = db }

-- The calls of two handlers that alternate: three of the left, three of the right, and then the four
-- that are left of each.
abbrev pub racing : List Bool
racing =
    true ∷ true ∷ true ∷ false ∷ false ∷ false ∷ true ∷ true ∷ true ∷ true ∷ false ∷ false ∷ false
    ∷ false ∷ []

-- The first call of a program leads to another one, and changes nothing.
abbrev Turns : (R : Redis) → {A : Type 0} → R.Database → Program A → Program A → Type 0
Turns R db p q = turn R p (start p) db ≡ (start q, db)

module _ (R : Redis) (E : Externals) (now token : ℕ) (m : Login) (db : R.Database)
    (known : RedisService.exists R (id_key m.id) db ≡ true)
    (fits : R.hget (id_key m.id) (text "password") db ≡ some (E.sha256 m.password))
    (free : RedisService.exists R (logined_key m.id) db ≡ false) where
  first_turn : Turns R db (Server.login E now token m) (Server.check_password E now token m)
  unfolding turn Server.login
  first_turn = rw known refl

  second_turn :
      Turns R db (Server.check_password E now token m) (Server.check_logined E now token m)
  unfolding turn Server.check_password
  second_turn = rw fits (rw (bytes_eq_refl (E.sha256 m.password)) refl)

  third_turn : Turns R db (Server.check_logined E now token m) (Server.enter E now token m)
  unfolding turn Server.check_logined
  third_turn = rw free refl

module _ (R : Redis) {A B : Type 0} (p : Program A) (q : Program B) (db : R.Database) where
  next_left : (p' : Program A) → Turns R db p p' → next R true (both R p q db) ≡ both R p' q db
  unfolding next
  next_left p' e =
      ap (λ (x : Thread A × R.Database). record { left = x.0; right = start q; database = x.1 }) e

  next_right : (q' : Program B) → Turns R db q q' → next R false (both R p q db) ≡ both R p q' db
  unfolding next
  next_right q' e =
      ap (λ (x : Thread B × R.Database). record { left = start p; right = x.0; database = x.1 }) e

module _ {R : Redis} (L : Laws R) (now token : ℕ) (id : Bytes) (db : R.Database) where
  -- The three HSET of a login.
  abbrev pub logged : R.Database
  logged =
      (R.hset (logined_key id) (text "loginTime") (to_string now)
        (R.hset (logined_key id) (text "token") (to_string token)
          (R.hset (client_key token) (text "loginId") id db).1).1).1

  pub logged-client :
      (t : ℕ)
      → R.hget (client_key t) (text "loginId") logged ≡ (
          if bytes_eq (client_key token) (client_key t)
          then some id
          else R.hget (client_key t) (text "loginId") db)
  logged-client t =
      (hset-Same L (logined_key id) (client_key t) (logined-client id t) _ _ _).hget _
      ∙ (hset-Same L (logined_key id) (client_key t) (logined-client id t) _ _ _).hget _
      ∙ L.hget-hset _ _ _ _ _ _
      ∙ ground (arith, bytes_eq_refl (text "loginId"))

-- What is left after the three checks of each.
abbrev entering : List Bool
entering = true ∷ true ∷ true ∷ true ∷ false ∷ false ∷ false ∷ false ∷ []

module _ (R : Redis) (E : Externals) (now s t : ℕ) (m : Login) (db : R.Database)
    (known : RedisService.exists R (id_key m.id) db ≡ true)
    (fits : R.hget (id_key m.id) (text "password") db ≡ some (E.sha256 m.password))
    (free : RedisService.exists R (logined_key m.id) db ≡ false) where
  checks_pass :
      interleave R racing (both R (Server.login E now s m) (Server.login E now t m) db)
      ≡ interleave R entering (both R (Server.enter E now s m) (Server.enter E now t m) db)
  unfolding interleave
  checks_pass =
      ap (interleave R (true ∷ true ∷ false ∷ false ∷ false ∷ entering)) (
        next_left R (Server.login E now s m) (Server.login E now t m) db _
          (first_turn R E now s m db known fits free))
      ∙ ap (interleave R (true ∷ false ∷ false ∷ false ∷ entering)) (
          next_left R (Server.check_password E now s m) (Server.login E now t m) db _
            (second_turn R E now s m db known fits free))
      ∙ ap (interleave R (false ∷ false ∷ false ∷ entering)) (
          next_left R (Server.check_logined E now s m) (Server.login E now t m) db _
            (third_turn R E now s m db known fits free))
      ∙ ap (interleave R (false ∷ false ∷ entering)) (
          next_right R (Server.enter E now s m) (Server.login E now t m) db _
            (first_turn R E now t m db known fits free))
      ∙ ap (interleave R (false ∷ entering)) (
          next_right R (Server.enter E now s m) (Server.check_password E now t m) db _
            (second_turn R E now t m db known fits free))
      ∙ ap (interleave R entering) (
          next_right R (Server.enter E now s m) (Server.check_logined E now t m) db _
            (third_turn R E now t m db known fits free))

entered_both :
    {R : Redis} (L : Laws R) (E : Externals) (now s t : ℕ) (m : Login) (db : R.Database)
    → interleave R entering (both R (Server.enter E now s m) (Server.enter E now t m) db) ≡ record {
      left = record { program = done accept; login_key = logined_key m.id; posted = [] };
      right = record { program = done accept; login_key = logined_key m.id; posted = [] };
      database = logged L now t m.id (logged L now s m.id db);
    }
unfolding interleave turn Server.enter
entered_both L E now s t m db = refl

-- Two connections log in under one free id, with its password, and their handlers alternate: each
-- is answered that it is logged in, and the database has both of them logged in as that id.
pub two_logins_race :
    {R : Redis} (L : Laws R) (E : Externals) (now s t : ℕ) (m : Login) (db : R.Database)
    → RedisService.exists R (id_key m.id) db ≡ true
    → R.hget (id_key m.id) (text "password") db ≡ some (E.sha256 m.password)
    → RedisService.exists R (logined_key m.id) db ≡ false
    → s ≢ t
    → let end = interleave R racing (both R (Server.login E now s m) (Server.login E now t m) db) in
      (end.left.program ≡ done accept)
      × (end.right.program ≡ done accept)
      × (R.hget (client_key s) (text "loginId") end.database ≡ some m.id)
      × (R.hget (client_key t) (text "loginId") end.database ≡ some m.id)
two_logins_race {R} L E now s t m db known fits free differ =
    rw (checks_pass R E now s t m db known fits free ∙ entered_both L E now s t m db) (
      refl,
      refl,
      logged-client L now t m.id (logged L now s m.id db) s
          ∙ rw (client_key-ne t s (ground (arith, differ)))
              (logged-client L now s m.id db s ∙ rw (bytes_eq_refl (client_key s)) refl),
      logged-client L now t m.id (logged L now s m.id db) t
          ∙ rw (bytes_eq_refl (client_key t)) refl,
    )
