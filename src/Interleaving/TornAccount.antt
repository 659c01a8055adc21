-- ===== src/Interleaving/TornAccount.antt =====
-- A thread in the middle of HandleRequestCreationAccount of src/Server.cpp, and another one that
-- reads the account.
use isolation_server.Common.{
  ℕ, ◌≤◌, ◌≡◌, refl, ◌∙◌, true, false, arith, List, [], ◌∷◌, none, some, Bytes, text, bytes_eq,
  bytes_eq_refl, lt→ltb, length,
}
use isolation_server.Redis.{Redis, Laws}
use isolation_server.Redis.Derived.{hget-hset_self, hget-hset_field, hget_absent}
use isolation_server.RedisService
use isolation_server.Program.{World, run, run-bind, done, ◌>>◌}
use isolation_server.Server
use isolation_server.Server.Keys.{
  id_key, client_key, logined_key, id-logined, logined-id, client-id,
}
use isolation_server.Server.Messages.{Externals, RegisterAccount}
use isolation_server.Server.Represents.{Same, Same-trans, hset-Same}
use isolation_server.Server.Journey.{login_of}
use isolation_server.Interleaving.{turn, interleave}
use isolation_server.Interleaving.Races.{both, logged, logged-client}

module _ {R : Redis} (L : Laws R) (E : Externals) (now token : ℕ) (m : RegisterAccount)
    (db : R.Database) (unused : R.exists (id_key m.id) db ≡ 0)
    (free : R.exists (logined_key m.id) db ≡ 0) where
  -- The database after the first HSET of a registration.
  abbrev half : R.Database
  half = (R.hset (id_key m.id) (text "password") (E.sha256 m.password) db).1

  abbrev half_logged : R.Database
  half_logged = logged L now token m.id half

  half_free : RedisService.exists R (logined_key m.id) half ≡ false
  half_free =
      rw ((hset-Same L (id_key m.id) (logined_key m.id) (id-logined m.id m.id) db _ _).exists, free)

  half_password : R.hget (id_key m.id) (text "password") half ≡ some (E.sha256 m.password)
  half_password = hget-hset_self L _ _ _ _

  half_known : RedisService.exists R (id_key m.id) half ≡ true
  half_known = lt→ltb _ _ (L.exists-hget _ _ _ _ half_password)

  half_nickname : R.hget (id_key m.id) (text "nickname") half ≡ none
  unfolding bytes_eq
  half_nickname = hget-hset_field L _ _ _ _ _ refl ∙ hget_absent L _ _ _ unused

  logged-Same : Same R (id_key m.id) half half_logged
  logged-Same = Same-trans (hset-Same L (client_key token) _ (client-id m.id token) half _ _) (
      Same-trans (hset-Same L (logined_key m.id) _ (logined-id m.id m.id) _ _ _)
        (hset-Same L (logined_key m.id) _ (logined-id m.id m.id) _ _ _))

  logged_in : R.hget (client_key token) (text "loginId") half_logged ≡ some m.id
  logged_in = logged-client L now token m.id half token ∙ rw (bytes_eq_refl (client_key token)) refl

  logged_known : RedisService.exists R (client_key token) half_logged ≡ true
  logged_known = lt→ltb _ _ (L.exists-hget _ _ _ _ logged_in)

  abbrev at : Bytes → List Bytes → R.Database → World R
  at key posted d = record { database = d; login_key = key; posted = posted }

  half_stored :
      2 ≤ length m.id
      → 2 ≤ length m.password
      → 2 ≤ length m.nickname
      → (interleave R (true ∷ true ∷ []) (both R (Server.create_account E m) (done tt) db)).database
        ≡ half
  unfolding interleave turn Server.create_account Server.store
  half_stored i q n = ground (arith, i, q, n, unused)

  still_known : RedisService.exists R (id_key m.id) half_logged ≡ true
  still_known = rw logged-Same.exists half_known

  read_fails :
      (key : Bytes) (posted : List Bytes)
      → run (Server.player_data token) (at key posted half_logged) ≡ none
  unfolding run Server.player_data Server.check_login Server.check_account Server.read_account
  read_fails key posted = ground (
    arith,
    logged_known,
    logged_in,
    still_known,
    logged-Same.hget (text "nickname") ∙ half_nickname,
  )

  login_passes :
      (key : Bytes) (posted : List Bytes)
      → run (Server.login E now token (login_of m)) (at key posted half)
        ≡ some (Server.accept, at (logined_key m.id) posted half_logged)
  unfolding run Server.login Server.check_password Server.check_logined Server.enter
  login_passes key posted =
      ground (arith, half_known, half_password, bytes_eq_refl (E.sha256 m.password), half_free)

-- A thread has made two calls of the registration of an unused id, with long enough texts, whose
-- login nobody holds: it has looked for the id and stored the password. If another thread then
-- serves a login with that id and password, and after it a request for the player's data, the
-- latter dereferences an empty optional.
pub registration_torn :
    {R : Redis} (L : Laws R) (E : Externals) (now token : ℕ) (m : RegisterAccount) (db : R.Database)
    (key : Bytes) (posted : List Bytes)
    → R.exists (id_key m.id) db ≡ 0
    → R.exists (logined_key m.id) db ≡ 0
    → 2 ≤ length m.id
    → 2 ≤ length m.password
    → 2 ≤ length m.nickname
    → run {R = R} (Server.login E now token (login_of m) >> Server.player_data token) (record {
      database =
          (interleave R
            (true ∷ true ∷ [])
            (both R (Server.create_account E m) (done tt) db)).database;
      login_key = key;
      posted = posted;
    })
      ≡ none
registration_torn {R} L E now token m db key posted unused free i q n =
    rw (half_stored L E now token m db unused free i q n) (
      run-bind (Server.login E now token (login_of m)) _ _ _ Server.accept
        (login_passes L E now token m db unused free key posted)
      ∙ read_fails L E now token m db unused free (logined_key m.id) posted)
