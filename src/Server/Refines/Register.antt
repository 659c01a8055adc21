-- ===== src/Server/Refines/Register.antt =====
-- HandleRequestCreationAccount of src/Server.cpp and `register`.
use isolation_server.Common.{
  ◌≡◌, refl, ◌∙◌, true, false, Option, none, some, Bytes, text, bytes_eq, bytes_eq_iff,
  if◌then◌else◌, Bool-cases, inl, inr, ltb, length,
}
use isolation_server.Redis.{Redis, Laws}
use isolation_server.Redis.Derived.{hget-hset_self, hget-hset_field}
use isolation_server.Program.{World, run, done, exists, ◌>>=◌}
use isolation_server.Server.{create_account, store, refuse}
use isolation_server.Server.Keys.{id_key, client_key, logined_key, id_key-eq, id-client, id-logined}
use isolation_server.Server.Messages.{Externals, RegisterAccount}
use isolation_server.Server.Spec.{Account, View, new_account, register, register_free, at_id}
use isolation_server.Server.Represents.{
  Represents, AccountAt, Same, Same-trans, AccountAt-Same, PresenceAt-Same, HolderAt-Same,
  hset-Same, account_absent, account_present,
}
use isolation_server.Server.Refines.{Refined, Refined-if, Refined-done, Refined-exists}

module _ {R : Redis} (L : Laws R) (E : Externals) (m : RegisterAccount) where
  open R use {Database}

  abbrev key : Bytes
  key = id_key m.id

  -- The database after the three HSET of a registration.
  stored : Database → Database
  stored db =
      (R.hset key (text "personalColor") m.personal_color
        (R.hset key (text "nickname") m.nickname
          (R.hset key (text "password") (E.sha256 m.password) db).1).1).1

  stored-Same : (k : Bytes) (db : Database) → bytes_eq key k ≡ false → Same R k db (stored db)
  unfolding stored
  stored-Same k db other =
      Same-trans (hset-Same L key k other db _ _)
        (Same-trans (hset-Same L key k other _ _ _) (hset-Same L key k other _ _ _))

  stored-AccountAt : (db : Database) → AccountAt R (stored db) m.id (some (new_account E.sha256 m))
  unfolding stored bytes_eq
  stored-AccountAt db = (
    hget-hset_field L key _ _ _ _ refl
        ∙ hget-hset_field L key _ _ _ _ refl
        ∙ hget-hset_self L key _ _ _,
    hget-hset_field L key _ _ _ _ refl ∙ hget-hset_self L key _ _ _,
    hget-hset_self L key _ _ _,
  )

  stored-Represents :
      (db : Database) (v : View)
      → Represents R db v
      → Represents R
          (stored db)
          (record v { account = at_id v.account m.id (some (new_account E.sha256 m)) })
  stored-Represents db v r = record {
    accounts = λ id. elim (Bool-cases (bytes_eq m.id id)) [
      | inl same ↦ rw (same, ← (bytes_eq_iff m.id id).0 same) (stored-AccountAt db)
      | inr other ↦ rw other (
          AccountAt-Same id (v.account id) (stored-Same (id_key id) db (id_key-eq m.id id ∙ other))
            (r.accounts id))
    ];
    presences = λ t.
        PresenceAt-Same t (v.presence t) (stored-Same (client_key t) db (id-client m.id t))
          (r.presences t);
    holders = λ id.
        HolderAt-Same id (v.holder id) (stored-Same (logined_key id) db (id-logined m.id id))
          (r.holders id);
  }

  -- The part of a registration behind the checks of the lengths.
  free_refines :
      (w : World R) (v : View) (a : Option Account)
      → v.account m.id ≡ a
      → Represents R w.database v
      → Refined
          (λ _. w.login_key)
          w
          (do used ← exists key; if used then done (refuse (text "idAleadyInUse")) else store E m)
          (register_free E.sha256 m v a)
  unfolding run store stored
  free_refines w v none e r = Refined-exists key false _ _ (account_absent L r m.id e) (record {
    database = stored w.database;
    runs = refl;
    represents = stored-Represents w.database v r;
  })
  free_refines w v (some a) e r =
      Refined-exists key true _ _ (account_present L r m.id a e).0 (Refined-done _ v refl r)

  -- A free id gets its account; any other registration changes nothing.
  pub create_account_refines :
      (w : World R) (v : View)
      → Represents R w.database v
      → Refined (λ _. w.login_key) w (create_account E m) (register E.sha256 m v)
  unfolding create_account register
  create_account_refines w v r =
      Refined-if (ltb (length m.id) 2) _ _ _ _ (λ _. Refined-done _ v refl r)
        λ _.
          Refined-if (ltb (length m.password) 2) _ _ _ _ (λ _. Refined-done _ v refl r)
            λ _.
              Refined-if (ltb (length m.nickname) 2) _ _ _ _ (λ _. Refined-done _ v refl r)
                λ _. free_refines w v (v.account m.id) refl r
