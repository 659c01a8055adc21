-- ===== src/Server/Refines/Connection.antt =====
-- The calls of AddClient and RemoveClient of src/Server.cpp, and `connect` and the end of `disconnect`.
use isolation_server.Common.{
  ℕ, ◌≡◌, refl, ◌∙◌, false, ◌==◌, ==_iff, Option, none, some, Bytes, text, bytes_eq, to_string,
  Bool-cases, inl, inr,
}
use isolation_server.Redis.{Redis, Laws}
use isolation_server.Redis.Derived.{hget-hset_self, hget-hset_field, exists-del_self, hget_absent}
use isolation_server.Program.{World, run}
use isolation_server.Server
use isolation_server.Server.Keys.{client_key, client_key-ne, client-id, client-logined}
use isolation_server.Server.Spec.{Presence, View, at_token, connect, connect_at}
use isolation_server.Server.Represents.{
  Represents, PresenceAt, Same, AccountAt-Same, PresenceAt-Same, HolderAt-Same, hset-Same, del-Same,
}
use isolation_server.Server.Refines.{Refined}

-- A change of the key of one connection only.
module _ {R : Redis} (token : ℕ) (p : Option Presence) (v : View) {db db' : R.Database} where
  client_key_change :
      ((k : Bytes) → bytes_eq (client_key token) k ≡ false → Same R k db db')
      → PresenceAt R db' token p
      → Represents R db v
      → Represents R db' (record v { presence = at_token v.presence token p })
  client_key_change same here r = record {
    accounts = λ j. AccountAt-Same j (v.account j) (same _ (client-id j token)) (r.accounts j);
    presences = λ t. elim (Bool-cases (token == t)) [
      | inl e ↦ rw (e, ← (==_iff token t).0 e) here
      | inr other ↦
          rw other (
            PresenceAt-Same t (v.presence t) (same _ (client_key-ne token t other)) (r.presences t))
    ];
    holders = λ j. HolderAt-Same j (v.holder j) (same _ (client-logined j token)) (r.holders j);
  }

time_ne : bytes_eq (text "ConnectedTime") (text "loginId") ≡ false
unfolding bytes_eq
time_ne = refl

module _ {R : Redis} (L : Laws R) (w : World R) (v : View) (r : Represents R w.database v)
    (token : ℕ) where
  announced_at :
      (now : ℕ) (p : Option Presence)
      → PresenceAt R w.database token p
      → PresenceAt R
          (R.hset (client_key token) (text "ConnectedTime") (to_string now) w.database).1
          token
          (some (connect_at (to_string now) p))
  announced_at now none h =
      (hget-hset_self L _ _ _ _, hget-hset_field L _ _ _ _ _ time_ne ∙ hget_absent L _ _ _ h)
  announced_at now (some p) h =
      (hget-hset_self L _ _ _ _, hget-hset_field L _ _ _ _ _ time_ne ∙ h.1)

  pub announce_refines :
      (now : ℕ)
      → Refined
          (λ _. w.login_key)
          w
          (Server.announce now token)
          (tt, connect (to_string now) token v)
  unfolding run Server.announce connect
  announce_refines now = record {
    database = (R.hset (client_key token) (text "ConnectedTime") (to_string now) w.database).1;
    runs = refl;
    represents =
        client_key_change token _ v (λ k other. hset-Same L _ k other _ _ _)
          (announced_at now (v.presence token) (r.presences token)) r;
  }

  pub forget_refines :
      Refined
        (λ _. w.login_key)
        w
        (Server.forget token)
        (tt, record v { presence = at_token v.presence token none })
  unfolding run Server.forget
  forget_refines = record {
    database = (R.del (client_key token) w.database).1;
    runs = refl;
    represents =
        client_key_change token none v (λ k other. del-Same L _ k other _) (exists-del_self L _ _)
          r;
  }
