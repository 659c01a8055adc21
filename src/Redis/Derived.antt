-- ===== src/Redis/Derived.antt =====
-- Consequences of the laws, for one key.
use isolation_server.Common.{
  ◌≡◌, ◌∙◌, false, none, some, Bytes, bytes_eq, bytes_eq_refl, arith, Option-cases, inl, inr,
}
use isolation_server.Redis.{Redis, Laws}

module _ {R : Redis} (L : Laws R) (k f : Bytes) (db : R.Database) where
  pub hget-hset_self : (v : Bytes) → R.hget k f (R.hset k f v db).1 ≡ some v
  hget-hset_self v = L.hget-hset k f v k f db ∙ rw (bytes_eq_refl k, bytes_eq_refl f)

  pub hget-hset_field :
      (f' v : Bytes) → bytes_eq f f' ≡ false → R.hget k f' (R.hset k f v db).1 ≡ R.hget k f' db
  hget-hset_field f' v other = L.hget-hset k f v k f' db ∙ rw (bytes_eq_refl k, other)

  pub hget-hdel_self : R.hget k f (R.hdel k f db).1 ≡ none
  hget-hdel_self = L.hget-hdel k f k f db ∙ rw (bytes_eq_refl k, bytes_eq_refl f)

  pub hget-hdel_field :
      (f' : Bytes) → bytes_eq f f' ≡ false → R.hget k f' (R.hdel k f db).1 ≡ R.hget k f' db
  hget-hdel_field f' other = L.hget-hdel k f k f' db ∙ rw (bytes_eq_refl k, other)

module _ {R : Redis} (L : Laws R) (k : Bytes) (db : R.Database) where
  pub exists-del_self : R.exists k (R.del k db).1 ≡ 0
  exists-del_self = L.exists-del k k db ∙ rw (bytes_eq_refl k)

  -- A key that does not exist has no field.
  pub hget_absent : (f : Bytes) → R.exists k db ≡ 0 → R.hget k f db ≡ none
  hget_absent f gone = elim (Option-cases (R.hget k f db)) [
    | inl e ↦ e
    | inr (v, e) ↦ absurd (omega (arith, gone, L.exists-hget k f v db e))
  ]
