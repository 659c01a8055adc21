-- ===== src/Redis/Expiry/Timed.antt =====
-- A database with timeouts beside it: an instance of the interface, for the tests.
use isolation_server.Common.{
  ℕ, ◌<◌, ◌≡◌, refl, Bool, true, false, Option, none, some, Bytes, bytes_eq, if◌then◌else◌, ◌==◌,
  arith,
}
use isolation_server.Redis.{Redis, Laws}
use isolation_server.Redis.Expiry.{Expiry, ExpiryLaws}
use isolation_server.Redis.Strings.{Strings, StringLaws}

abbrev pub at_key : Bytes → Option ℕ → (Bytes → Option ℕ) → Bytes → Option ℕ
at_key k t e k' = if bytes_eq k k' then t else e k'

abbrev pub Timeouts : Type 0 → Type 0
Timeouts Database = Database × (Bytes → Option ℕ)

-- EXPIRE with a timeout of zero deletes the key.
abbrev pub expire_timed : (R : Redis) → Bytes → ℕ → Timeouts R.Database → Bool × Timeouts R.Database
expire_timed R k t db =
    if t == 0
    then (true, ((R.del k db.0).1, at_key k none db.1))
    else (true, (db.0, at_key k (some t) db.1))

abbrev pub timed : Redis → Redis
timed R = record {
  Database = Timeouts R.Database;
  exists = λ k db. R.exists k db.0;
  del = λ k db. ((R.del k db.0).0, ((R.del k db.0).1, at_key k none db.1));
  persist = λ k db. (true, ((R.persist k db.0).1, at_key k none db.1));
  hget = λ k f db. R.hget k f db.0;
  hset = λ k f v db. ((R.hset k f v db.0).0, ((R.hset k f v db.0).1, db.1));
  hdel = λ k f db. ((R.hdel k f db.0).0, ((R.hdel k f db.0).1, db.1));
  hexists = λ k f db. R.hexists k f db.0;
  hlen = λ k db. R.hlen k db.0;
  expire = expire_timed R;
}

abbrev pub timeouts : (R : Redis) → Expiry (timed R)
timeouts R = record { ttl = λ k db. db.1 k }

abbrev pub timed_strings : {R : Redis} → Strings R → Strings (timed R)
timed_strings S = record {
  get = λ k db. S.get k db.0;
  set = λ k v db. (S.set k v db.0, at_key k none db.1);
  flushall = λ db. (S.flushall db.0, λ k. none);
}

nonzero : (t : ℕ) → 0 < t → (t == 0) ≡ false
nonzero t h = ground (arith, h)

pub timed-Laws : {R : Redis} → Laws R → Laws (timed R)
timed-Laws L = record {
  exists-hget = λ k f v db. L.exists-hget k f v db.0;
  hget-hset = λ k f v k' f' db. L.hget-hset k f v k' f' db.0;
  hget-hdel = λ k f k' f' db. L.hget-hdel k f k' f' db.0;
  hget-del = λ k k' f' db. L.hget-del k k' f' db.0;
  hget-persist = λ k k' f' db. L.hget-persist k k' f' db.0;
  exists-hset = λ k f v k' db. L.exists-hset k f v k' db.0;
  exists-hdel = λ k f k' db. L.exists-hdel k f k' db.0;
  exists-del = λ k k' db. L.exists-del k k' db.0;
  exists-persist = λ k k' db. L.exists-persist k k' db.0;
  hexists-hget = λ k f db. L.hexists-hget k f db.0;
  hlen-hset = λ k f v k' db. L.hlen-hset k f v k' db.0;
  hget-expire = λ k k' f' t db h. rw (nonzero t h) refl;
  exists-expire = λ k k' t db h. rw (nonzero t h) refl;
  hlen-expire = λ k k' t db h. rw (nonzero t h) refl;
  hlen-persist = λ k k' db. L.hlen-persist k k' db.0;
}

pub timeouts-Laws : (R : Redis) → ExpiryLaws (timeouts R)
timeouts-Laws R = record {
  ttl-expire = λ k k' t db h there. rw (nonzero t h) refl;
  ttl-persist = λ k k' db. refl;
  ttl-hset = λ k f v k' db. refl;
}

pub timed_strings-Laws : {R : Redis} {S : Strings R} → StringLaws S → StringLaws (timed_strings S)
timed_strings-Laws SL = record {
  get-set = λ k v db. SL.get-set k v db.0;
  exists-set = λ k v k' db. SL.exists-set k v k' db.0;
  hget-set = λ k v k' f db. SL.hget-set k v k' f db.0;
  hlen-set = λ k v k' db. SL.hlen-set k v k' db.0;
  exists-flushall = λ k db. SL.exists-flushall k db.0;
}
