-- ===== src/Interleaving.antt =====
-- src/main.cpp runs the io_context on several threads, so two handlers may make their calls of redis
-- in any interleaving. A `Thread` is a handler on its way; a schedule says whose call comes next.
pub mod Races
pub mod TornAccount
use isolation_server.Common.{Bool, true, false, List, [], ◌∷◌, ◌++◌, Bytes}
use isolation_server.Redis.{Redis}
use isolation_server.RedisService
use isolation_server.Program.{
  Program, done, undefined, call_exists, call_del, call_persist, call_hash_get, call_hash_set,
  call_hash_del, call_set_login_key, call_post_write,
}

-- What a handler has still to do, and of its client the login key and the packets posted.
pub record Thread (A : Type 0) : Type 0 where
  pub program : Program A
  pub login_key : Bytes
  pub posted : List Bytes

abbrev thread : {A : Type 0} → Program A → Thread A → Thread A
thread p t = record t { program = p }

module _ (R : Redis) where
  -- One call of a handler.
  unfoldable pub turn : {A : Type 0} → Program A → Thread A → R.Database → Thread A × R.Database
  turn (done a) t db = (t, db)
  turn undefined t db = (t, db)
  turn (call_exists k g) t db = (thread (g (RedisService.exists R k db)) t, db)
  turn (call_del k g) t db = let (b, db') = RedisService.del R k db in (thread (g b) t, db')
  turn (call_persist k g) t db = let (b, db') = RedisService.persist R k db in (thread (g b) t, db')
  turn (call_hash_get k f g) t db = (thread (g (RedisService.hash_get R k f db)) t, db)
  turn (call_hash_set k f v g) t db =
      let (b, db') = RedisService.hash_set R k f v db in (thread (g b) t, db')
  turn (call_hash_del k f g) t db =
      let (b, db') = RedisService.hash_del R k f db in (thread (g b) t, db')
  turn (call_set_login_key k g) t db = (record t { program = g; login_key = k }, db)
  turn (call_post_write p g) t db = (record t { program = g; posted = t.posted ++ p ∷ [] }, db)

pub record Both (R : Redis) (A B : Type 0) : Type 0 where
  pub left : Thread A
  pub right : Thread B
  pub database : R.Database

module _ (R : Redis) {A B : Type 0} where
  -- `true` is a call of the left handler.
  unfoldable pub next : Bool → Both R A B → Both R A B
  unfolding turn
  next true s =
      let (t, db) = turn R s.left.program s.left s.database in record s { left = t; database = db }
  next false s =
      let (t, db) = turn R s.right.program s.right s.database in
      record s { right = t; database = db }

  unfoldable pub interleave : List Bool → Both R A B → Both R A B
  unfolding next
  interleave [] s = s
  interleave (b ∷ bs) s = interleave bs (next b s)
