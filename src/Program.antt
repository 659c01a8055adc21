-- ===== src/Program.antt =====
-- A handler of the server as the calls that it makes of its two interfaces, IRedis and IClient, in
-- order: each call goes on with the answer. `undefined` is undefined behaviour, such as `*` on an
-- empty std::optional. `run` makes the calls one after another; where handlers run on several
-- threads, their calls interleave.
use mathlib.Core.Option.{some-injective}
use isolation_server.Common.{◌≡◌, refl, ap, Bool, List, [], ◌∷◌, ◌++◌, Option, none, some, Bytes}
use isolation_server.Redis.{Redis}
use isolation_server.RedisService

pub data Program {ℓ} (A : Type ℓ) : Type ℓ where
  done : A → Program A
  undefined : Program A
  call_exists : Bytes → (Bool → Program A) → Program A
  call_del : Bytes → (Bool → Program A) → Program A
  call_persist : Bytes → (Bool → Program A) → Program A
  call_hash_get : Bytes → Bytes → (Option Bytes → Program A) → Program A
  call_hash_set : Bytes → Bytes → Bytes → (Bool → Program A) → Program A
  call_hash_del : Bytes → Bytes → (Bool → Program A) → Program A
  call_set_login_key : Bytes → Program A → Program A
  call_post_write : Bytes → Program A → Program A

infixl 5 ◌>>=◌ ◌>>◌
abbrev pub ◌>>=◌ {ℓ κ} : {A : Type ℓ} {B : Type κ} → Program A → (A → Program B) → Program B
done a >>= f = f a
undefined >>= f = undefined
call_exists k g >>= f = call_exists k (λ b. g b >>= f)
call_del k g >>= f = call_del k (λ b. g b >>= f)
call_persist k g >>= f = call_persist k (λ b. g b >>= f)
call_hash_get k j g >>= f = call_hash_get k j (λ o. g o >>= f)
call_hash_set k j v g >>= f = call_hash_set k j v (λ b. g b >>= f)
call_hash_del k j g >>= f = call_hash_del k j (λ b. g b >>= f)
call_set_login_key k g >>= f = call_set_login_key k (g >>= f)
call_post_write p g >>= f = call_post_write p (g >>= f)

abbrev pub ◌>>◌ {ℓ κ} : {A : Type ℓ} {B : Type κ} → Program A → Program B → Program B
m >> n = m >>= λ _. n

abbrev pub exists : Bytes → Program Bool
exists key = call_exists key done

abbrev pub del : Bytes → Program Bool
del key = call_del key done

abbrev pub persist : Bytes → Program Bool
persist key = call_persist key done

abbrev pub hash_get : Bytes → Bytes → Program (Option Bytes)
hash_get key field = call_hash_get key field done

abbrev pub hash_set : Bytes → Bytes → Bytes → Program Bool
hash_set key field value = call_hash_set key field value done

abbrev pub hash_del : Bytes → Bytes → Program Bool
hash_del key field = call_hash_del key field done

abbrev pub set_login_key : Bytes → Program (Unit {0})
set_login_key key = call_set_login_key key (done tt)

abbrev pub post_write : Bytes → Program (Unit {0})
post_write packet = call_post_write packet (done tt)

-- `*optional`
abbrev pub deref : Option Bytes → Program Bytes
deref none = undefined
deref (some value) = done value

-- What a handler for one client acts on: the database, and of the client its login key and the
-- packets that were posted to it.
pub record World (R : Redis) : Type 0 where
  pub database : R.Database
  pub login_key : Bytes
  pub posted : List Bytes

module _ {R : Redis} where
  unfoldable pub run {ℓ} : {A : Type ℓ} → Program A → World R → Option (A × World R)
  run (done a) w = some (a, w)
  run undefined w = none
  run (call_exists k g) w = run (g (RedisService.exists R k w.database)) w
  run (call_del k g) w =
      let (b, db) = RedisService.del R k w.database in run (g b) (record w { database = db })
  run (call_persist k g) w =
      let (b, db) = RedisService.persist R k w.database in run (g b) (record w { database = db })
  run (call_hash_get k j g) w = run (g (RedisService.hash_get R k j w.database)) w
  run (call_hash_set k j v g) w =
      let (b, db) = RedisService.hash_set R k j v w.database in
      run (g b) (record w { database = db })
  run (call_hash_del k j g) w =
      let (b, db) = RedisService.hash_del R k j w.database in run (g b) (record w { database = db })
  run (call_set_login_key k g) w = run g (record w { login_key = k })
  run (call_post_write p g) w = run g (record w { posted = w.posted ++ p ∷ [] })

-- A program that ends hands its result and its world to what follows.
pub run-bind {ℓ κ} :
    {R : Redis} {A : Type ℓ} {B : Type κ} (p : Program A) (f : A → Program B) (w w' : World R)
    (a : A)
    → run p w ≡ some (a, w')
    → run (p >>= f) w ≡ run (f a) w'
unfolding run
run-bind {R} {A} (done b) f w w' a h =
    ap (λ (x : A × World R). run (f x.0) x.1) (some-injective _ _ h)
run-bind undefined f w w' a h = cc
run-bind {R} (call_exists k g) f w w' a h =
    run-bind (g (RedisService.exists R k w.database)) f w w' a h
run-bind {R} (call_del k g) f w w' a h =
    let (b, db) = RedisService.del R k w.database in
    run-bind (g b) f (record w { database = db }) w' a h
run-bind {R} (call_persist k g) f w w' a h =
    let (b, db) = RedisService.persist R k w.database in
    run-bind (g b) f (record w { database = db }) w' a h
run-bind {R} (call_hash_get k j g) f w w' a h =
    run-bind (g (RedisService.hash_get R k j w.database)) f w w' a h
run-bind {R} (call_hash_set k j v g) f w w' a h =
    let (b, db) = RedisService.hash_set R k j v w.database in
    run-bind (g b) f (record w { database = db }) w' a h
run-bind {R} (call_hash_del k j g) f w w' a h =
    let (b, db) = RedisService.hash_del R k j w.database in
    run-bind (g b) f (record w { database = db }) w' a h
run-bind (call_set_login_key k g) f w w' a h = run-bind g f (record w { login_key = k }) w' a h
run-bind (call_post_write p g) f w w' a h =
    run-bind g f (record w { posted = w.posted ++ p ∷ [] }) w' a h

pub run-done {ℓ} : {R : Redis} {A : Type ℓ} (a : A) (w : World R) → run (done a) w ≡ some (a, w)
unfolding run
run-done a w = refl
