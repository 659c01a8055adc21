-- ===== src/Startup/Crash.antt =====
-- A process that ends in the middle of a handler of src/Server.cpp, such as by an exception of
-- redis-plus-plus, which nothing in a thread of src/main.cpp catches, and is started again.
use isolation_server.Common.{
  ℕ, zero, suc, ◌≤◌, ◌≡◌, Bool, true, false, [], ◌∷◌, ◌++◌, Option, none, some, Bytes, text,
  bytes_eq, not, leb, length, if◌then◌else◌, bytes_eq,
}
use isolation_server.Redis.{Redis, Laws}
use isolation_server.Redis.Scanning.{Scanner, ScanLaws}
use isolation_server.RedisService
use isolation_server.RedisService.Scan.{enough}
use isolation_server.Program.{
  Program, done, undefined, call_exists, call_del, call_persist, call_hash_get, call_hash_set,
  call_hash_del, call_set_login_key, call_post_write, World, post_write, deref, ◌>>=◌, ◌>>◌,
}
use isolation_server.Server
use isolation_server.Server.Keys.{id_key, client_key, logined_key, client-id, logined-id}
use isolation_server.Server.Messages.{Externals, Login, Response, PlayerData}
use isolation_server.Server.Spec.{Account}
use isolation_server.Server.Represents.{
  AccountAt, AccountAt-Same, Represents, hset-Same, hdel-Same, del-Same, persist-Same,
}
use isolation_server.Server.System.{
  Event, accepted, packet, lost, stopped, register_account, login, player_data, logout, handler,
}
use isolation_server.Server.System.Sound.{IsSound}
use isolation_server.Startup.{clean, fresh}
use isolation_server.Startup.Clean.{clean-IsSound, accounts_only}

-- The world after a number of calls of a program, or after all of them if they are fewer.
unfoldable pub upto : {R : Redis} {A : Type 0} → ℕ → Program A → World R → World R
upto zero p w = w
upto (suc n) (done a) w = w
upto (suc n) undefined w = w
upto {R} (suc n) (call_exists k g) w = upto n (g (RedisService.exists R k w.database)) w
upto {R} (suc n) (call_del k g) w =
    let (b, db) = RedisService.del R k w.database in upto n (g b) (record w { database = db })
upto {R} (suc n) (call_persist k g) w =
    let (b, db) = RedisService.persist R k w.database in upto n (g b) (record w { database = db })
upto {R} (suc n) (call_hash_get k f g) w = upto n (g (RedisService.hash_get R k f w.database)) w
upto {R} (suc n) (call_hash_set k f v g) w =
    let (b, db) = RedisService.hash_set R k f v w.database in
    upto n (g b) (record w { database = db })
upto {R} (suc n) (call_hash_del k f g) w =
    let (b, db) = RedisService.hash_del R k f w.database in
    upto n (g b) (record w { database = db })
upto (suc n) (call_set_login_key k g) w = upto n g (record w { login_key = k })
upto (suc n) (call_post_write p g) w = upto n g (record w { posted = w.posted ++ p ∷ [] })

abbrev NotId : Bytes → Type 0
NotId k = (id : Bytes) → bytes_eq k (id_key id) ≡ false

-- No call of the program writes to the key of an account.
abbrev Spares : {A : Type 0} → Program A → Type 0
Spares (done a) = Unit
Spares undefined = Unit
Spares (call_exists k g) = (b : Bool) → Spares (g b)
Spares (call_del k g) = NotId k × ((b : Bool) → Spares (g b))
Spares (call_persist k g) = (b : Bool) → Spares (g b)
Spares (call_hash_get k f g) = (o : Option Bytes) → Spares (g o)
Spares (call_hash_set k f v g) = NotId k × ((b : Bool) → Spares (g b))
Spares (call_hash_del k f g) = NotId k × ((b : Bool) → Spares (g b))
Spares (call_set_login_key k g) = Spares g
Spares (call_post_write p g) = Spares g

module _ {R : Redis} (L : Laws R) (id : Bytes) (a : Option Account) where
  upto-AccountAt :
      {A : Type 0} (n : ℕ) (p : Program A) (w : World R)
      → Spares p
      → AccountAt R w.database id a
      → AccountAt R (upto n p w).database id a
  unfolding upto
  upto-AccountAt zero p w s h = h
  upto-AccountAt (suc n) (done x) w s h = h
  upto-AccountAt (suc n) undefined w s h = h
  upto-AccountAt (suc n) (call_exists k g) w s h = upto-AccountAt n (g _) w (s _) h
  upto-AccountAt (suc n) (call_del k g) w s h =
      upto-AccountAt n (g _) _ (s.1 _) (AccountAt-Same id a (del-Same L k (id_key id) (s.0 id) _) h)
  upto-AccountAt (suc n) (call_persist k g) w s h =
      upto-AccountAt n (g _) _ (s _) (AccountAt-Same id a (persist-Same L k (id_key id) _) h)
  upto-AccountAt (suc n) (call_hash_get k f g) w s h = upto-AccountAt n (g _) w (s _) h
  upto-AccountAt (suc n) (call_hash_set k f v g) w s h =
      upto-AccountAt n (g _) _ (s.1 _)
        (AccountAt-Same id a (hset-Same L k (id_key id) (s.0 id) _ f v) h)
  upto-AccountAt (suc n) (call_hash_del k f g) w s h =
      upto-AccountAt n (g _) _ (s.1 _)
        (AccountAt-Same id a (hdel-Same L k (id_key id) (s.0 id) _ f) h)
  upto-AccountAt (suc n) (call_set_login_key k g) w s h = upto-AccountAt n g _ s h
  upto-AccountAt (suc n) (call_post_write p g) w s h = upto-AccountAt n g _ s h

bind-Spares :
    {A B : Type 0} (m : Program A) (f : A → Program B)
    → Spares m
    → ((a : A) → Spares (f a))
    → Spares (m >>= f)
bind-Spares (done a) f s h = h a
bind-Spares undefined f s h = tt
bind-Spares (call_exists k g) f s h = λ b. bind-Spares (g b) f (s b) h
bind-Spares (call_del k g) f s h = (s.0, λ b. bind-Spares (g b) f (s.1 b) h)
bind-Spares (call_persist k g) f s h = λ b. bind-Spares (g b) f (s b) h
bind-Spares (call_hash_get k j g) f s h = λ o. bind-Spares (g o) f (s o) h
bind-Spares (call_hash_set k j v g) f s h = (s.0, λ b. bind-Spares (g b) f (s.1 b) h)
bind-Spares (call_hash_del k j g) f s h = (s.0, λ b. bind-Spares (g b) f (s.1 b) h)
bind-Spares (call_set_login_key k g) f s h = bind-Spares g f s h
bind-Spares (call_post_write p g) f s h = bind-Spares g f s h

if-Spares :
    {A : Type 0} (b : Bool) (p q : Program A) → Spares p → Spares q → Spares (if b then p else q)
if-Spares true p q s t = s
if-Spares false p q s t = t

deref-Spares : (o : Option Bytes) → Spares (deref o)
deref-Spares none = tt
deref-Spares (some v) = tt

from_array-Spares :
    {A : Type 0} (parse : Bytes → A) (memory : Bytes) (n : ℕ)
    → Spares (Server.from_array parse memory n)
from_array-Spares parse memory n = if-Spares (leb n (length memory)) _ _ tt tt

received-Spares :
    {A : Type 0} (parse : Bytes → A) (memory : Bytes) (n : ℕ) (f : A → Program (Unit {0}))
    → ((a : A) → Spares (f a))
    → Spares (Server.from_array parse memory n >>= f)
received-Spares parse memory n f h =
    bind-Spares (Server.from_array parse memory n) f (from_array-Spares parse memory n) h

answered-Spares :
    {A : Type 0} (p : Program A) (f : A → Bytes) → Spares p → Spares (p >>= λ a. post_write (f a))
answered-Spares p f h = bind-Spares p (λ a. post_write (f a)) h (λ a. tt)

client_NotId : (token : ℕ) → NotId (client_key token)
client_NotId token id = client-id id token

logined_NotId : (j : Bytes) → NotId (logined_key j)
logined_NotId j id = logined-id j id

module _ (E : Externals) (now token : ℕ) where
  login-Spares : (o : Option Login) → Spares (Server.login_result E now token o)
  unfolding Server.login_result Server.login Server.check_password Server.check_logined Server.enter
  login-Spares none = tt
  login-Spares (some m) = λ known.
      if-Spares known _ _
        (λ found. bind-Spares (deref found) _ (deref-Spares found) (λ stored.
          if-Spares (bytes_eq stored (E.sha256 m.password)) _ _
            (λ busy.
              if-Spares busy _ _ tt
                (client_NotId token, λ b. (logined_NotId m.id, λ b. (logined_NotId m.id, λ b. tt))))
            tt))
        tt

  player_data-Spares : Spares (Server.player_data token)
  unfolding Server.player_data Server.check_login Server.check_account Server.read_account
  player_data-Spares = λ known. if-Spares known _ _ (λ o. account o) tt
    where
      account : (o : Option Bytes) → Spares (Server.check_account o)
      account none = tt
      account (some id) = λ known.
          if-Spares known _ _
            (λ n. λ c. λ b.
              bind-Spares (deref n) _ (deref-Spares n)
                (λ nickname. bind-Spares (deref c) _ (deref-Spares c) (λ color. tt)))
            tt

  logout_client-Spares : Spares (Server.logout_client token)
  unfolding Server.logout_client Server.logout_known Server.end_login
  logout_client-Spares = λ known. if-Spares (not known) _ _ tt (λ o. ended o)
    where
      ended : (o : Option Bytes) → Spares (Server.end_login token o)
      ended none = tt
      ended (some id) = (logined_NotId id, λ b. (client_NotId token, λ b. tt))

-- The program that serves an event of the server; a registration is the only one that writes to the
-- keys of accounts.
unfoldable pub program : Externals → Event → Program (Unit {0})
program E (accepted now token) = Server.announce now token
program E (packet now token request memory n) = handler E now token request memory n
program E (lost token) = Server.logout_client token >> Server.forget token
program E stopped = done tt

unfoldable pub registers : Event → Bool
registers (packet now token register_account memory n) = true
registers _ = false

program-Spares : (E : Externals) (e : Event) → registers e ≡ false → Spares (program E e)
unfolding program registers handler Server.announce Server.forget Server.handle_request_login
    Server.handle_request_player_data Server.handle_request_logout
program-Spares E (accepted now token) h = (client_NotId token, λ b. tt)
program-Spares E (packet now token register_account memory n) h = cc
program-Spares E (packet now token login memory n) h =
    let answer =
      λ (r : Response). Server.login_packet E.response_login (E.serialize_response_login r) in
    received-Spares E.parse_request_login memory n
      (λ o. Server.login_result E now token o >>= λ r. post_write (answer r))
      (λ o. answered-Spares (Server.login_result E now token o) answer (login-Spares E now token o))
program-Spares E (packet now token player_data memory n) h =
    let answer = λ (d : PlayerData).
      Server.response_packet E.response_player_data (E.serialize_response_player_data d) in
    let result = λ (b : Bool).
      if b then Server.player_data token else done (Server.refuse_data (text "parsingError")) in
    received-Spares E.parse_request_player_data memory n
      (λ b. result b >>= λ d. post_write (answer d))
      (λ b. answered-Spares (result b) answer (if-Spares b _ _ (player_data-Spares E now token) tt))
program-Spares E (packet now token logout memory n) h =
    received-Spares E.parse_request_logout memory n
      (λ b. if b then Server.logout_client token else done tt)
      (λ b. if-Spares b _ _ (logout_client-Spares E now token) tt)
program-Spares E (lost token) h =
    bind-Spares (Server.logout_client token) (λ u. Server.forget token)
      (logout_client-Spares E 0 token) (λ u. (client_NotId token, λ b. tt))
program-Spares E stopped h = tt

-- The process ends after any number of calls of a handler, other than that of a registration, on a
-- database with some accounts. Started again, where SCAN keeps what redis documents of it and the
-- fuel is enough for both scans, it has the same accounts, with no connection and no login, and
-- satisfies the invariant of the server.
pub restart_recovers :
    {R : Redis} {S : Scanner R} (L : Laws R) (laws : ScanLaws S) (E : Externals) (e : Event)
    (calls : ℕ) (w : World R) (account : Bytes → Option Account) (fuel : ℕ)
    → registers e ≡ false
    → ((id : Bytes) → AccountAt R w.database id (account id))
    → enough laws (text "client:*") (upto calls (program E e) w).database ≤ fuel
    → enough laws (text "logined:*") (upto calls (program E e) w).database ≤ fuel
    → (db : R.Database) × (clean S fuel (upto calls (program E e) w).database ≡ some db)
      × Represents R db (accounts_only account)
      × IsSound (fresh S db)
restart_recovers L laws E e calls w account fuel other accounts clients_end logins_end =
    clean-IsSound L laws (upto calls (program E e) w).database account fuel
      (λ id.
        upto-AccountAt L id (account id) calls (program E e) w (program-Spares E e other)
          (accounts id))
      clients_end logins_end
