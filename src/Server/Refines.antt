-- ===== src/Server/Refines.antt =====
-- What it means that a handler does to a database what an operation of `Spec` does to the view that
-- the database holds, and gives its response.
pub mod Register
pub mod Login
pub mod Data
pub mod Logout
pub mod Connection
pub mod Handlers
use isolation_server.Common.{◌≡◌, refl, Bool, true, false, Option, none, some, Bytes, if◌then◌else◌}
use isolation_server.Redis.{Redis}
use isolation_server.RedisService
use isolation_server.Program.{Program, World, run, done, call_exists, call_hash_get}
use isolation_server.Server.Spec.{View}
use isolation_server.Server.Represents.{Represents}

-- The program ends with the result and a database that holds the view of `x`. It posts nothing, and
-- leaves the login key that `key` gives for the result.
pub record Refined {R : Redis} {A : Type 0} (key : A → Bytes) (w : World R) (p : Program A)
    (x : A × View) : Type 0 where
  pub database : R.Database
  pub runs :
      run p w ≡ some (x.0, record { database = database; login_key = key x.0; posted = w.posted })
  pub represents : Represents R database x.1

module _ {R : Redis} {A : Type 0} {key : A → Bytes} {w : World R} where
  pub Refined-if :
      (b : Bool) (p q : Program A) (x y : A × View)
      → (b ≡ true → Refined key w p x)
      → (b ≡ false → Refined key w q y)
      → Refined key w (if b then p else q) (if b then x else y)
  Refined-if true p q x y f g = f refl
  Refined-if false p q x y f g = g refl

  -- The program ends at once.
  pub Refined-done :
      (a : A) (v : View)
      → key a ≡ w.login_key
      → Represents R w.database v
      → Refined key w (done a) (a, v)
  unfolding run
  Refined-done a v k r = record { database = w.database; runs = rw k; represents = r }

  -- A call that only reads goes on with its answer.
  pub Refined-exists :
      (k : Bytes) (b : Bool) (g : Bool → Program A) (x : A × View)
      → RedisService.exists R k w.database ≡ b
      → Refined key w (g b) x
      → Refined key w (call_exists k g) x
  unfolding run
  Refined-exists k b g x e r = record {
    database = r.database;
    runs = rw e r.runs;
    represents = r.represents;
  }

  pub Refined-hash_get :
      (k f : Bytes) (o : Option Bytes) (g : Option Bytes → Program A) (x : A × View)
      → RedisService.hash_get R k f w.database ≡ o
      → Refined key w (g o) x
      → Refined key w (call_hash_get k f g) x
  unfolding run
  Refined-hash_get k f o g x e r = record {
    database = r.database;
    runs = rw e r.runs;
    represents = r.represents;
  }

module _ {R : Redis} {A : Type 0} {key : A → Bytes} {w : World R} {p : Program A} where
  pub Refined-eq : {x y : A × View} → x ≡ y → Refined key w p x → Refined key w p y
  Refined-eq e r = rw e at r

-- The world after a program that refines its specification.
abbrev pub after :
    {R : Redis} {A : Type 0} {key : A → Bytes} (w : World R) {p : Program A} {x : A × View}
    → Refined key w p x
    → World R
after {key = key} w {x = x} r = record {
  database = r.database;
  login_key = key x.0;
  posted = w.posted;
}
