-- ===== src/Tests/Switching.antt =====
-- A client that changes its login without a logout.
use isolation_server.Common.{
  arith, ◌∷◌, Bytes, ℕ, ◌≡◌, ◌≢◌, refl, [], some, text, to_string, bytes_eq, ap,
}
use isolation_server.Redis.Memory.{memory, memory-Laws}
use isolation_server.Program.{World, run}
use isolation_server.Server
use isolation_server.Server.Spec.{View, Presence, register, enter, connect}
use isolation_server.Server.Refines.{Refined, after}
use isolation_server.Server.Refines.Register.{create_account_refines}
use isolation_server.Server.Refines.Login.{login_refines, login_key_after}
use isolation_server.Server.StaleLogin.{switch, login_left_behind}
use isolation_server.Tests.Data.{
  externals, alice, alice_login, bob, bob_login, connected_view, seven, announced, connected_world,
}

abbrev alice_view : View
alice_view = (register externals.sha256 alice connected_view).1

alice_registers :
    Refined
      (λ _. [])
      connected_world
      (Server.create_account externals alice)
      (register externals.sha256 alice connected_view)
alice_registers =
    create_account_refines memory-Laws externals alice connected_world connected_view
      announced.represents

abbrev alice_world : World memory
alice_world = after connected_world alice_registers

abbrev both_view : View
both_view = (register externals.sha256 bob alice_view).1

bob_registers :
    Refined
      (λ _. [])
      alice_world
      (Server.create_account externals bob)
      (register externals.sha256 bob alice_view)
bob_registers =
    create_account_refines memory-Laws externals bob alice_world alice_view
      alice_registers.represents

abbrev both_world : World memory
both_world = after alice_world bob_registers

abbrev logged_view : View
logged_view = (enter externals.sha256 7 alice_login both_view).1

still_here : both_view.presence 7 ≡ some seven
unfolding register connect bytes_eq
still_here = refl

alice_enters :
    Refined
      (login_key_after alice_login [])
      both_world
      (Server.login externals 6 7 alice_login)
      (enter externals.sha256 7 alice_login both_view)
alice_enters =
    login_refines memory-Laws externals 6 7 alice_login both_world both_view seven still_here
      bob_registers.represents

abbrev logged_world : World memory
logged_world = after both_world alice_enters

abbrev first_byte : Bytes → ℕ
first_byte [] = 0
first_byte (b ∷ bs) = b

ids_differ : bob_login.id ≢ alice_login.id
ids_differ = λ e. omega (arith, ap first_byte e)

abbrev seven_logged : Presence
seven_logged = record { connected_time = to_string 5; login_id = some (text "alic") }

login_left_behind_example :
    (w : World memory) × (run (switch externals 8 7 bob_login alice_login) logged_world
      ≡ some ((Server.accept, Server.refuse (text "loginedAlready")), w))
unfolding register enter connect bytes_eq
login_left_behind_example =
    login_left_behind memory-Laws externals logged_world logged_view 8 7 seven_logged bob_login
      alice_login alice_enters.represents refl refl refl refl ids_differ (_, refl, refl)
      (_, refl, refl)
