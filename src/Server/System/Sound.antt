-- ===== src/Server/System/Sound.antt =====
-- The invariant of the server with its connections, and what keeps its parts.
use isolation_server.Common.{
  ℕ, ◌==◌, ◌≤◌, ◌≡◌, ◌≢◌, false, ==_iff, arith, Option, none, some, Bytes, length,
}
use isolation_server.Common.Map
use isolation_server.Common.Map.{Map, find-insert, find-erase}
use isolation_server.Redis.{Redis}
use isolation_server.Server.Messages.{RegisterAccount, Login}
use isolation_server.Server.Spec.{
  View, register, register_message, enter, enter_message, leave, connect, disconnect,
}
use isolation_server.Server.Represents.{Represents}
use isolation_server.Server.Sessions.{IsLinked, register-IsLinked, enter-IsLinked}
use isolation_server.Server.System.{Client, System, Event, packet}

abbrev pub IsPresent : View → ℕ → Type 0
IsPresent v token = v.presence token ≢ none

-- What is known of a connection that was announced is kept by a handler.
abbrev pub Keeps : View → View → Type 0
Keeps v v' = (token : ℕ) → IsPresent v token → IsPresent v' token

module _ (sha256 : Bytes → Bytes) where
  pub register-Keeps :
      (o : Option RegisterAccount) (v : View) → Keeps v (register_message sha256 o v).1
  unfolding register_message register
  register-Keeps none v t h = h
  register-Keeps (some m) v t h = ground arith

  pub enter-Keeps :
      (token : ℕ) (o : Option Login) (v : View) → Keeps v (enter_message sha256 token o v).1
  unfolding enter_message enter
  enter-Keeps token none v t h = h
  enter-Keeps token (some m) v t h = ground (arith, ==_iff token t)

pub leave-Keeps : (token : ℕ) (v : View) → Keeps v (leave token v)
unfolding leave
leave-Keeps token v t h = ground (arith, ==_iff token t)

pub connect-Keeps : (time : Bytes) (token : ℕ) (v : View) → Keeps v (connect time token v)
unfolding connect
connect-Keeps time token v t h = ground (arith, ==_iff token t)

-- The end of a connection leaves the others.
pub disconnect-IsPresent :
    (token t : ℕ) (v : View)
    → (token == t) ≡ false
    → IsPresent v t
    → IsPresent (disconnect token v) t
unfolding disconnect
disconnect-IsPresent token t v other here = rw other (leave-Keeps token v t here)

pub connect-IsPresent :
    (time : Bytes) (token : ℕ) (v : View) → IsPresent (connect time token v) token
unfolding connect
connect-IsPresent time token v = ground (arith, ==_iff token token)

module _ (sha256 : Bytes → Bytes) where
  pub register_message-IsLinked :
      (o : Option RegisterAccount) (v : View)
      → IsLinked v
      → IsLinked (register_message sha256 o v).1
  unfolding register_message
  register_message-IsLinked none v h = h
  register_message-IsLinked (some m) v h = register-IsLinked sha256 m v h

  pub enter_message-IsLinked :
      (token : ℕ) (o : Option Login) (v : View)
      → IsLinked v
      → IsLinked (enter_message sha256 token o v).1
  unfolding enter_message
  enter_message-IsLinked token none v h = h
  enter_message-IsLinked token (some m) v h = enter-IsLinked sha256 token m v h

-- The invariant: the database holds a view; in it nobody is logged in without holding the login,
-- and every client that can still call is announced.
pub record IsSound {R : Redis} (s : System R) : Type 0 where
  pub view : View
  pub represents : Represents R s.database view
  pub linked : IsLinked view
  pub announced :
      (token : ℕ) (c : Client) → Map.find token s.sockets ≡ some c → IsPresent view token

-- The length that a packet handler is given stays inside the memory.
abbrev pub IsInside : Event → Type 0
IsInside (packet now token request memory n) = n ≤ length memory
IsInside _ = Unit

-- The step succeeds, and leaves a sound system.
abbrev pub Continues : {R : Redis} → Option (System R) → Type 0
Continues {R} o = (s : System R) × (o ≡ some s) × IsSound s
