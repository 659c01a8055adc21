-- ===== src/Server/System/Connected.antt =====
-- Which clients can still call, across the events of the server.
use mathlib.Core.Option.{some-injective}
use isolation_server.Common.{
  ℕ, ◌≡◌, refl, sym, ◌∙◌, false, List, [], ◌∷◌, Option, none, some, Bytes, ◌==◌, All, arith,
  Bool-cases, inl, inr,
}
use isolation_server.Common.Map
use isolation_server.Common.Map.{find-insert, find-erase}
use isolation_server.Redis.{Redis}
use isolation_server.Program.{World}
use isolation_server.Server.Messages.{Externals}
use isolation_server.Server.System.{
  Client, System, Event, accepted, packet, lost, stopped, put, drop_client, packet_at, lost_at,
  and_then, Request, run_for, add_client, lose_client, step, serve,
}

-- The client of a token can still call.
abbrev pub IsConnected : {R : Redis} → System R → ℕ → Type 0
IsConnected s t = (c : Client) × (Map.find t s.sockets ≡ some c)

-- The event is not the end of the connection of a token.
abbrev pub Leaves : ℕ → Event → Type 0
Leaves t (lost token) = (token == t) ≡ false
Leaves t _ = Unit

module _ {R : Redis} (s : System R) (t : ℕ) where
  insert-IsConnected :
      (token : ℕ) (c : Client) (db : R.Database) (connected : Map.Map (Unit {0}))
      → IsConnected s t
      → IsConnected {R = R}
          (record { database = db; connected = connected; sockets = Map.insert token c s.sockets })
          t
  insert-IsConnected token c db connected (d, found) = elim (Bool-cases (token == t)) [
    | inl same ↦ (c, rw (find-insert token t c s.sockets, same) refl)
    | inr other ↦ (d, rw (find-insert token t c s.sockets, other) found)
  ]

  put-IsConnected :
      (token : ℕ) (o : Option (Unit {0} × World R)) (s' : System R)
      → put token s o ≡ some s'
      → IsConnected s t
      → IsConnected s' t
  put-IsConnected token none s' e h = cc
  put-IsConnected token (some (u, w)) s' e h =
      rw (sym (some-injective _ _ e)) (insert-IsConnected token _ w.database s.connected h)

  put_self :
      (o : Option (Unit {0} × World R)) (s' : System R) → put t s o ≡ some s' → IsConnected s' t
  put_self none s' e = cc
  put_self (some (u, w)) s' e =
      let c : Client = record { login_key = w.login_key; posted = w.posted } in
      rw (sym (some-injective _ _ e)) (c, ground (arith, find-insert t t c s.sockets))

  drop-IsConnected :
      (token : ℕ) (o : Option (Unit {0} × World R)) (s' : System R)
      → (token == t) ≡ false
      → drop_client token s o ≡ some s'
      → IsConnected s t
      → IsConnected s' t
  drop-IsConnected token none s' other e h = cc
  drop-IsConnected token (some (u, w)) s' other e (d, found) =
      rw (sym (some-injective _ _ e)) (d, rw (find-erase token t s.sockets, other) found)

  packet_at-IsConnected :
      (E : Externals) (now token : ℕ) (request : Request) (memory : Bytes) (n : ℕ)
      (o : Option Client) (s' : System R)
      → packet_at E now token request memory n s o ≡ some s'
      → IsConnected s t
      → IsConnected s' t
  unfolding run_for
  packet_at-IsConnected E now token request memory n none s' e h = rw (sym (some-injective _ _ e)) h
  packet_at-IsConnected E now token request memory n (some c) s' e h =
      put-IsConnected token _ s' e h

  lost_at-IsConnected :
      (token : ℕ) (o : Option Client) (s' : System R)
      → (token == t) ≡ false
      → lost_at token s o ≡ some s'
      → IsConnected s t
      → IsConnected s' t
  unfolding lose_client
  lost_at-IsConnected token none s' other e h = rw (sym (some-injective _ _ e)) h
  lost_at-IsConnected token (some c) s' other e h = drop-IsConnected token _ s' other e h

pub step-IsConnected :
    {R : Redis} (E : Externals) (e : Event) (s s' : System R) (t : ℕ)
    → Leaves t e
    → step E e s ≡ some s'
    → IsConnected s t
    → IsConnected s' t
unfolding step run_for add_client
step-IsConnected E (accepted now token) s s' t leaves e h =
    put-IsConnected (record s { connected = Map.insert token tt s.connected }) t token _ s' e h
step-IsConnected E (packet now token request memory n) s s' t leaves e h =
    packet_at-IsConnected s t E now token request memory n (Map.find token s.sockets) s' e h
step-IsConnected E (lost token) s s' t leaves e h =
    lost_at-IsConnected s t token (Map.find token s.sockets) s' leaves e h
step-IsConnected E stopped s s' t leaves e h = rw (sym (some-injective _ _ e)) h

-- The client of a connection can call from then on.
pub accepted-IsConnected :
    {R : Redis} (E : Externals) (now token : ℕ) (s s' : System R)
    → step E (accepted now token) s ≡ some s'
    → IsConnected s' token
unfolding step run_for add_client
accepted-IsConnected E now token s s' e =
    put_self (record s { connected = Map.insert token tt s.connected }) token _ s' e

-- What follows a step that succeeds.
and_then-some :
    {R : Redis} (f : System R → Option (System R)) (o : Option (System R)) (s' : System R)
    → and_then f o ≡ some s'
    → (m : System R) × (o ≡ some m) × (f m ≡ some s')
and_then-some f none s' e = cc
and_then-some f (some m) s' e = (m, refl, e)

-- A single event is served by its step.
pub serve-step :
    {R : Redis} (E : Externals) (e : Event) (s s' : System R)
    → serve E (e ∷ []) s ≡ some s'
    → step E e s ≡ some s'
unfolding serve
serve-step E e s s' h =
    let (m, first, rest) = and_then-some (serve E []) (step E e s) s' h in first ∙ rest

pub serve-IsConnected :
    {R : Redis} (E : Externals) (es : List Event) (s s' : System R) (t : ℕ)
    → All (Leaves t) es
    → serve E es s ≡ some s'
    → IsConnected s t
    → IsConnected s' t
unfolding serve
serve-IsConnected E [] s s' t leaves e h = rw (sym (some-injective _ _ e)) h
serve-IsConnected E (x ∷ es) s s' t leaves e h =
    let (m, first, rest) = and_then-some (serve E es) (step E x s) s' e in
    serve-IsConnected E es m s' t leaves.1 rest (step-IsConnected E x s m t leaves.0 first h)
