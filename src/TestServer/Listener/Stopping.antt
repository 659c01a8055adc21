-- ===== src/TestServer/Listener/Stopping.antt =====
-- After Stop of the class Server no connection is open.
use mathlib.Core.Option.{some-injective}
use isolation_server.Common.{
  if_both, ◌++◌, ℕ, ◌≡◌, refl, sym, ◌∙◌, ap, Bool, true, false, ◌&&◌, not, List, [], ◌∷◌, Option,
  none, some, Bytes, ◌==◌, ==_iff, arith, Bool-cases, Option-cases, inl, inr, ltb, length,
}
use isolation_server.Common.Map
use isolation_server.Common.Map.{Map, find-insert}
use isolation_server.TestServer.{
  Connection, Code, success, eof, on_read, receive_rest, receive_new, receive_many, do_write,
  stop_connection, async_write_notify, send_max_length,
}
use isolation_server.TestServer.Listener.{
  Listener, Event, accepted, completed, notified, stopped, stop_at, stop_all, stop, notify_at,
  steps, notify_all, notify, with_connections, on_accepted, completed_at, step,
}

-- Every connection that is open is in the set.
pub record IsHeld (sessions : Map (Unit {0})) (m : Map Connection) : Type 0 where
  pub held :
      (a : ℕ) (c : Connection)
      → Map.find a m ≡ some c
      → c.is_open ≡ true
      → Map.find a sessions ≡ some tt

-- One change of the connections, which opens none.
put-IsHeld :
    (sessions : Map (Unit {0})) (m : Map Connection) (a : ℕ) (c d : Connection)
    → IsHeld sessions m
    → Map.find a m ≡ some c
    → (d.is_open ≡ true → c.is_open ≡ true)
    → IsHeld sessions (Map.insert a d m)
put-IsHeld sessions m a c d h found opens = record {
  held = λ b e there open_b. elim (Bool-cases (a == b)) [
    | inl same ↦
        let at_b : some d ≡ some e = ground (arith, find-insert a b d m, there) in
        let here : a ≡ b = (==_iff a b).0 same in
        h.held b c (rw (sym here) found) (opens (rw (some-injective _ _ at_b) open_b))
    | inr other ↦ h.held b e (ground (arith, find-insert a b d m, there)) open_b
  ];
}

-- A read opens no connection.
on_read-opens :
    (code : Code) (chunk : Bytes) (c : Connection)
    → (on_read code chunk c).0.is_open ≡ true
    → c.is_open ≡ true
unfolding on_read receive_rest receive_new receive_many do_write stop_connection
on_read-opens success chunk c e = ground arith
on_read-opens eof chunk c e = cc
on_read-opens Code.other chunk c e = e

notify_all-IsHeld :
    (message : Bytes) (sessions held : Map (Unit {0})) (m m' : Map Connection)
    → IsHeld held m
    → notify_all message sessions m ≡ some m'
    → IsHeld held m'
unfolding notify_all notify_at async_write_notify do_write
notify_all-IsHeld message [] held m m' h e = rw (sym (some-injective _ _ e)) h
notify_all-IsHeld message ((a, _) ∷ sessions) held m m' h e = elim (Option-cases (Map.find a m)) [
  | inl absent ↦ notify_all-IsHeld message sessions held m m' h (rw absent at e)
  | inr (c, found) ↦ elim (Bool-cases (ltb send_max_length (length message))) [
    | inl long ↦
        let never : none ≡ some m' = rw (found, long) at e in absurd (ground (arith, never))
    | inr fits ↦
        let d : Connection = record c { written = c.written ++ message ∷ [] } in
        notify_all-IsHeld message sessions held (Map.insert a d m) m'
          (put-IsHeld held m a c d h found (λ open_d. open_d)) (rw (found, fits) at e)
  ]
]

-- One turn of the loop of Stop.
stop_at-closes :
    (b : ℕ) (o : Option Connection) (m : Map Connection) (a : ℕ) (c : Connection)
    → Map.find b m ≡ o
    → Map.find a (stop_at b m o) ≡ some c
    → c.is_open ≡ true
    → (Map.find a m ≡ some c) × ((b == a) ≡ false)
unfolding stop_connection
stop_at-closes b none m a c at_b found here = (
  found,
  elim (Bool-cases (b == a)) [
    | inl same ↦
        let absent : Map.find a m ≡ none = rw (sym ((==_iff b a).0 same)) at_b in
        absurd (ground (arith, absent, found))
    | inr differ ↦ differ
  ],
)
stop_at-closes b (some d) m a c at_b found here = elim (Bool-cases (b == a)) [
  | inl same ↦
      let e : some (stop_connection d) ≡ some c =
        ground (arith, find-insert b a (stop_connection d) m, found) in
      let never : false ≡ true = ap (λ x. x.is_open) (some-injective _ _ e) ∙ here in
      absurd (ground (arith, never))
  | inr differ ↦ (ground (arith, find-insert b a (stop_connection d) m, found), differ)
]

-- The loop of Stop leaves no session of the set open.
stop_all-closes :
    (sessions : Map (Unit {0})) (m : Map Connection) (a : ℕ) (c : Connection)
    → Map.find a (stop_all sessions m) ≡ some c
    → c.is_open ≡ true
    → (Map.find a m ≡ some c) × (Map.find a sessions ≡ none)
unfolding stop_all Map.find
stop_all-closes [] m a c found here = (found, refl)
stop_all-closes ((b, _) ∷ sessions) m a c found here =
    let (there, rest) = stop_all-closes sessions (stop_at b m (Map.find b m)) a c found here in
    let (at_a, differ) = stop_at-closes b (Map.find b m) m a c refl there here in
    (at_a, rw differ rest)

-- The invariant: every open connection is in the set, which is empty once the server is stopped.
pub record IsTended (s : Listener) : Type 0 where
  pub tended : IsHeld s.sessions s.connections
  pub idle : s.is_stopped ≡ true → s.sessions ≡ []

-- A new connection comes into the set.
insert-IsHeld :
    (sessions : Map (Unit {0})) (m : Map Connection) (a : ℕ) (d : Connection)
    → IsHeld sessions m
    → IsHeld (Map.insert a tt sessions) (Map.insert a d m)
insert-IsHeld sessions m a d h = record {
  held = λ b e there open_b. elim (Bool-cases (a == b)) [
    | inl same ↦ find-insert a b tt sessions ∙ rw same refl
    | inr differ ↦
        find-insert a b tt sessions
        ∙ rw differ (h.held b e (ground (arith, find-insert a b d m, there)) open_b)
  ];
}

stop-IsTended : (s : Listener) → IsTended s → IsTended (stop s)
unfolding stop
stop-IsTended s h = if_both s.is_stopped IsTended h (record {
  tended = record {
    held = λ a c found here.
        let (there, absent) = stop_all-closes s.sessions s.connections a c found here in
        absurd (ground (arith, h.tended.held a c there here, absent));
  };
  idle = λ e. refl;
})

completed-IsTended :
    (a : ℕ) (code : Code) (chunk : Bytes) (s : Listener) (o : Option Connection)
    → Map.find a s.connections ≡ o
    → IsTended s
    → IsTended (completed_at a code chunk s o)
completed-IsTended a code chunk s none found h = h
completed-IsTended a code chunk s (some c) found h = record {
  tended = put-IsHeld s.sessions s.connections a c _ h.tended found (on_read-opens code chunk c);
  idle = h.idle;
}

accepted-IsTended :
    (ec : Bool) (a : ℕ) (memory : Bytes) (s : Listener)
    → IsTended s
    → IsTended (on_accepted ec a memory s)
unfolding on_accepted
accepted-IsTended ec a memory s h = elim (Bool-cases (not ec && not s.is_stopped)) [
  | inl goes_on ↦ rw goes_on (record {
    tended = insert-IsHeld s.sessions s.connections a _ h.tended;
    idle = λ e. absurd (ground (arith, goes_on, e));
  })
  | inr over ↦ rw over (record { tended = h.tended; idle = h.idle })
]

notified-IsTended :
    (s s' : Listener) (o : Option (Map Connection))
    → ((m : Map Connection) → o ≡ some m → IsHeld s.sessions m)
    → IsTended s
    → with_connections s o ≡ some s'
    → IsTended s'
notified-IsTended s s' none kept h e = absurd (ground (arith, e))
notified-IsTended s s' (some m) kept h e =
    rw (sym (some-injective _ _ e)) (record { tended = kept m refl; idle = h.idle })

still : (e : Event) (s : Listener) → s.is_stopped ≡ true → step e s ≡ some s
unfolding step stop notify
still (accepted ec a memory) s over = ground arith
still (completed a code chunk) s over = ground arith
still (notified message) s over = ground arith
still stopped s over = ground arith

notify_running :
    (message : Bytes) (s : Listener)
    → s.is_stopped ≡ false
    → notify message s ≡ with_connections s (notify_all message s.sessions s.connections)
unfolding notify
notify_running message s running = ground (arith, running)

step-IsTended : (e : Event) (s s' : Listener) → IsTended s → step e s ≡ some s' → IsTended s'
unfolding step notify
step-IsTended (accepted ec a memory) s s' h e =
    rw (sym (some-injective _ _ e))
      (if_both (s.accepting && not s.is_stopped) IsTended (accepted-IsTended ec a memory s h) h)
step-IsTended (completed a code chunk) s s' h e = rw (sym (some-injective _ _ e)) (
    if_both s.is_stopped IsTended h
      (completed-IsTended a code chunk s (Map.find a s.connections) refl h))
step-IsTended (notified message) s s' h e = elim (Bool-cases s.is_stopped) [
  | inl over ↦
      let same : some s ≡ some s' = sym (still (notified message) s over) ∙ e in
      rw (sym (some-injective _ _ same)) h
  | inr running ↦
      notified-IsTended s s' (notify_all message s.sessions s.connections)
        (λ m. notify_all-IsHeld message s.sessions s.sessions s.connections m h.tended) h
        (sym (notify_running message s running) ∙ e)
]
step-IsTended stopped s s' h e = rw (sym (some-injective _ _ e)) (stop-IsTended s h)

steps-IsTended :
    (es : List Event) (s s' : Listener) → IsTended s → steps es s ≡ some s' → IsTended s'
unfolding steps
steps-IsTended [] s s' h e = rw (sym (some-injective _ _ e)) h
steps-IsTended (e ∷ es) s s' h served = elim (Option-cases (step e s)) [
  | inl undefined ↦
      let never : none ≡ some s' = rw undefined at served in absurd (ground (arith, never))
  | inr (s1, first) ↦ steps-IsTended es s1 s' (step-IsTended e s s1 h first) (rw first at served)
]

stop_stops : (s : Listener) → (stop s).is_stopped ≡ true
unfolding stop
stop_stops s = ground arith

-- After any events, Stop leaves no connection open.
pub stop-closes :
    (es : List Event) (s s' : Listener) (a : ℕ) (c : Connection)
    → IsTended s
    → steps es s ≡ some s'
    → Map.find a (stop s').connections ≡ some c
    → c.is_open ≡ false
stop-closes es s s' a c h served found =
    let after = stop-IsTended s' (steps-IsTended es s s' h served) in
    elim (Bool-cases c.is_open) [
      | inl here ↦
          let kept : Map.find a [] ≡ some tt =
            rw (after.idle (stop_stops s')) at (after.tended.held a c found here) in
          absurd (Map.find-nil a tt kept)
      | inr closed ↦ closed
    ]

-- Once stopped, the server does not change any more.
pub stopped_for_good : (es : List Event) (s : Listener) → s.is_stopped ≡ true → steps es s ≡ some s
unfolding steps
stopped_for_good [] s over = refl
stopped_for_good (e ∷ es) s over = rw (still e s over) (stopped_for_good es s over)
