-- ===== src/Server/Sessions.antt =====
-- Invariants of the view: who is logged in as whom.
use isolation_server.Common.{
  ℕ, ◌≡◌, refl, ==_iff, Option, none, some, arith, Bytes, bytes_eq_iff, Option-cases, inl, inr,
}
use isolation_server.Server.Messages.{RegisterAccount, Login}
use isolation_server.Server.Spec.{
  Presence, View, register, enter, log_in, leave, leave_at, log_out, connect, disconnect,
}

-- The login id of a connection, if it has one.
abbrev pub login_of : Option Presence → Option Bytes
login_of none = none
login_of (some p) = p.login_id

-- A connection that is logged in as an id is the holder of that id.
pub record IsLinked (v : View) : Type 0 where
  pub linked :
      (token : ℕ) (id : Bytes) → login_of (v.presence token) ≡ some id → v.holder id ≡ some token

-- Then no two connections are logged in as the same id.
pub IsLinked-unique :
    {v : View} (s t : ℕ) (id : Bytes)
    → IsLinked v
    → login_of (v.presence s) ≡ some id
    → login_of (v.presence t) ≡ some id
    → s ≡ t
IsLinked-unique s t id h p q = ground (arith, h.linked s id p, h.linked t id q)

log_in-IsLinked :
    (token : ℕ) (id : Bytes) (v : View)
    → v.holder id ≡ none
    → IsLinked v
    → IsLinked (log_in token id v)
log_in-IsLinked token id v free h = record {
  linked = λ t j p. ground (arith, h.linked t j, bytes_eq_iff id j, ==_iff token t);
}

log_out-IsLinked :
    (token : ℕ) (id : Bytes) (v : View)
    → login_of (v.presence token) ≡ some id
    → IsLinked v
    → IsLinked (log_out token id v)
log_out-IsLinked token id v here h = record {
  linked = λ t j p.
      ground (arith, h.linked t j, h.linked token id here, bytes_eq_iff id j, ==_iff token t);
}

leave-out :
    (token : ℕ) (v : View) (p : Option Presence) → login_of p ≡ none → leave_at token v p ≡ v
leave-out token v none e = refl
leave-out token v (some p) e = ground (arith, e)

leave-in :
    (token : ℕ) (v : View) (p : Option Presence) (id : Bytes)
    → login_of p ≡ some id
    → leave_at token v p ≡ log_out token id v
leave-in token v none id e = cc
leave-in token v (some p) id e = ground (arith, e)

pub leave-IsLinked : (token : ℕ) (v : View) → IsLinked v → IsLinked (leave token v)
unfolding leave
leave-IsLinked token v h = elim (Option-cases (login_of (v.presence token))) [
  | inl out ↦ rw (leave-out token v (v.presence token) out) h
  | inr (id, e) ↦ rw (leave-in token v (v.presence token) id e) (log_out-IsLinked token id v e h)
]

pub connect-IsLinked :
    (time : Bytes) (token : ℕ) (v : View) → IsLinked v → IsLinked (connect time token v)
unfolding connect
connect-IsLinked time token v h = record {
  linked = λ t j p. ground (arith, h.linked t j, ==_iff token t);
}

pub disconnect-IsLinked : (token : ℕ) (v : View) → IsLinked v → IsLinked (disconnect token v)
unfolding disconnect
disconnect-IsLinked token v h =
    let l = leave-IsLinked token v h in
    record { linked = λ t j p. ground (arith, l.linked t j, ==_iff token t) }

module _ (sha256 : Bytes → Bytes) where
  pub register-IsLinked :
      (m : RegisterAccount) (v : View) → IsLinked v → IsLinked (register sha256 m v).1
  unfolding register
  register-IsLinked m v h = record { linked = λ t id p. ground (arith, h.linked t id) }

  pub enter-IsLinked :
      (token : ℕ) (m : Login) (v : View) → IsLinked v → IsLinked (enter sha256 token m v).1
  unfolding enter
  enter-IsLinked token m v h = elim (Option-cases (v.holder m.id)) [
    | inl free ↦ record {
      linked = λ t id p.
          ground (arith, h.linked t id, (log_in-IsLinked token m.id v free h).linked t id);
    }
    | inr (s, held) ↦ record { linked = λ t id p. ground (arith, h.linked t id, held) }
  ]
