-- ===== src/Lobby/Lifecycle.antt =====
-- The sessions of the lobby, from their creation to the join code of their host.
use isolation_server.Common.{
  ℕ, ◌+◌, ◌^◌, ◌≤◌, ◌<◌, ◌≡◌, refl, ap, true, [], Option, none, some, Bytes, text, ◌==◌, ==_iff,
  arith, Bool-cases, Option-cases, inl, inr,
}
use isolation_server.Common.Map
use isolation_server.Common.Map.{Map, find-insert, find-erase}
use isolation_server.Common.Parse.{stoull-to_string}
use isolation_server.Util.{counted, utf8_length}
use isolation_server.Redis.{Redis, Laws}
use isolation_server.Redis.Derived.{hget-hset_self}
use isolation_server.Session.{Outcome, returned, Session, Reason, set_host_join_code}
use isolation_server.Session.Creation.{
  create_session_stored, created-host, new_session, new_database,
}
use isolation_server.Lobby.{
  Lobby, int_max, activate_session, keep_session, create_session, receive_join_code,
}

-- No session is in both maps, and no index is above the counter.
pub record IsOrdered (l : Lobby) : Type 0 where
  pub bound_empty :
      (i : ℕ) (s : Session) → Map.find i l.empty_sessions ≡ some s → i ≤ l.session_index_counter
  pub bound_active :
      (i : ℕ) (s : Session) → Map.find i l.sessions ≡ some s → i ≤ l.session_index_counter
  pub disjoint :
      (i : ℕ) (s : Session) → Map.find i l.empty_sessions ≡ some s → Map.find i l.sessions ≡ none

-- What may happen to the sessions, with any database: a session is kept, or activated.
pub data Reaches (R : Redis) (l : Lobby) : Lobby → Type 0 where
  begin : Reaches R l l
  created :
      {u v : Lobby} {index : ℕ} {reason : Option Reason} (s : Session) (db db' : R.Database)
      → Reaches R l u
      → keep_session R u reason s db ≡ returned (index, reason, v, db')
      → Reaches R l v
  activated : {u : Lobby} (index : ℕ) → Reaches R l u → Reaches R l (activate_session index u)

activate_session-IsOrdered : (i : ℕ) (l : Lobby) → IsOrdered l → IsOrdered (activate_session i l)
unfolding activate_session
activate_session-IsOrdered i l h = elim (Option-cases (Map.find i l.empty_sessions)) [
  | inl absent ↦ rw (absent, activate_session) h
  | inr (s, found) ↦
      rw (found, activate_session)
        (record {
          bound_empty = λ j t e. ground (arith, h.bound_empty j t, find-erase i j l.empty_sessions);
          bound_active = λ j t e. ground (
            arith,
            h.bound_active j t,
            h.bound_empty i s found,
            find-insert i j s l.sessions,
            ==_iff i j,
          );
          disjoint = λ j t e. ground (
            arith,
            h.disjoint j t,
            find-erase i j l.empty_sessions,
            find-insert i j s l.sessions,
          );
        })
]

abbrev kept : Lobby → Session → Lobby
kept l s = record l {
  session_index_counter = l.session_index_counter + 1;
  empty_sessions = Map.insert (l.session_index_counter + 1) s l.empty_sessions;
}

no_active_above :
    (l : Lobby) → IsOrdered l → Map.find (l.session_index_counter + 1) l.sessions ≡ none
no_active_above l h = elim (Option-cases (Map.find (l.session_index_counter + 1) l.sessions)) [
  | inl absent ↦ absent
  | inr (s, found) ↦ absurd (omega (arith, h.bound_active _ s found))
]

kept-IsOrdered : (l : Lobby) (s : Session) → IsOrdered l → IsOrdered (kept l s)
kept-IsOrdered l s h =
    let i = l.session_index_counter + 1 in
    record {
      bound_empty = λ j t e.
          ground (arith, h.bound_empty j t, find-insert i j s l.empty_sessions, ==_iff i j);
      bound_active = λ j t e. ground (arith, h.bound_active j t e);
      disjoint = λ j t e. ground (
        arith,
        h.disjoint j t,
        no_active_above l h,
        find-insert i j s l.empty_sessions,
        ==_iff i j,
      );
    }

abbrev lobby_of : {D : Type 0} → Lobby → Outcome (ℕ × Option Reason × Lobby × D) → Lobby
lobby_of l (returned (index, reason, l', db)) = l'
lobby_of l _ = l

keep_session-IsOrdered :
    (R : Redis) (u v : Lobby) (s : Session) (db db' : R.Database) (index : ℕ)
    (reason : Option Reason)
    → IsOrdered u
    → keep_session R u reason s db ≡ returned (index, reason, v, db')
    → IsOrdered v
unfolding keep_session
keep_session-IsOrdered R u v s db db' index (some r) h e = rw (← ap (lobby_of u) e) h
keep_session-IsOrdered R u v s db db' index none h e =
    elim (Bool-cases (u.session_index_counter == int_max)) [
      | inl last ↦ absurd (ground (arith, last, e))
      | inr room ↦ rw (← rw room at (ap (lobby_of u) e)) (kept-IsOrdered u s h)
    ]

-- From a lobby in which no session is in both maps and no index is above the counter, that holds
-- after any creations and activations of sessions, for any database.
pub Reaches-IsOrdered : {R : Redis} {l u : Lobby} → IsOrdered l → Reaches R l u → IsOrdered u
Reaches-IsOrdered h begin = h
Reaches-IsOrdered h (created s db db' run e) =
    keep_session-IsOrdered _ _ _ s db db' _ _ (Reaches-IsOrdered h run) e
Reaches-IsOrdered h (activated i run) = activate_session-IsOrdered i _ (Reaches-IsOrdered h run)

module _ {R : Redis} (L : Laws R) (l : Lobby) (h : IsOrdered l) (token client n : ℕ)
    (nickname name password code : Bytes) (db : R.Database) where
  abbrev blank : Session
  blank = record { token = token; session_key = []; session_clients_key = [] }

  abbrev made : Session
  made = new_session L blank client 4 n nickname name password db

  abbrev made_database : R.Database
  made_database = new_database L blank client 4 n nickname name password db

  abbrev index : ℕ
  index = l.session_index_counter + 1

  abbrev coded : R.Database
  coded = (R.hset made.session_key (text "joinCode") code made_database).1

  create_session_lem :
      l.session_index_counter < int_max
      → utf8_length name ≡ counted n
      → 2 ≤ n
      → create_session R token (some (client, nickname)) name password l db
        ≡ returned (index, none, kept l made, made_database)
  unfolding create_session
  create_session_lem room count long =
      rw
        (create_session_stored L blank client 4 n nickname name password db (λ e. omega arith) count
          long)
        (ground arith)

  host_code :
      client < 2 ^ 64 → set_host_join_code R made client code made_database ≡ returned (true, coded)
  unfolding set_host_join_code
  host_code high = ground (
    arith,
    created-host L token client 4 nickname name password db,
    stoull-to_string client high,
    ==_iff client client,
  )

  receive_lem :
      client < 2 ^ 64
      → receive_join_code R index made client code (kept l made) made_database
        ≡ returned (activate_session index (kept l made), coded)
  unfolding receive_join_code
  receive_lem high = rw (host_code high) refl

  found_index : Map.find index (kept l made).empty_sessions ≡ some made
  found_index = ground (arith, find-insert index index made l.empty_sessions, ==_iff index index)

  now_active :
      (Map.find index (activate_session index (kept l made)).sessions ≡ some made)
      × (Map.find index (activate_session index (kept l made)).empty_sessions ≡ none)
  unfolding activate_session
  now_active =
      rw (found_index, activate_session)
        (
          ground (arith, find-insert index index made l.sessions, ==_iff index index),
          ground (arith, find-erase index index (kept l made).empty_sessions, ==_iff index index),
        )

  -- In a lobby whose indices are ordered and not used up, a client creates a session with a name of
  -- two characters or more: the session is among the empty ones under a new index. When the client,
  -- whose token is below 2 ^ 64, then sends a join code, the session is among the active ones only,
  -- and its key in the database has the join code.
  pub join_code_activates :
      l.session_index_counter < int_max
      → utf8_length name ≡ counted n
      → 2 ≤ n
      → client < 2 ^ 64
      → (i : ℕ) × (s : Session) × (l1 : Lobby) × (db1 : R.Database) × (l2 : Lobby)
        × (db2 : R.Database) × (create_session R token (some (client, nickname)) name password l db
            ≡ returned (i, none, l1, db1))
        × (Map.find i l1.empty_sessions ≡ some s)
        × (Map.find i l1.sessions ≡ none)
        × (receive_join_code R i s client code l1 db1 ≡ returned (l2, db2))
        × (Map.find i l2.sessions ≡ some s)
        × (Map.find i l2.empty_sessions ≡ none)
        × (R.hget s.session_key (text "joinCode") db2 ≡ some code)
  join_code_activates room count long high = (
    index,
    made,
    kept l made,
    made_database,
    activate_session index (kept l made),
    coded,
    create_session_lem room count long,
    found_index,
    no_active_above l h,
    receive_lem high,
    now_active.0,
    now_active.1,
    hget-hset_self L _ _ _ _,
  )
