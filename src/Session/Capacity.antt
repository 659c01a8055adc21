-- ===== src/Session/Capacity.antt =====
-- AddClient of deprecated/session.cpp: the number of clients in a session.
use isolation_server.Common.{
  ℕ, ◌+◌, ◌≤◌, ◌≡◌, ◌≢◌, sym, ◌∙◌, ap, true, false, List, [], ◌∷◌, none, some, Bytes, text,
  to_string, ltb, if◌then◌else◌, arith, Bool-cases, inl, inr, bytes_eq_refl,
}
use isolation_server.Common.Parse.{number, stoull}
use isolation_server.Redis.{Redis, Laws}
use isolation_server.RedisService
use isolation_server.Server.Keys.{client_key}
use isolation_server.Session.{
  Outcome, returned, threw, undefined, Session, session_is_full, Handler, request_environment,
  Answer, entered, refused, is_valid_session, add_client, add_checked, add_guest, admit,
}

abbrev left_database : {D : Type 0} → D → Outcome (Answer × D) → D
left_database d (returned (entered handlers, db)) = db
left_database d (returned (refused reason, db)) = d
left_database d threw = d
left_database d undefined = d

-- The session is valid and its host is in it, and it says how many clients may enter.
pub record IsOpen (R : Redis) (s : Session) (host max : ℕ) (db : R.Database) : Type 0 where
  pub valid : is_valid_session R s db ≡ none
  pub host_token : Bytes
  pub host_stored : R.hget s.session_key (text "hostToken") db ≡ some host_token
  pub host_read : stoull host_token ≡ number host
  pub host_nickname : Bytes
  pub host_inside : R.hget s.session_clients_key host_token db ≡ some host_nickname
  pub max_text : Bytes
  pub max_stored : R.hget s.session_key (text "maxClientCount") db ≡ some max_text
  pub max_read : stoull max_text ≡ number max

module _ {R : Redis} (L : Laws R) (s : Session) (host max token : ℕ) (nickname : Bytes)
    (db : R.Database) (o : IsOpen R s host max db)
    (known : RedisService.exists R (client_key token) db ≡ true) (guest : host ≢ token) where
  abbrev with_guest : R.Database
  with_guest = (R.hset s.session_clients_key (to_string token) nickname db).1

  guest_answer : add_client R s token nickname db ≡ (
      if ltb max (R.hlen s.session_clients_key db)
      then returned (refused session_is_full, db)
      else returned (entered (request_environment false ∷ []), with_guest))
  unfolding add_client add_checked add_guest admit
  guest_answer =
      ground
        (arith, known, o.valid, o.host_stored, o.host_read, o.host_inside, o.max_stored, o.max_read)

  hlen-with_guest : R.hlen s.session_clients_key with_guest ≤ R.hlen s.session_clients_key db + 1
  hlen-with_guest =
      ground (
        arith,
        L.hlen-hset s.session_clients_key (to_string token) nickname s.session_clients_key db,
      )

  -- A known client that is not the host enters a valid session with its host inside: then the
  -- session has at most one client more than its maximum.
  pub add_client_capacity :
      (handlers : List Handler) (db' : R.Database)
      → add_client R s token nickname db ≡ returned (entered handlers, db')
      → R.hlen s.session_clients_key db' ≤ max + 1
  add_client_capacity handlers db' e =
      elim (Bool-cases (ltb max (R.hlen s.session_clients_key db))) [
        | inl full ↦
            let at_answer : returned (refused session_is_full, db)
                ≡ returned (entered handlers, db') =
              rw full at (sym guest_answer ∙ e) in
            absurd (ground (arith, at_answer))
        | inr room ↦
            let at_answer : returned (entered (request_environment false ∷ []), with_guest)
                ≡ returned (entered handlers, db') =
              rw room at (sym guest_answer ∙ e) in
            rw (← ap (left_database db) at_answer) (ground (arith, room, hlen-with_guest))
      ]

  -- A known client that is not the host and not inside is let into a valid session, with its host
  -- inside, that has as many clients as its maximum says, and the session then has one more.
  pub full_session_admits :
      R.hlen s.session_clients_key db ≡ max
      → R.hexists s.session_clients_key (to_string token) db ≡ false
      → (db' : R.Database) × (add_client R s token nickname db
          ≡ returned (entered (request_environment false ∷ []), db'))
        × (R.hlen s.session_clients_key db' ≡ max + 1)
  full_session_admits full outside = (
    with_guest,
    guest_answer ∙ ground (arith, full),
    ground (
      arith,
      full,
      outside,
      bytes_eq_refl s.session_clients_key,
      L.hlen-hset s.session_clients_key (to_string token) nickname s.session_clients_key db,
    ),
  )
