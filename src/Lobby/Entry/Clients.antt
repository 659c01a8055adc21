-- ===== src/Lobby/Entry/Clients.antt =====
-- What is known of the clients of the lobby.
use isolation_server.Common.{
  ℕ, ◌≤◌, ◌≡◌, refl, sym, ◌∙◌, true, false, List, [], ◌∷◌, Option, none, some, Bytes, ltb, ◌==◌,
  ==_iff, if◌then◌else◌, arith, bytes_eq_refl, Bool-cases, inl, inr,
}
use mathlib.Core.Option.{some-injective}
use isolation_server.Common.Map
use isolation_server.Common.Map.{Map, find-insert, find-erase}
use isolation_server.Redis.{Redis, Laws}
use isolation_server.Redis.Derived.{exists-del_self}
use isolation_server.Redis.Strings.{Strings, StringLaws}
use isolation_server.RedisService
use isolation_server.ClientSocket.{
  set_packet_handler, set_error_handler, clear_packet_handler, clear_disconnect_handler,
}
use isolation_server.Server.Keys.{client_key, client_key-ne}
use isolation_server.Session.{returned}
use isolation_server.Util.{Count, counted, invalid, unfinished, utf8_length}
use isolation_server.Util.Utf8.{utf8_length_ends}
use isolation_server.Lobby.Entry.{
  Numbers, Socket, Hall, Refusal, invalid_utf8, nickname_is_not_valid, nickname_exists,
  set_client_handler, request_enter_lobby, disconnected_client, handle_request_session_leave, Event,
  entering, disconnecting, leaving, step, steps,
}

-- The invariant: each client of the lobby stands under its own token, its key is in redis, and it has
-- the handlers of the lobby and no others.
pub record IsHall {R : Redis} (E : Numbers) (h : Hall R) : Type 0 where
  pub keyed :
      (token : ℕ) (c : Socket)
      → Map.find token h.logined_clients ≡ some c
      → RedisService.exists R (client_key token) h.database ≡ true
  pub own : (token : ℕ) (c : Socket) → Map.find token h.logined_clients ≡ some c → c.token ≡ token
  pub handled :
      (token : ℕ) (c : Socket)
      → Map.find token h.logined_clients ≡ some c
      → c.packet_handler ≡ (set_client_handler E c).packet_handler

module _ {R : Redis} {S : Strings R} (L : Laws R) (SL : StringLaws S) (E : Numbers) (h : Hall R)
    (i : IsHall E h) where
  -- The hall with one more client.
  abbrev pub admitted : Socket → Bytes → Hall R
  admitted c nickname = record {
    logined_clients = Map.insert c.token (set_client_handler E c) h.logined_clients;
    stopped = h.stopped;
    database = S.set (client_key c.token) nickname h.database;
  }

  exists-admitted :
      (c : Socket) (nickname : Bytes) (token : ℕ)
      → RedisService.exists R (client_key token) (admitted c nickname).database
        ≡ (if c.token == token then true else RedisService.exists R (client_key token) h.database)
  exists-admitted c nickname token = elim (Bool-cases (c.token == token)) [
    | inl same ↦
        let e : c.token ≡ token = (==_iff c.token token).0 same in
        rw
          (
            same,
            SL.exists-set (client_key c.token) nickname (client_key token) h.database,
            e,
            bytes_eq_refl (client_key token),
          )
          refl
    | inr other ↦
        rw
          (
            other,
            SL.exists-set (client_key c.token) nickname (client_key token) h.database,
            client_key-ne c.token token other,
          )
          refl
  ]

  newest :
      (c d : Socket) (token : ℕ)
      → (c.token == token) ≡ true
      → Map.find token (Map.insert c.token (set_client_handler E c) h.logined_clients) ≡ some d
      → set_client_handler E c ≡ d
  newest c d token same found = some-injective _ _ (
      sym (find-insert c.token token (set_client_handler E c) h.logined_clients ∙ rw same refl)
      ∙ found)

  pub admitted-IsHall : (c : Socket) (nickname : Bytes) → IsHall E (admitted c nickname)
  unfolding set_client_handler set_packet_handler set_error_handler clear_packet_handler
      clear_disconnect_handler
  admitted-IsHall c nickname = record {
    keyed = λ token d found. elim (Bool-cases (c.token == token)) [
      | inl same ↦ rw (exists-admitted c nickname token, same) refl
      | inr other ↦
          rw (exists-admitted c nickname token, other)
            (i.keyed token d (
              ground (arith, find-insert c.token token (set_client_handler E c) h.logined_clients)))
    ];
    own = λ token d found. elim (Bool-cases (c.token == token)) [
      | inl same ↦ rw (sym (newest c d token same found)) ((==_iff c.token token).0 same)
      | inr other ↦
          i.own token d
            (ground (arith, find-insert c.token token (set_client_handler E c) h.logined_clients))
    ];
    handled = λ token d found. elim (Bool-cases (c.token == token)) [
      | inl same ↦ rw (sym (newest c d token same found)) refl
      | inr other ↦
          i.handled token d
            (ground (arith, find-insert c.token token (set_client_handler E c) h.logined_clients))
    ];
  }

  erase_found :
      (token t : ℕ) (d : Socket)
      → Map.find t (Map.erase token h.logined_clients) ≡ some d
      → (Map.find t h.logined_clients ≡ some d) × ((token == t) ≡ false)
  erase_found token t d found = elim (Bool-cases (token == t)) [
    | inl same ↦ absurd (ground (arith, find-erase token t h.logined_clients))
    | inr other ↦ (ground (arith, find-erase token t h.logined_clients), other)
  ]

  leave-IsHall : (token : ℕ) → IsHall E (handle_request_session_leave S E token h)
  unfolding handle_request_session_leave
  leave-IsHall token = record {
    keyed = λ t d found. i.keyed t d (erase_found token t d found).0;
    own = λ t d found. i.own t d (erase_found token t d found).0;
    handled = λ t d found. i.handled t d (erase_found token t d found).0;
  }

  disconnected-IsHall : (token : ℕ) → IsHall E (disconnected_client S E token h)
  unfolding disconnected_client
  disconnected-IsHall token = record {
    keyed = λ t d found.
        let (there, other) = erase_found token t d found in
        let ne = client_key-ne token t other in
        rw (L.exists-del (client_key token) (client_key t) h.database, ne) (i.keyed t d there);
    own = λ t d found. i.own t d (erase_found token t d found).0;
    handled = λ t d found. i.handled t d (erase_found token t d found).0;
  }

  -- A hall that RequestEnterLobby leaves.
  abbrev Enters : Option (Socket × Bytes) → Type 0
  Enters client =
      (r : Option Refusal) × (h' : Hall R) × (request_enter_lobby S E client h ≡ returned (r, h'))
      × IsHall E h'

  enter-IsHall : (client : Option (Socket × Bytes)) → Enters client
  unfolding request_enter_lobby client_key
  enter-IsHall none = (_, h, refl, i)
  enter-IsHall (some (c, nickname)) = counted_as (utf8_length nickname) refl
    where
      counted_as : (o : Count) → utf8_length nickname ≡ o → Enters (some (c, nickname))
      counted_as invalid e = (some invalid_utf8, h, rw (e, request_enter_lobby) refl, i)
      counted_as unfinished e = absurd (utf8_length_ends nickname e)
      counted_as (counted n) e = elim (Bool-cases (ltb n 2)) [
        | inl short ↦ (some nickname_is_not_valid, h, rw (e, request_enter_lobby, short) refl, i)
        | inr long ↦ elim (Bool-cases (RedisService.exists R (client_key c.token) h.database)) [
          | inl taken ↦ (some nickname_exists, h, rw (e, request_enter_lobby, long, taken) refl, i)
          | inr free ↦ (
            none,
            admitted c nickname,
            rw (e, request_enter_lobby, long, free) refl,
            admitted-IsHall c nickname,
          )
        ]
      ]

  -- A client of the lobby leaves it: it is no client of the lobby from then on, its socket is closed,
  -- and its key stays in redis. The read of the closed socket fails, and the error handler is called:
  -- the key is gone then, and no socket waits for its error handler. A client with the same token that
  -- asks to enter after this, with a nickname of two characters or more, is a client of the lobby.
  pub request_enter_lobby_again :
      (token n : ℕ) (old c : Socket) (nickname : Bytes)
      → Map.find token h.logined_clients ≡ some old
      → c.token ≡ token
      → utf8_length nickname ≡ counted n
      → 2 ≤ n
      → let left = handle_request_session_leave S E token h in
        let gone = disconnected_client S E token left in
        (Map.find token left.logined_clients ≡ none)
        × (Map.find token left.stopped ≡ some tt)
        × (RedisService.exists R (client_key token) left.database ≡ true)
        × (RedisService.exists R (client_key token) gone.database ≡ false)
        × (Map.find token gone.stopped ≡ none)
        × (h' : Hall R) × (request_enter_lobby S E (some (c, nickname)) gone ≡ returned (none, h'))
        × (Map.find token h'.logined_clients ≡ some (set_client_handler E c))
  unfolding request_enter_lobby disconnected_client handle_request_session_leave client_key
  request_enter_lobby_again token n old c nickname found own count long =
      let enough : ltb n 2 ≡ false = ground (arith, long) in
      let removed : R.exists (client_key token) (R.del (client_key token) h.database).1 ≡ 0 =
        exists-del_self L (client_key token) h.database in
      let left = handle_request_session_leave S E token h in
      let gone = disconnected_client S E token left in
      let next : Hall R = record {
        logined_clients = Map.insert token (set_client_handler E c) gone.logined_clients;
        stopped = gone.stopped;
        database = S.set (client_key token) nickname gone.database;
      } in
      let here : (token == token) ≡ true = ground (arith, ==_iff token token) in
      (
        find-erase token token h.logined_clients ∙ rw here refl,
        find-insert token token tt h.stopped ∙ rw here refl,
        i.keyed token old found,
        rw removed refl,
        find-erase token token left.stopped ∙ rw here refl,
        next,
        rw (count, request_enter_lobby, enough, own, removed) refl,
        find-insert token token (set_client_handler E c) gone.logined_clients ∙ rw here refl,
      )

module _ {R : Redis} {S : Strings R} (L : Laws R) (SL : StringLaws S) (E : Numbers) where
  step-IsHall :
      (e : Event) (h : Hall R)
      → IsHall E h
      → (h' : Hall R) × (step S E e h ≡ returned h') × IsHall E h'
  unfolding step
  step-IsHall (entering client) h i =
      let (reason, h', ends, i') = enter-IsHall L SL E h i client in (h', rw ends refl, i')
  step-IsHall (disconnecting token) h i = (_, refl, disconnected-IsHall {S = S} L SL E h i token)
  step-IsHall (leaving token) h i = (_, refl, leave-IsHall {S = S} L SL E h i token)

  -- Whoever enters the lobby, leaves it or loses its connection, in whatever order: every call returns
  -- without an exception and without undefined behaviour, and each client of the lobby stands under
  -- its own token, has its key in redis, and has the packet handlers of the lobby and no others.
  pub steps-IsHall :
      (es : List Event) (h : Hall R)
      → IsHall E h
      → (h' : Hall R) × (steps S E es h ≡ returned h') × IsHall E h'
  unfolding steps
  steps-IsHall [] h i = (h, refl, i)
  steps-IsHall (e ∷ es) h i =
      let (h', first, i') = step-IsHall e h i in
      let (h'', rest, i'') = steps-IsHall es h' i' in (h'', rw first rest, i'')
