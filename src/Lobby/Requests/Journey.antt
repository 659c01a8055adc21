-- ===== src/Lobby/Requests/Journey.antt =====
-- A client from its entry into the lobby to the session list that shows its session: the calls of
-- deprecated/lobbyManager.cpp and deprecated/session.cpp that its requests lead to.
use isolation_server.Common.{
  ℕ, ◌+◌, ◌-◌, ◌^◌, ◌<◌, ◌≤◌, ◌≡◌, refl, ◌∙◌, true, false, [], ◌∷◌, none, some, Bytes, to_string,
  ltb, leb, length, take-length, arith, bytes_eq, bytes_eq_refl,
}
use isolation_server.Common.Map
use isolation_server.Common.Map.{Map, find-insert}
use isolation_server.Redis.{Redis, Laws}
use isolation_server.Redis.Strings.{Strings, StringLaws}
use isolation_server.Redis.Expiry.{Expiry, ExpiryLaws}
use isolation_server.RedisService
use isolation_server.Server.Keys.{client_key}
use isolation_server.Util.{counted, utf8_length}
use isolation_server.Session.{
  returned, Session, join_code, request_environment, entered, session_clients_key_of,
}
use isolation_server.Session.Creation.{clients_key_ne, create_session_stored, created-ttl}
use isolation_server.Session.Info.{SessionInfo}
use isolation_server.Session.Info.Created.{key_clients_ne}
use isolation_server.Session.Kept.{
  IsKept, get_session_info-IsKept, set_host_join_code-IsKept, add_client-IsKept, coded, hosted,
}
use isolation_server.Lobby.{
  Lobby, int_max, answered, activate_session, create_session, enter_session, receive_join_code,
}
use isolation_server.Lobby.List.{
  SessionList, valid_sessions, rewrite_session_list_cache, rewrite_session_list_cache_lem,
}
use isolation_server.Lobby.Entry.{Numbers, Socket, Hall, set_client_handler, request_enter_lobby}
use isolation_server.Lobby.Requests.{
  Messages, ok, packet, handle_request_session_create, handle_request_session_enter,
}
use isolation_server.Lobby.Requests.Made.{
  lobby_database, made, made_database, made-IsKept, shown, with_made, index, found_made,
  made_active,
}

module _ {R : Redis} {S : Strings R} (L : Laws R) (SL : StringLaws S) (E : Numbers) (M : Messages)
    (h : Hall R) (l : Lobby) (client : Socket) (k n m : ℕ)
    (nickname name password code payload request : Bytes) where
  abbrev i : ℕ
  i = index l (made {S = S} L SL k client.token m nickname name password h.database)

  abbrev s : Session
  s = made {S = S} L SL k client.token m nickname name password h.database

  abbrev d : R.Database
  d = lobby_database {S = S} L SL k client.token m nickname name password h.database

  abbrev d1 : R.Database
  d1 = made_database {S = S} L SL k client.token m nickname name password h.database

  session_created :
      utf8_length name ≡ counted m
      → 2 ≤ m
      → l.session_index_counter < int_max
      → create_session R k (some (client.token, nickname)) name password l d
        ≡ returned (i, none, with_made l s, d1)
  unfolding create_session
  session_created count long high =
      rw
        (create_session_stored L (record { token = k; session_key = []; session_clients_key = [] })
          client.token 4 m nickname name password d (λ e. omega arith) count long)
        (ground arith)

  created_answer :
      utf8_length name ≡ counted m
      → 2 ≤ m
      → 2 ^ 31 - 1 ≤ l.session_index_counter
      → l.session_index_counter < int_max
      → M.parse_request_session_creation payload ≡ some (name, password)
      → handle_request_session_create R M k client.token nickname payload (length payload) l d
        ≡ returned (
          packet M.response_session_creation
              (M.serialize_response_session_creation (record { session_index = i; reason = ok })),
          with_made l s,
          d1,
        )
  unfolding handle_request_session_create
  created_answer count long low high parses =
      let inside : leb (length payload) (length payload) ≡ true = ground arith in
      let index_shown : leb (2 ^ 31) i ≡ true = ground (arith, low) in
      rw
        (
          handle_request_session_create,
          inside,
          take-length payload,
          parses,
          session_created count long high,
          index_shown,
        )
        refl

  abbrev d2 : R.Database
  d2 = hosted R s client.token nickname d1

  abbrev d3 : R.Database
  d3 = coded R s code d2

  module _ (kept : IsKept R s client.token 4 nickname name password [] d1) (low : 0 < client.token)
      (high : client.token < 2 ^ 64) where
    abbrev ne : bytes_eq s.session_clients_key s.session_key ≡ false
    ne = clients_key_ne k

    abbrev en : bytes_eq s.session_key s.session_clients_key ≡ false
    en = key_clients_ne k

    host_enters :
        M.parse_request_session_entry request ≡ some i
        → handle_request_session_enter R M client.token nickname request
            (length request)
            (with_made l s)
            d1
          ≡ returned (
            packet M.response_session_entry (
                M.serialize_response_session_entry
                  (answered (entered (join_code ∷ request_environment true ∷ [])))),
            d2,
          )
    unfolding handle_request_session_enter enter_session
    host_enters parses =
        let inside : leb (length request) (length request) ≡ true = ground arith in
        let (enters, kept2) =
          add_client-IsKept L s client.token 4 nickname name password ne en [] d1 kept low high in
        rw
          (
            handle_request_session_enter,
            inside,
            take-length request,
            parses,
            enter_session,
            found_made l s,
            enters,
          )
          refl

    code_received :
        receive_join_code R i s client.token code (with_made l s) d2
        ≡ returned (activate_session i (with_made l s), d3)
    unfolding receive_join_code
    code_received =
        let (enters, kept2) =
          add_client-IsKept L s client.token 4 nickname name password ne en [] d1 kept low high in
        let (sent, kept3) =
          set_host_join_code-IsKept L s client.token 4 nickname name password ne en [] d2 kept2 code
            high in
        rw sent refl

    listed :
        (serialize : SessionList → Bytes) (variables : SessionInfo)
        → l.sessions ≡ []
        → rewrite_session_list_cache R d3 serialize variables (activate_session i (with_made l s))
          ≡ returned (serialize (shown i name password code))
    unfolding valid_sessions
    listed serialize variables none_active =
        let (enters, kept2) =
          add_client-IsKept L s client.token 4 nickname name password ne en [] d1 kept low high in
        let (sent, kept3) =
          set_host_join_code-IsKept L s client.token 4 nickname name password ne en [] d2 kept2 code
            high in
        let info =
          get_session_info-IsKept L s client.token 4 nickname name password ne en code d3 kept3 low
            high (omega arith) in
        rewrite_session_list_cache_lem R d3 serialize variables (activate_session i (with_made l s))
        ∙ rw (made_active l s none_active, info) refl

  -- The keys of the session do not expire any more once its host has entered.
  kept_for_good :
      {X : Expiry R}
      → ExpiryLaws X
      → (X.ttl s.session_key d3 ≡ none) × (X.ttl s.session_clients_key d3 ≡ none)
  kept_for_good {X} XL =
      let key = s.session_key in
      let clients = s.session_clients_key in
      let db1 = (R.persist key d1).1 in
      let same : (k' : Bytes) → X.ttl k' d3 ≡ X.ttl k' (R.persist clients db1).1 =
        λ k'. XL.ttl-hset _ _ _ k' _ ∙ XL.ttl-hset _ _ _ k' _ in
      (
        same key
            ∙ XL.ttl-persist clients key db1
            ∙ rw (clients_key_ne k) (XL.ttl-persist key key d1 ∙ rw (bytes_eq_refl key) refl),
        same clients ∙ XL.ttl-persist clients clients db1 ∙ rw (bytes_eq_refl clients) refl,
      )

  -- RequestEnterLobby, for a client that is not in the lobby yet.
  abbrev entered_hall : Hall R
  entered_hall = record {
    logined_clients = Map.insert client.token (set_client_handler E client) h.logined_clients;
    stopped = h.stopped;
    database = d;
  }

  enters_lobby :
      utf8_length nickname ≡ counted n
      → 2 ≤ n
      → RedisService.exists R (client_key client.token) h.database ≡ false
      → request_enter_lobby S E (some (client, nickname)) h ≡ returned (none, entered_hall)
  unfolding request_enter_lobby client_key
  enters_lobby count long free =
      let enough : ltb n 2 ≡ false = ground (arith, long) in
      rw (request_enter_lobby, count, enough, free) refl

  -- A client, whose token is a number from 1 to 2 ^ 64 - 1, enters the lobby with a nickname of two
  -- characters or more and no key in redis. It then asks for a session with a name of two characters
  -- or more, where the lobby has no active session, the next index is an int from 0 on, and nobody
  -- is kept in redis as a client of the session's token. It enters the session, and sends a join
  -- code. Then the lobby admits it, the response to its creation has the index of the session, the
  -- response to its entry admits it as the host, and the next session list shows exactly this
  -- session: its index and name, at most four clients, one client, its password and the join code.
  -- The keys of the session expire in 180 seconds after its creation, and do not expire any more in
  -- the end.
  pub created_session_listed :
      {X : Expiry R} (XL : ExpiryLaws X) (serialize : SessionList → Bytes) (variables : SessionInfo)
      → 0 < client.token
      → client.token < 2 ^ 64
      → utf8_length nickname ≡ counted n
      → 2 ≤ n
      → RedisService.exists R (client_key client.token) h.database ≡ false
      → utf8_length name ≡ counted m
      → 2 ≤ m
      → 2 ^ 31 - 1 ≤ l.session_index_counter
      → l.session_index_counter < int_max
      → l.sessions ≡ []
      → R.hlen (session_clients_key_of k) h.database ≡ 0
      → R.hget (session_clients_key_of k) (to_string client.token) h.database ≡ none
      → M.parse_request_session_creation payload ≡ some (name, password)
      → M.parse_request_session_entry request ≡ some (l.session_index_counter + 1)
      → (h1 : Hall R) × (l1 : Lobby) × (s : Session) × (db1 : R.Database) × (db2 : R.Database)
        × (l2 : Lobby) × (db3 : R.Database) × (request_enter_lobby S E (some (client, nickname)) h
            ≡ returned (none, h1))
        × (handle_request_session_create R M k client.token nickname payload
              (length payload)
              l
              h1.database
            ≡ returned (
              packet M.response_session_creation (
                  M.serialize_response_session_creation
                    (record { session_index = l.session_index_counter + 1; reason = ok })),
              l1,
              db1,
            ))
        × (Map.find (l.session_index_counter + 1) l1.empty_sessions ≡ some s)
        × (handle_request_session_enter R M client.token nickname request (length request) l1 db1
            ≡ returned (
              packet M.response_session_entry (
                  M.serialize_response_session_entry
                    (answered (entered (join_code ∷ request_environment true ∷ [])))),
              db2,
            ))
        × (receive_join_code R (l.session_index_counter + 1) s client.token code l1 db2
            ≡ returned (l2, db3))
        × (rewrite_session_list_cache R db3 serialize variables l2
            ≡ returned (serialize (shown (l.session_index_counter + 1) name password code)))
        × (X.ttl s.session_key db1 ≡ some 180)
        × (X.ttl s.session_clients_key db1 ≡ some 180)
        × (X.ttl s.session_key db3 ≡ none)
        × (X.ttl s.session_clients_key db3 ≡ none)
  created_session_listed XL serialize variables low high nick nick_long free count long index_low
        index_high none_active empty absent creation entry =
      let kept =
        made-IsKept {S = S} L SL k client.token m nickname name password h.database empty absent in
      (
        entered_hall,
        with_made l s,
        s,
        d1,
        d2,
        activate_session i (with_made l s),
        d3,
        enters_lobby nick nick_long free,
        created_answer count long index_low index_high creation,
        found_made l s,
        host_enters kept low high entry,
        code_received kept low high,
        listed kept low high serialize variables none_active,
        (created-ttl L k client.token 4 nickname name password d XL).0,
        (created-ttl L k client.token 4 nickname name password d XL).1,
        (kept_for_good XL).0,
        (kept_for_good XL).1,
      )
