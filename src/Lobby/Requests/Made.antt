-- ===== src/Lobby/Requests/Made.antt =====
-- A session that a client of the lobby has created, and the lobby with it.
use isolation_server.Common.{
  ℕ, ◌+◌, ◌≡◌, refl, ◌∙◌, true, false, [], ◌∷◌, none, some, Bytes, to_string, lt→ltb, bytes_eq_refl,
  ==_iff, arith, bytes_eq,
}
use isolation_server.Common.Map
use isolation_server.Common.Map.{Map, find-insert}
use isolation_server.Redis.{Redis, Laws}
use isolation_server.Redis.Strings.{Strings, StringLaws}
use isolation_server.RedisService
use isolation_server.Server.Keys.{client_key}
use isolation_server.Session.{Session, session_clients_key_of}
use isolation_server.Session.Creation.{
  new_session, new_database, client_still_known, created-host, created-name, created-max,
  created-password, created-join_code, created-clients,
}
use isolation_server.Session.Info.Created.{one_client}
use isolation_server.Session.Kept.{IsKept}
use isolation_server.Lobby.{Lobby, activate_session}
use isolation_server.Lobby.List.{SessionList}

-- The keys of a client and of the clients of a session differ.
client_session_ne :
    (client session : ℕ) → bytes_eq (client_key client) (session_clients_key_of session) ≡ false
unfolding client_key bytes_eq
client_session_ne client session = refl

module _ {R : Redis} {S : Strings R} (L : Laws R) (SL : StringLaws S) (k token m : ℕ)
    (nickname name password : Bytes) (db : R.Database) where
  -- The database of a client that has entered the lobby.
  abbrev pub lobby_database : R.Database
  lobby_database = S.set (client_key token) nickname db

  abbrev blank : Session
  blank = record { token = k; session_key = []; session_clients_key = [] }

  abbrev pub made : Session
  made = new_session L blank token 4 m nickname name password lobby_database

  abbrev pub made_database : R.Database
  made_database = new_database L blank token 4 m nickname name password lobby_database

  pub made-IsKept :
      R.hlen (session_clients_key_of k) db ≡ 0
      → R.hget (session_clients_key_of k) (to_string token) db ≡ none
      → IsKept R made token 4 nickname name password [] made_database
  made-IsKept empty absent =
      let d = lobby_database in
      let ne = client_session_ne token k in
      let known : RedisService.exists R (client_key token) d ≡ true = lt→ltb _ _ (
        ground (
          arith,
          SL.exists-set (client_key token) nickname (client_key token) db,
          bytes_eq_refl (client_key token),
        )) in
      record {
        host_token = created-host L k token 4 nickname name password d;
        max_client_count = created-max L k token 4 nickname name password d;
        named = created-name L k token 4 nickname name password d;
        locked = created-password L k token 4 nickname name password d;
        joined = created-join_code L k token 4 nickname name password d;
        inside = created-clients L k token 4 nickname name password d;
        one =
            one_client L blank token 4 m nickname name password d (SL.hlen-set _ _ _ _ ne ∙ empty)
              (SL.hget-set _ _ _ _ _ ne ∙ absent);
        known = client_still_known L blank token 4 m nickname name password d known;
      }

-- The list of one session, with one client of at most four.
abbrev pub shown : (index : ℕ) → (name password code : Bytes) → SessionList
shown index name password code = record {
  count = 1;
  list =
      record {
        session_index = index;
        info = record {
          name = name;
          max_client_count = 4;
          client_count = 1;
          password = password;
          join_code = code;
        };
      }
      ∷ [];
}

-- The lobby with a new session.
abbrev pub with_made : Lobby → Session → Lobby
with_made l s = record l {
  session_index_counter = l.session_index_counter + 1;
  empty_sessions = Map.insert (l.session_index_counter + 1) s l.empty_sessions;
}

module _ (l : Lobby) (s : Session) where
  abbrev pub index : ℕ
  index = l.session_index_counter + 1

  pub found_made : Map.find index (with_made l s).empty_sessions ≡ some s
  found_made = ground (arith, find-insert index index s l.empty_sessions, ==_iff index index)

  -- Its activation, where no session is active.
  pub made_active :
      l.sessions ≡ [] → (activate_session index (with_made l s)).sessions ≡ (index, s) ∷ []
  unfolding activate_session Map.insert
  made_active none_active = rw (found_made, activate_session, none_active) refl
