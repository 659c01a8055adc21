-- ===== src/Lobby/List.antt =====
-- The session list of deprecated/lobbyManager.cpp: RewriteSessionListCache, at one call of it, and
-- SendCurrentActivedSessionList.
use mathlib.Core.List.{append_assoc, append-nil}
use isolation_server.Common.{
  ℕ, ◌+◌, ◌≡◌, refl, ◌∙◌, ap, Bool, true, false, List, [], ◌∷◌, ◌++◌, Option, none, some, Bytes,
  text, length, ltb, if◌then◌else◌, ◌==◌, Option-cases, Bool-cases, inl, inr, arith,
}
use isolation_server.Common.Map.{Map}
use isolation_server.Common.Parse.{Parsed, number, invalid_argument, out_of_range, stoi}
use isolation_server.Redis.{Redis}
use isolation_server.Util.{append_prot_packet}
use isolation_server.Util.Words.{to_int}
use isolation_server.Session.{
  Outcome, returned, threw, undefined, ◌>>=◌, parsed, Session, is_valid_session,
}
use isolation_server.Session.Info.{
  SessionInfo, read_info, write_info, get_session_info, get_session_info_into,
}
use isolation_server.Lobby.{Lobby}

-- A session of the list, and M_ResponseSessionList.
pub record Listed : Type 0 where
  pub session_index : ℕ
  pub info : SessionInfo

pub record SessionList : Type 0 where
  pub count : ℕ
  pub list : List Listed

module _ (R : Redis) (db : R.Database) where
  -- The loop over `_sessions`: the variables that GetSessionInfo writes, and the list so far.
  unfoldable pub list_sessions : Map Session → SessionInfo → List Listed → Outcome (List Listed)
  list_sessions [] variables ml = returned ml
  list_sessions ((index, s) ∷ rest) variables ml =
      get_session_info_into R s db variables >>= λ result.
      list_sessions rest result.1
        (if result.0 then ml ++ record { session_index = index; info = result.1 } ∷ [] else ml)

  -- RewriteSessionListCache: the new cache. The variables have no value at first.
  unfoldable pub rewrite_session_list_cache :
      (serialize : SessionList → Bytes) → (variables : SessionInfo) → Lobby → Outcome Bytes
  unfolding list_sessions
  rewrite_session_list_cache serialize variables l =
      if ltb 0 (length l.sessions)
      then (list_sessions l.sessions variables [] >>= λ ml.
          returned (serialize (record { count = length l.sessions; list = ml })))
      else returned (serialize (record { count = 0; list = [] }))

-- SendCurrentActivedSessionList: the packet with the cache.
unfoldable pub send_current_actived_session_list : (type : ℕ) → (cache : Bytes) → Bytes
send_current_actived_session_list type cache =
    append_prot_packet [] type (length cache + 12) ++ cache

-- What GetSessionInfo gives where it returns true.
abbrev given : Bool × SessionInfo → Option SessionInfo
given (true, info) = some info
given (false, info) = none

parsed-given :
    (o : Parsed) (f : ℕ → Outcome (Bool × SessionInfo)) (g : ℕ → Outcome (Option SessionInfo))
    → ((n : ℕ) → f n >>= (λ r. returned (given r)) ≡ g n)
    → (parsed o >>= f) >>= (λ r. returned (given r)) ≡ parsed o >>= g
parsed-given (number n) f g h = h n
parsed-given invalid_argument f g h = refl
parsed-given out_of_range f g h = refl

module _ (R : Redis) (s : Session) (db : R.Database) (old : SessionInfo) where
  write_info-given :
      (n : ℕ) → write_info R s db n old >>= (λ r. returned (given r)) ≡ read_info R s db n
  unfolding write_info read_info
  write_info-given n = elim (Option-cases (R.hget s.session_key (text "name") db)) [
    | inl none_name ↦ rw (none_name, write_info, read_info) refl
    | inr (name, has_name) ↦
        rw (has_name, write_info, read_info)
          (elim (Option-cases (R.hget s.session_key (text "maxClientCount") db)) [
            | inl none_max ↦ rw none_max refl
            | inr (max, has_max) ↦ rw has_max (
                parsed-given (stoi max) _ _ (λ k.
                  elim (Option-cases (R.hget s.session_key (text "password") db)) [
                    | inl none_password ↦ rw none_password refl
                    | inr (password, has_password) ↦
                        rw has_password
                          (elim (Option-cases (R.hget s.session_key (text "joinCode") db)) [
                            | inl none_code ↦ rw none_code refl
                            | inr (code, has_code) ↦ rw has_code refl
                          ])
                  ]))
          ])
  ]

  get_session_info-given :
      get_session_info_into R s db old >>= (λ r. returned (given r)) ≡ get_session_info R s db
  unfolding get_session_info get_session_info_into
  get_session_info-given = elim (Option-cases (is_valid_session R s db)) [
    | inl valid ↦
        rw (valid, get_session_info, get_session_info_into)
          (let n = to_int (R.hlen s.session_clients_key db) in
            elim (Bool-cases (n == 0)) [
              | inl empty ↦ rw empty refl
              | inr some_clients ↦ rw some_clients (write_info-given n)
            ])
    | inr (reason, refused) ↦ rw (refused, get_session_info, get_session_info_into) refl
  ]

-- What the list is meant to be: the sessions of which GetSessionInfo gives something, in their order.
abbrev with_session : ℕ → Option SessionInfo → List Listed → List Listed
with_session index none ml = ml
with_session index (some info) ml = record { session_index = index; info = info } ∷ ml

unfoldable pub valid_sessions : (R : Redis) → R.Database → Map Session → Outcome (List Listed)
valid_sessions R db [] = returned []
valid_sessions R db ((index, s) ∷ rest) = get_session_info R s db >>= λ info.
    valid_sessions R db rest >>= λ ml. returned (with_session index info ml)

-- One round of the loop, for a session with an outcome of GetSessionInfo.
module _ (index : ℕ) (before : List Listed) (rest : Outcome (List Listed)) where
  abbrev entry : SessionInfo → Listed
  entry info = record { session_index = index; info = info }

  abbrev Behind : Option SessionInfo → Outcome (List Listed)
  Behind info =
      (rest >>= λ ml. returned (with_session index info ml)) >>= λ ml. returned (before ++ ml)

  skipped_round : (rest >>= λ ml. returned (before ++ ml)) ≡ Behind none
  skipped_round =
      elim rest
        as (λ r. (r >>= λ ml. returned (before ++ ml)) ≡ (
          (r >>= λ ml. returned (with_session index none ml)) >>= λ ml. returned (before ++ ml))) [
            | threw ↦ refl
            | undefined ↦ refl
            | returned ml ↦ refl
          ]

  listed_round :
      (info : SessionInfo)
      → (rest >>= λ ml. returned ((before ++ entry info ∷ []) ++ ml)) ≡ Behind (some info)
  listed_round info =
      elim rest
        as (λ r. (r >>= λ ml. returned ((before ++ entry info ∷ []) ++ ml)) ≡ (
          (r >>= λ ml. returned (with_session index (some info) ml)) >>= λ ml.
          returned (before ++ ml))) [
            | threw ↦ refl
            | undefined ↦ refl
            | returned ml ↦ ap returned (append_assoc before (entry info ∷ []) ml)
          ]

  round_lem :
      (o : Outcome (Bool × SessionInfo)) (loop : SessionInfo → List Listed → Outcome (List Listed))
      → ((variables : SessionInfo) (b : List Listed)
          → loop variables b ≡ (rest >>= λ ml. returned (b ++ ml)))
      → (o >>= λ r. loop r.1 (if r.0 then before ++ entry r.1 ∷ [] else before))
        ≡ ((o >>= λ r. returned (given r)) >>= Behind)
  round_lem threw loop h = refl
  round_lem undefined loop h = refl
  round_lem (returned (true, info)) loop h = h info _ ∙ listed_round info
  round_lem (returned (false, info)) loop h = h info _ ∙ skipped_round

-- Behind a first part of the list.
assoc :
    (o : Outcome (Option SessionInfo)) (f : Option SessionInfo → Outcome (List Listed))
    (before : List Listed)
    → (o >>= λ info. f info >>= λ ml. returned (before ++ ml))
      ≡ ((o >>= f) >>= λ ml. returned (before ++ ml))
assoc threw f before = refl
assoc undefined f before = refl
assoc (returned info) f before = refl

same_list :
    (o : Outcome (List Listed)) (f : List Listed → Outcome Bytes)
    → ((o >>= λ ml. returned ml) >>= f) ≡ (o >>= f)
same_list threw f = refl
same_list undefined f = refl
same_list (returned ml) f = refl

nothing_in : {A : Type 0} (xs : List A) → ltb 0 (length xs) ≡ false → xs ≡ []
nothing_in [] h = refl
nothing_in (x ∷ xs) h = absurd (ground (arith, h))

module _ (R : Redis) (db : R.Database) where
  list_sessions_lem :
      (m : Map Session) (variables : SessionInfo) (before : List Listed)
      → list_sessions R db m variables before
        ≡ (valid_sessions R db m >>= λ ml. returned (before ++ ml))
  unfolding list_sessions valid_sessions
  list_sessions_lem [] variables before = rw append-nil refl
  list_sessions_lem ((index, s) ∷ rest) variables before =
      round_lem index before (valid_sessions R db rest) (get_session_info_into R s db variables)
        (list_sessions R db rest) (list_sessions_lem rest)
      ∙ rw (get_session_info-given R s db variables) (assoc (get_session_info R s db) _ before)

  -- The variables of the loop keep what GetSessionInfo left in them for an earlier session, and what it
  -- wrote before it failed. Whatever they hold at first: RewriteSessionListCache gives the cache of
  -- the list that has exactly the sessions of which GetSessionInfo gives something, in their order,
  -- each with what it gives, and that counts all the active sessions; where GetSessionInfo throws
  -- for one of them, so does it.
  pub rewrite_session_list_cache_lem :
      (serialize : SessionList → Bytes) (variables : SessionInfo) (l : Lobby)
      → rewrite_session_list_cache R db serialize variables l ≡ (
          valid_sessions R db l.sessions >>= λ ml.
          returned (serialize (record { count = length l.sessions; list = ml })))
  unfolding rewrite_session_list_cache valid_sessions
  rewrite_session_list_cache_lem serialize variables l =
      elim (Bool-cases (ltb 0 (length l.sessions))) [
        | inl some_session ↦
            rw (rewrite_session_list_cache, some_session, list_sessions_lem l.sessions variables [])
              (same_list (valid_sessions R db l.sessions) _)
        | inr no_session ↦
            let e : l.sessions ≡ [] = nothing_in l.sessions no_session in
            rw (rewrite_session_list_cache, e) refl
      ]
