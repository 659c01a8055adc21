-- ===== src/Session/Entry.antt =====
-- AddClient of deprecated/session.cpp: its dereferences.
use isolation_server.Common.{
  ℕ, ◌≡◌, ◌≢◌, Bool, true, false, List, [], ◌∷◌, none, Bytes, text, if◌then◌else◌, arith,
  Bool-cases, Option-cases, inl, inr,
}
use isolation_server.Common.Parse.{Parsed, number, invalid_argument, out_of_range, stoull}
use isolation_server.Redis.{Redis}
use isolation_server.RedisService
use isolation_server.Server.Keys.{client_key}
use isolation_server.Session.{
  Outcome, returned, undefined, ◌>>=◌, parsed, Session, Handler, join_code, is_valid_session,
  add_client, add_checked, add_guest, add_host, admit,
}

-- A call that does nothing undefined.
abbrev pub IsDefined : {A : Type 0} → Outcome A → Type 0
IsDefined o = o ≢ undefined

returned-IsDefined : {A : Type 0} (a : A) → IsDefined (returned a)
returned-IsDefined a = λ e. cc

if-IsDefined :
    {A : Type 0} (b : Bool) (p q : Outcome A)
    → IsDefined p
    → IsDefined q
    → IsDefined (if b then p else q)
if-IsDefined true p q h k = h
if-IsDefined false p q h k = k

parsed-IsDefined :
    {A : Type 0} (n : Parsed) (f : ℕ → Outcome A)
    → ((k : ℕ) → IsDefined (f k))
    → IsDefined (parsed n >>= f)
parsed-IsDefined (number n) f h = h n
parsed-IsDefined invalid_argument f h = λ e. cc
parsed-IsDefined out_of_range f h = λ e. cc

module _ (R : Redis) (s : Session) (token : ℕ) (nickname : Bytes) (db : R.Database) where
  admit-IsDefined :
      (host : Bool) (handlers : List Handler) (d : R.Database)
      → IsDefined (admit R s token nickname host handlers d)
  unfolding admit
  admit-IsDefined host handlers d = λ e. cc

  add_guest-IsDefined :
      (host_token : Bytes) → IsDefined (add_guest R s host_token token nickname db)
  unfolding add_guest
  add_guest-IsDefined host_token =
      elim (Option-cases (R.hget s.session_clients_key host_token db)) [
        | inl absent ↦ rw (absent, add_guest) (returned-IsDefined _)
        | inr (h, here) ↦
            rw (here, add_guest)
              (elim (Option-cases (R.hget s.session_key (text "maxClientCount") db)) [
                | inl absent ↦ rw absent (returned-IsDefined _)
                | inr (m, max) ↦ rw max (
                    parsed-IsDefined (stoull m) _ (λ k.
                      if-IsDefined _ _ _ (returned-IsDefined _) (admit-IsDefined false [] db)))
              ])
      ]

  add_checked-IsDefined :
      is_valid_session R s db ≡ none → IsDefined (add_checked R s token nickname db)
  unfolding is_valid_session add_checked add_host
  add_checked-IsDefined valid = elim (Option-cases (R.hget s.session_key (text "hostToken") db)) [
    | inl absent ↦ absurd (ground (arith, valid, absent))
    | inr (t, here) ↦ rw here (
        parsed-IsDefined (stoull t) _ (λ k.
          if-IsDefined _ _ _ (admit-IsDefined true (join_code ∷ []) _) (add_guest-IsDefined t)))
  ]

  -- AddClient dereferences no empty optional, whatever is in the database.
  pub add_client-IsDefined : add_client R s token nickname db ≢ undefined
  unfolding add_client
  add_client-IsDefined = elim (Bool-cases (RedisService.exists R (client_key token) db)) [
    | inl known ↦ rw known (elim (Option-cases (is_valid_session R s db)) [
      | inl valid ↦ rw valid (add_checked-IsDefined valid)
      | inr (r, refusal) ↦ rw refusal (returned-IsDefined _)
    ])
    | inr unknown ↦ rw unknown (returned-IsDefined _)
  ]
