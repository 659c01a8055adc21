-- ===== src/Server/System/Safety.antt =====
-- The server under any sequence of events.
use mathlib.Core.Option.{some-injective}
use isolation_server.Redis.Derived.{hget_absent}
use isolation_server.Common.{
  text, ℕ, ◌≡◌, refl, sym, ◌∙◌, Option, none, some, List, [], ◌∷◌, Bytes, All,
}
use isolation_server.Redis.{Redis, Laws}
use isolation_server.Server.Messages.{Externals}
use isolation_server.Server.Spec.{Presence}
use isolation_server.Server.Represents.{PresenceAt}
use isolation_server.Server.System.{System, Event, serve}
use isolation_server.Server.Sessions.{login_of, IsLinked-unique}
use isolation_server.Server.Keys.{client_key}
use isolation_server.Server.System.Sound.{IsSound, IsInside}
use isolation_server.Server.System.Steps.{step-Continues}

-- Whatever clients connect, send and lose their connections, in whatever order: on a system that
-- satisfies the invariant, and while every length that a handler is given stays inside the memory,
-- the server serves all the events (no handler does anything undefined, such as `*` on an empty
-- optional), and the invariant holds of the system that it leaves.
pub serve_safe :
    {R : Redis} (L : Laws R) (E : Externals) (es : List Event) (s : System R)
    → IsSound s
    → All IsInside es
    → (s' : System R) × (serve E es s ≡ some s') × IsSound s'
unfolding serve
serve_safe L E [] s h inside = (s, refl, h)
serve_safe L E (e ∷ es) s h inside =
    let (s', first, h') = step-Continues L E s h e inside.0 in
    let (s'', rest, h'') = serve_safe L E es s' h' inside.1 in (s'', rw first rest, h'')

-- What the database says of the login id of a connection, by the view that it holds.
login_id_at :
    {R : Redis} (L : Laws R) (db : R.Database) (token : ℕ) (p : Option Presence)
    → PresenceAt R db token p
    → R.hget (client_key token) (text "loginId") db ≡ login_of p
login_id_at L db token none h = hget_absent L _ _ _ h
login_id_at L db token (some p) h = h.1

-- In the database that is left by any events from a sound system, two client keys that have the same
-- login id belong to the same token.
pub no_double_login :
    {R : Redis} (L : Laws R) (E : Externals) (es : List Event) (s s' : System R) (a b : ℕ)
    (id : Bytes)
    → IsSound s
    → All IsInside es
    → serve E es s ≡ some s'
    → R.hget (client_key a) (text "loginId") s'.database ≡ some id
    → R.hget (client_key b) (text "loginId") s'.database ≡ some id
    → a ≡ b
no_double_login {R} L E es s s' a b id h inside served at_a at_b =
    let (t, ends, sound) = serve_safe L E es s h inside in
    let same : t ≡ s' = some-injective _ _ (sym ends ∙ served) in
    let there : (token : ℕ)
        → R.hget (client_key token) (text "loginId") s'.database
          ≡ login_of (sound.view.presence token) =
      λ token.
        rw (sym same) (login_id_at L t.database token _ (sound.represents.presences token)) in
    IsLinked-unique a b id sound.linked (sym (there a) ∙ at_a) (sym (there b) ∙ at_b)
