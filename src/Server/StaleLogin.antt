-- ===== src/Server/StaleLogin.antt =====
-- HandleRequestLogin for a client that is logged in already, which it does not look for.
use isolation_server.Common.{
  ℕ, ◌≡◌, ◌≢◌, ◌∙◌, arith, none, some, Bytes, text, bytes_eq_refl, bytes_eq_iff,
}
use isolation_server.Redis.{Redis, Laws}
use isolation_server.Program.{Program, World, run, run-bind, run-done, done, ◌>>=◌, ◌>>◌}
use isolation_server.Server
use isolation_server.Server.{refuse, accept, logout_client}
use isolation_server.Server.Messages.{Externals, Login, Response}
use isolation_server.Server.Spec.{Account, Presence, View, enter, log_in, leave}
use isolation_server.Server.Represents.{Represents}
use isolation_server.Server.Refines.{Refined-eq, after}
use isolation_server.Server.Refines.Login.{login_refines}
use isolation_server.Server.Refines.Logout.{logout_refines}

-- A login under a second id, a logout, and a login under the first id again.
abbrev pub switch :
    Externals → (now token : ℕ) → (second first : Login) → Program (Response × Response)
switch E now token second first = do
  entered ← Server.login E now token second
  logout_client token
  again ← Server.login E now token first
  done (entered, again)

-- An account that the password of the message opens.
abbrev pub Opens : (Bytes → Bytes) → View → Login → Type 0
Opens sha256 v m = (a : Account) × (v.account m.id ≡ some a) × (a.password_hash ≡ sha256 m.password)

module _ (sha256 : Bytes → Bytes) (token : ℕ) (v : View) where
  enter_free_id :
      (m : Login)
      → Opens sha256 v m
      → v.holder m.id ≡ none
      → enter sha256 token m v ≡ (accept, log_in token m.id v)
  unfolding enter
  enter_free_id m (a, known, fits) free =
      ground (arith, known, fits, free, bytes_eq_refl (sha256 m.password))

  enter_held_id :
      (m : Login) (holder : ℕ)
      → Opens sha256 v m
      → v.holder m.id ≡ some holder
      → enter sha256 token m v ≡ (refuse (text "loginedAlready"), v)
  unfolding enter
  enter_held_id m holder (a, known, fits) held =
      ground (arith, known, fits, held, bytes_eq_refl (sha256 m.password))

module _ (token : ℕ) (v : View) (p : Presence) (here : v.presence token ≡ some p) where
  -- After the second login and the logout: what is left of the first.
  left_behind :
      (second : Login) (id : Bytes) (holder : ℕ)
      → second.id ≢ id
      → v.holder id ≡ some holder
      → (leave token (log_in token second.id v)).holder id ≡ some holder
  unfolding leave
  left_behind second id holder other held = ground (arith, here, held, bytes_eq_iff second.id id)

  left_presence :
      (second : Login)
      → (leave token (log_in token second.id v)).presence token
        ≡ some (record p { login_id = none })
  unfolding leave
  left_presence second = ground (arith, here)

  left_account :
      (second : Login) (id : Bytes)
      → (leave token (log_in token second.id v)).account id ≡ v.account id
  unfolding leave
  left_account second id = ground (arith, here)

-- A client is logged in under one id, and logs in under another, free id: the server accepts. After
-- its logout it is nobody's session, yet the first id stays held: its own login under that id, with
-- the right password, is refused as a second login.
pub login_left_behind :
    {R : Redis} (L : Laws R) (E : Externals) (w : World R) (v : View) (now token : ℕ) (p : Presence)
    (second first : Login)
    → Represents R w.database v
    → v.presence token ≡ some p
    → p.login_id ≡ some first.id
    → v.holder first.id ≡ some token
    → v.holder second.id ≡ none
    → second.id ≢ first.id
    → Opens E.sha256 v first
    → Opens E.sha256 v second
    → (w' : World R) × (run (switch E now token second first) w
        ≡ some ((accept, refuse (text "loginedAlready")), w'))
login_left_behind L E w v now token p second first r here logged held free other opens_first
      opens_second =
    let v1 = log_in token second.id v in
    let v2 = leave token v1 in
    let entered =
      Refined-eq (enter_free_id E.sha256 token v second opens_second free)
        (login_refines L E now token second w v p here r) in
    let w1 = after w entered in
    let left = logout_refines L w1 v1 entered.represents token in
    let w2 = after w1 left in
    let (a, known, fits) = opens_first in
    let again =
      Refined-eq
        (enter_held_id E.sha256 token v2 first token
          (a, left_account token v p here second first.id ∙ known, fits)
          (left_behind token v p here second first.id token other held))
        (login_refines L E now token first w2 v2 (record p { login_id = none })
          (left_presence token v p here second) left.represents) in
    (
      after w2 again,
      run-bind (Server.login E now token second) _ w w1 _ entered.runs
          ∙ run-bind (logout_client token) _ w1 w2 _ left.runs
          ∙ run-bind (Server.login E now token first) _ w2 _ _ again.runs
          ∙ run-done _ _,
    )
