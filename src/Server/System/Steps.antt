-- ===== src/Server/System/Steps.antt =====
-- The invariant of the server, one event at a time.
use isolation_server.Common.{
  if_both, ℕ, ◌≤◌, ◌≡◌, refl, ap, ◌==◌, ==_iff, Bool-cases, Option-cases, inl, inr, arith, some,
  List, [], ◌++◌, Bytes, length, take, to_string,
}
use isolation_server.Common.Map
use isolation_server.Common.Map.{Map, find-insert, find-erase}
use isolation_server.Redis.{Redis, Laws}
use isolation_server.Program.{Program}
use isolation_server.Server.Messages.{Externals}
use isolation_server.Server.Spec.{View, connect, disconnect}
use isolation_server.Server.Refines.Handlers.{
  Answered, handle_request_creation_account_refines, handle_request_login_refines,
  handle_request_player_data_refines, handle_request_logout_refines,
}
use isolation_server.Server.Sessions.{
  IsLinked, leave-IsLinked, connect-IsLinked, disconnect-IsLinked,
}
use isolation_server.Server.System.{
  Request, register_account, login, player_data, logout, Client, System, Event, accepted, packet,
  lost, stopped, handler, world, put, run_for, add_client, lose_client, step,
}
use isolation_server.Server.System.Connections.{
  new_client, with_client, without_client, add_client_refines, lose_client_refines,
}
use isolation_server.Server.System.Sound.{
  IsPresent, Keeps, register-Keeps, enter-Keeps, leave-Keeps, connect-Keeps, connect-IsPresent,
  disconnect-IsPresent, register_message-IsLinked, enter_message-IsLinked, IsSound, IsInside,
  Continues,
}

module _ {R : Redis} (L : Laws R) (E : Externals) (s : System R) (h : IsSound s) where
  insert-announced :
      (token : ℕ) (c : Client) (v : View)
      → Keeps h.view v
      → IsPresent v token
      → (t : ℕ) (d : Client) → Map.find t (Map.insert token c s.sockets) ≡ some d
      → IsPresent v t
  insert-announced token c v keep here t d found = elim (Bool-cases (token == t)) [
    | inl same ↦ rw (← (==_iff token t).0 same) here
    | inr other ↦ keep t (h.announced t d (ground (arith, find-insert token t c s.sockets)))
  ]

  -- A handler for a client.
  Answered-Continues :
      (token : ℕ) (c : Client) (p : Program (Unit {0})) (packets : List Bytes) (key : Bytes)
      (v : View)
      → Keeps h.view v
      → IsPresent v token
      → IsLinked v
      → Answered (world c s) p packets key v
      → Continues (run_for p token c s)
  unfolding run_for
  Answered-Continues token c p packets key v keep here linked a = (
    record {
      database = a.database;
      connected = s.connected;
      sockets =
          Map.insert token (record { login_key = key; posted = c.posted ++ packets }) s.sockets;
    },
    ap (put token s) a.runs,
    record {
      view = v;
      represents = a.represents;
      linked = linked;
      announced = insert-announced token _ v keep here;
    },
  )

  packet-Continues :
      (now token : ℕ) (request : Request) (memory : Bytes) (n : ℕ) (c : Client)
      → n ≤ length memory
      → Map.find token s.sockets ≡ some c
      → Continues (run_for (handler E now token request memory n) token c s)
  unfolding handler
  packet-Continues now token register_account memory n c inside found =
      let o = E.parse_request_register_account (take n memory) in
      Answered-Continues token c _ _ _ _ (register-Keeps E.sha256 o h.view)
        (register-Keeps E.sha256 o h.view token (h.announced token c found))
        (register_message-IsLinked E.sha256 o h.view h.linked)
        (handle_request_creation_account_refines L E (world c s) h.view h.represents memory n
          inside)
  packet-Continues now token login memory n c inside found =
      let o = E.parse_request_login (take n memory) in
      elim (Option-cases (h.view.presence token)) [
        | inl absent ↦ absurd (h.announced token c found absent)
        | inr (p, here) ↦
            Answered-Continues token c _ _ _ _ (enter-Keeps E.sha256 token o h.view)
              (enter-Keeps E.sha256 token o h.view token (h.announced token c found))
              (enter_message-IsLinked E.sha256 token o h.view h.linked)
              (handle_request_login_refines L E (world c s) h.view h.represents memory n inside now
                token p here)
      ]
  packet-Continues now token player_data memory n c inside found =
      Answered-Continues token c _ _ _ h.view (λ t k. k) (h.announced token c found) h.linked
        (handle_request_player_data_refines L E (world c s) h.view h.represents memory n inside
          token)
  packet-Continues now token logout memory n c inside found =
      let parses = E.parse_request_logout (take n memory) in
      Answered-Continues token c _ _ _ _
        (if_both parses (Keeps h.view) (leave-Keeps token h.view) (λ t k. k))
        (if_both parses (λ v. IsPresent v token)
          (leave-Keeps token h.view token (h.announced token c found)) (h.announced token c found))
        (if_both parses IsLinked (leave-IsLinked token h.view h.linked) h.linked)
        (handle_request_logout_refines L E (world c s) h.view h.represents memory n inside token)

  accepted-Continues : (now token : ℕ) → Continues (add_client now token s)
  accepted-Continues now token =
      let time = to_string now in
      let (db, e, represents) = add_client_refines L s h.view h.represents token now in
      (
        with_client L s h.view h.represents token db,
        e,
        record {
          view = connect time token h.view;
          represents = represents;
          linked = connect-IsLinked time token h.view h.linked;
          announced =
              insert-announced token new_client (connect time token h.view)
                (connect-Keeps time token h.view) (connect-IsPresent time token h.view);
        },
      )

  erase-announced :
      (token t : ℕ) (d : Client)
      → Map.find t (Map.erase token s.sockets) ≡ some d
      → IsPresent (disconnect token h.view) t
  erase-announced token t d found = elim (Bool-cases (token == t)) [
    | inl same ↦ absurd (ground (arith, find-erase token t s.sockets))
    | inr other ↦
        disconnect-IsPresent token t h.view other
          (h.announced t d (ground (arith, find-erase token t s.sockets)))
  ]

  lost-Continues :
      (token : ℕ) (c : Client)
      → Map.find token s.sockets ≡ some c
      → Continues (lose_client token c s)
  lost-Continues token c found =
      let (db, e, represents) = lose_client_refines L s h.view h.represents token c in
      (
        without_client L s h.view h.represents token db,
        e,
        record {
          view = disconnect token h.view;
          represents = represents;
          linked = disconnect-IsLinked token h.view h.linked;
          announced = erase-announced token;
        },
      )

  pub step-Continues : (e : Event) → IsInside e → Continues (step E e s)
  unfolding step
  step-Continues (accepted now token) inside = accepted-Continues now token
  step-Continues (packet now token request memory n) inside =
      elim (Option-cases (Map.find token s.sockets)) [
        | inl absent ↦ (s, rw (absent, step), h)
        | inr (c, found) ↦
            let (s', e, sound) = packet-Continues now token request memory n c inside found in
            (s', rw (found, step) e, sound)
      ]
  step-Continues (lost token) inside = elim (Option-cases (Map.find token s.sockets)) [
    | inl absent ↦ (s, rw (absent, step), h)
    | inr (c, found) ↦
        let (s', e, sound) = lost-Continues token c found in (s', rw (found, step) e, sound)
  ]
  step-Continues stopped inside = (
    record s { connected = [] },
    refl,
    record { view = h.view; represents = h.represents; linked = h.linked; announced = h.announced },
  )
