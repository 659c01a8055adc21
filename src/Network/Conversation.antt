-- ===== src/Network/Conversation.antt =====
-- Any conversation of clients with the server: they connect, send requests as packets that arrive
-- whole, and lose their connections, in whatever order, from the sockets of src/ClientSocket.cpp to
-- the database of src/Server.cpp and back.
use mathlib.Core.Option.{some-injective}
use isolation_server.Common.{
  if_both, ℕ, ◌≡◌, refl, sym, ◌∙◌, Bool, false, List, [], ◌∷◌, map, none, some, Bytes, All, arith,
  Option-cases, inl, inr, to_string,
}
use isolation_server.Common.Map
use isolation_server.Common.Map.{find-insert, find-erase}
use isolation_server.Redis.{Redis, Laws}
use isolation_server.Server.Messages.{Externals}
use isolation_server.Server.Spec.{Presence, View}
use isolation_server.Server.System
use isolation_server.Server.System.{
  Request, register_account, login, player_data, logout, Client, serve,
}
use isolation_server.Server.System.Connections.{
  new_client, with_client, without_client, add_client_refines, lose_client_refines,
}
use isolation_server.Server.System.Sound.{
  Keeps, register-Keeps, enter-Keeps, leave-Keeps, connect-Keeps, connect-IsPresent,
  disconnect-IsPresent,
}
use isolation_server.ClientSocket.{on_read, handle_error, receive}
use isolation_server.ClientSocket.Reading.{whole_packet, length-whole_packet}
use isolation_server.Network.{
  Socket, Network, accepted, read, step, serve_all, read_at, calls, register_handlers, new_socket,
}
use isolation_server.Network.Safety.{IsWired, IsFair, step-Continues}
use isolation_server.Network.Answers.{number, IsNumbered, answer}
use isolation_server.Network.Wire.{found-IsAnswered}
use isolation_server.Network.Hub.Changes.{insert-Shows, erase-Shows}
use isolation_server.Network.Hub.{
  Message, arrives, asks, ends, sent, Fits, Hub, react, replay, Shows,
}

answer-Keeps :
    (E : Externals) (token : ℕ) (request : Request) (payload : Bytes) (v : View)
    → Keeps v (answer E token request payload v).1
answer-Keeps E token register_account payload v =
    register-Keeps E.sha256 (E.parse_request_register_account payload) v
answer-Keeps E token login payload v = enter-Keeps E.sha256 token (E.parse_request_login payload) v
answer-Keeps E token player_data payload v = λ t h. h
answer-Keeps E token logout payload v =
    if_both (E.parse_request_logout payload) (Keeps v) (leave-Keeps token v) (λ t h. h)

module _ {R : Redis} (L : Laws R) (E : Externals) (numbered : IsNumbered E) (n : Network R)
    (hub : Hub) (h : Shows E n hub) where
  -- The network makes a step that the hub makes too.
  abbrev Follows : Message → Type 0
  Follows m = (n' : Network R) × (step E (sent E m) n ≡ some n') × Shows E n' (react E m hub)

  sent-IsFair : (m : Message) → Fits m → IsFair (sent E m)
  sent-IsFair (arrives now token memory) fits = fits
  sent-IsFair (asks now token request payload) fits =
      let size = length-whole_packet (number E request) payload in
      (omega (arith, fits, size), inr (inr (omega (arith, size))))
  sent-IsFair (ends now token ec) fits = (omega arith, inl refl)

  sent-IsWired :
      (m : Message) → Fits m → (n' : Network R) → step E (sent E m) n ≡ some n' → IsWired E n'
  sent-IsWired m fits n' runs =
      let (k, runs', wired) = step-Continues L E n h.wired (sent E m) (sent-IsFair m fits) in
      rw (some-injective _ _ (sym runs ∙ runs')) wired

  unread : (token : ℕ) → Map.find token n.system.sockets ≡ none → Map.find token n.sockets ≡ none
  unread token absent = elim (Option-cases (Map.find token n.sockets)) [
    | inl e ↦ e
    | inr (c, found) ↦
        let (client, known) = (h.wired.attached token c found).connected in
        absurd (ground (arith, known, absent))
  ]

  -- A token without a client: nothing is read of it.
  unread-step :
      (now token : ℕ) (ec : Bool) (chunk : Bytes)
      → Map.find token n.system.sockets ≡ none
      → step E (read now token ec chunk) n ≡ some n
  unfolding step
  unread-step now token ec chunk absent = rw (unread token absent, step) refl

  -- A token with a client: it is present, and its socket reads.
  present_at :
      (token : ℕ) (client : Client)
      → Map.find token n.system.sockets ≡ some client
      → (p : Presence) × (hub.view.presence token ≡ some p)
  present_at token client known = elim (Option-cases (hub.view.presence token)) [
    | inl absent ↦ absurd (h.present token client known absent)
    | inr here ↦ here
  ]

  asks-Follows :
      (now token : ℕ) (request : Request) (payload : Bytes)
      → Fits (asks now token request payload)
      → Follows (asks now token request payload)
  asks-Follows now token request payload fits =
      elim (Option-cases (Map.find token n.system.sockets)) [
        | inl absent ↦ (
          n,
          unread-step now token false (whole_packet (number E request) payload) absent,
          rw (sym (h.posted token), absent) h,
        )
        | inr (client, known) ↦
            let (c, found) = h.reads token client known in
            let (p, here) = present_at token client known in
            let a =
              found-IsAnswered L E numbered n hub.view h.represents now token c client p request
                payload found (h.wired.attached token c found).callbacks known here fits in
            let wired = sent-IsWired (asks now token request payload) fits a.network a.goes_on in
            let keeps = answer-Keeps E token request payload hub.view in
            (
              a.network,
              a.goes_on,
              rw (sym (h.posted token), known, sym a.packets)
                  (insert-Shows E n a.network hub h wired token _ a.represents a.client a.socket
                    a.posts a.reads_on keeps (keeps token (h.present token client known))),
            )
      ]

  accepted_at :
      (now token : ℕ) (memory : Bytes) (s : System.System R)
      → System.add_client now token n.system ≡ some s
      → step E (accepted now token memory) n
        ≡ some (record {
          system = s;
          sockets = Map.insert token (register_handlers E (new_socket token memory)) n.sockets;
        })
  unfolding step serve System.step
  accepted_at now token memory s runs = rw runs refl

  arrives-Follows :
      (now token : ℕ) (memory : Bytes)
      → Fits (arrives now token memory)
      → Follows (arrives now token memory)
  arrives-Follows now token memory fits =
      let (db, runs, represents) = add_client_refines L n.system hub.view h.represents token now in
      let socket = register_handlers E (new_socket token memory) in
      let n' : Network R = record {
        system = with_client L n.system hub.view h.represents token db;
        sockets = Map.insert token socket n.sockets;
      } in
      let e = accepted_at now token memory _ runs in
      let wired = sent-IsWired (arrives now token memory) fits n' e in
      let time = to_string now in
      (
        n',
        e,
        insert-Shows E n n' hub h wired token _ represents new_client socket refl refl
            (connect-Keeps time token hub.view) (connect-IsPresent time token hub.view),
      )

  ended_at :
      (now token : ℕ) (ec : Bool) (c : Socket) (client : Client) (s : System.System R)
      → Map.find token n.sockets ≡ some c
      → Map.find token n.system.sockets ≡ some client
      → c.disconnect_handler ≡ (E.em_disconnected, tt) ∷ []
      → System.lose_client token client n.system ≡ some s
      → step E (read now token ec []) n
        ≡ some (record { system = s; sockets = Map.erase token n.sockets })
  unfolding step read_at calls on_read handle_error receive serve System.step
  ended_at now token ec c client s found known losses runs = rw (found, losses, known, runs) refl

  ends-Follows : (now token : ℕ) (ec : Bool) → Follows (ends now token ec)
  ends-Follows now token ec = elim (Option-cases (Map.find token n.system.sockets)) [
    | inl absent ↦ (n, unread-step now token ec [] absent, rw (sym (h.posted token), absent) h)
    | inr (client, known) ↦
        let (c, found) = h.reads token client known in
        let (db, runs, represents) =
          lose_client_refines L n.system hub.view h.represents token client in
        let n' : Network R = record {
          system = without_client L n.system hub.view h.represents token db;
          sockets = Map.erase token n.sockets;
        } in
        let e =
          ended_at now token ec c client _ found known (h.wired.attached token c found).losses
            runs in
        let wired = sent-IsWired (ends now token ec) tt n' e in
        (
          n',
          e,
          rw (sym (h.posted token), known)
              (erase-Shows E n n' hub h wired token _ represents refl refl
                (λ t. disconnect-IsPresent token t hub.view)),
        )
  ]

  message-Follows : (m : Message) → Fits m → Follows m
  message-Follows (arrives now token memory) fits = arrives-Follows now token memory fits
  message-Follows (asks now token request payload) fits =
      asks-Follows now token request payload fits
  message-Follows (ends now token ec) fits = ends-Follows now token ec

module _ {R : Redis} (L : Laws R) (E : Externals) (numbered : IsNumbered E) where
  -- Where the message types have different numbers, and the network does as a hub: clients connect,
  -- send requests and lose their connections, in any order, each receive buffer having its size, and
  -- each packet fitting into it and arriving whole in one read. Then the server goes on through all
  -- of it, and the network that it leaves does as the hub on which the same was replayed. So its
  -- database holds the view of that hub, and every client that is connected has been posted the
  -- answers to its own requests since it connected, in their order, each by the view at its turn,
  -- and nothing else.
  pub conversation_refines :
      (ms : List Message) (n : Network R) (hub : Hub)
      → Shows E n hub
      → All Fits ms
      → (n' : Network R) × (serve_all E (map (sent E) ms) n ≡ some n')
        × Shows E n' (replay E ms hub)
  unfolding serve_all replay
  conversation_refines [] n hub h fits = (n, refl, h)
  conversation_refines (m ∷ ms) n hub h (fits, all_fit) =
      let (n', first, h') = message-Follows L E numbered n hub h m fits in
      let (n'', rest, h'') = conversation_refines ms n' (react E m hub) h' all_fit in
      (n'', rw (first, rest) refl, h'')
