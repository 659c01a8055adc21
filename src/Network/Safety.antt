-- ===== src/Network/Safety.antt =====
-- Reads of the sockets, up to the database.
use mathlib.Core.Option.{some-injective}
use isolation_server.Common.{
  ==_iff, sym, ◌∙◌, ap, ℕ, ◌≤◌, ◌≡◌, refl, ◌⊎◌, inl, inr, Bool, true, false, List, [], ◌∷◌, Option,
  some, Bytes, length, All, Option-cases, Bool-cases, if◌then◌else◌, arith, ◌==◌,
}
use isolation_server.Common.Map
use isolation_server.Common.Map.{find-insert, find-erase}
use isolation_server.Redis.{Redis, Laws}
use isolation_server.ClientSocket.{set_packet_handler, set_error_handler, recv_buffer_size}
use isolation_server.Server.Messages.{Externals}
use isolation_server.Server.System
use isolation_server.Server.System.{System, Request, serve}
use isolation_server.Server.System.Sound.{IsSound, IsInside}
use isolation_server.Server.System.Safety.{serve_safe}
use isolation_server.Server.System.Connected.{
  IsConnected, Leaves, accepted-IsConnected, serve-step, serve-IsConnected,
}
use isolation_server.Network.{
  read_at, handlers, Socket, Network, Event, accepted, read, stopped, calls, step, serve_all,
  register_handlers, new_socket, with_sockets,
}
use isolation_server.Network.Reads.{
  calls-IsInside, on_read-Kept, after_read, on_read-callbacks, on_read-losses, calls-Leaves,
  calls-other,
}

-- A read that brings nothing, ends by an error, or brings a header at least; and a buffer of its
-- full size.
abbrev pub IsFair : Event → Type 0
IsFair (accepted now token memory) = length memory ≡ recv_buffer_size
IsFair (read now token ec chunk) =
    (length chunk ≤ recv_buffer_size) × ((length chunk ≡ 0) ⊎ (ec ≡ true) ⊎ (12 ≤ length chunk))
IsFair stopped = Unit

-- A socket of the server: its buffer has its full size, it has the callbacks of AddClient for packets
-- and for the loss of the connection, and the server has its client.
pub record IsAttached {R : Redis} (E : Externals) (s : System R) (token : ℕ) (c : Socket)
    : Type 0 where
  pub full : length c.recv_buffer ≡ recv_buffer_size
  pub callbacks : c.packet_handler ≡ handlers E
  pub losses : c.disconnect_handler ≡ (E.em_disconnected, tt) ∷ []
  pub connected : IsConnected s token

-- The invariant: that of the server, and every socket is attached to it.
pub record IsWired {R : Redis} (E : Externals) (n : Network R) : Type 0 where
  pub sound : IsSound n.system
  pub attached :
      (token : ℕ) (c : Socket) → Map.find token n.sockets ≡ some c → IsAttached E n.system token c

-- The step succeeds, and leaves a wired network.
abbrev pub Continues : {R : Redis} → Externals → Option (Network R) → Type 0
Continues {R} E o = (n : Network R) × (o ≡ some n) × IsWired E n

module _ {R : Redis} (L : Laws R) (E : Externals) (n : Network R) (h : IsWired E n) where
  -- After some events, every socket of `m` is attached.
  abbrev Attached : Map.Map Socket → List System.Event → Type 0
  Attached m es =
      (s : System R)
      → serve E es n.system ≡ some s
      → (t : ℕ) (c : Socket) → Map.find t m ≡ some c
      → IsAttached E s t c

  -- A socket that was there before the events.
  before :
      (es : List System.Event) (s : System R) (t : ℕ) (c : Socket)
      → serve E es n.system ≡ some s
      → All (Leaves t) es
      → Map.find t n.sockets ≡ some c
      → IsAttached E s t c
  before es s t c runs leaves found =
      let a = h.attached t c found in
      record {
        full = a.full;
        callbacks = a.callbacks;
        losses = a.losses;
        connected = serve-IsConnected E es n.system s t leaves runs a.connected;
      }

  served :
      (m : Map.Map Socket) (es : List System.Event)
      → All IsInside es
      → Attached m es
      → Continues E (with_sockets E m (serve E es n.system))
  served m es inside attached =
      let (s, runs, sound) = serve_safe L E es n.system h.sound inside in
      (
        record { system = s; sockets = m },
        ap (with_sockets E m) runs,
        record { sound = sound; attached = attached s runs },
      )

  -- A socket that is put among the others under its token.
  insert-Attached :
      (token : ℕ) (c : Socket) (es : List System.Event) (s : System R)
      → serve E es n.system ≡ some s
      → IsAttached E s token c
      → ((t : ℕ) → (token == t) ≡ false → All (Leaves t) es)
      → (t : ℕ) (d : Socket) → Map.find t (Map.insert token c n.sockets) ≡ some d
      → IsAttached E s t d
  insert-Attached token c es s runs a leaves t d found = elim (Bool-cases (token == t)) [
    | inl same ↦
        let e : some c ≡ some d = ground (arith, find-insert token t c n.sockets, found) in
        rw (sym (some-injective _ _ e), sym ((==_iff token t).0 same)) a
    | inr other ↦
        before es s t d runs (leaves t other) (ground (arith, find-insert token t c n.sockets))
  ]

  erase-Attached :
      (token : ℕ) (es : List System.Event) (s : System R)
      → serve E es n.system ≡ some s
      → ((t : ℕ) → (token == t) ≡ false → All (Leaves t) es)
      → (t : ℕ) (d : Socket) → Map.find t (Map.erase token n.sockets) ≡ some d
      → IsAttached E s t d
  erase-Attached token es s runs leaves t d found = elim (Bool-cases (token == t)) [
    | inl same ↦ absurd (ground (arith, find-erase token t n.sockets))
    | inr other ↦
        before es s t d runs (leaves t other) (ground (arith, find-erase token t n.sockets))
  ]

  accepted-Attached :
      (now token : ℕ) (memory : Bytes)
      → length memory ≡ recv_buffer_size
      → Attached
          (Map.insert token (register_handlers E (new_socket token memory)) n.sockets)
          (System.accepted now token ∷ [])
  unfolding register_handlers new_socket set_packet_handler set_error_handler Map.insert
  accepted-Attached now token memory full s runs =
      let first = serve-step E (System.accepted now token) n.system s runs in
      insert-Attached token _ (System.accepted now token ∷ []) s runs
        (record {
          full = full;
          callbacks = refl;
          losses = refl;
          connected = accepted-IsConnected E now token n.system s first;
        })
        (λ t other. (tt, tt))

  read-Attached :
      (now token : ℕ) (ec : Bool) (chunk : Bytes) (c : Socket)
      → Map.find token n.sockets ≡ some c
      → length (after_read E ec chunk c).0.recv_buffer ≡ recv_buffer_size
      → let (c', events, again) = after_read E ec chunk c in
        Attached
          (if again then Map.insert token c' n.sockets else Map.erase token n.sockets)
          (calls now token events)
  read-Attached now token ec chunk c found full s runs =
      let (c', events, again) = after_read E ec chunk c in
      let es = calls now token events in
      let others : (t : ℕ) → (token == t) ≡ false → All (Leaves t) es =
        λ t other. calls-other now token t events other in
      elim (Bool-cases again) [
        | inl on ↦
            let a = before es s token c runs (calls-Leaves E ec chunk c now token token on) found in
            rw on (
              insert-Attached token c' es s runs
                (record {
                  full = full;
                  callbacks = on_read-callbacks E ec chunk c ∙ a.callbacks;
                  losses = on_read-losses E ec chunk c ∙ a.losses;
                  connected = a.connected;
                })
                others)
        | inr off ↦ rw off (erase-Attached token es s runs others)
      ]

  pub step-Continues : (e : Event) → IsFair e → Continues E (step E e n)
  unfolding step read_at
  step-Continues (accepted now token memory) fair =
      served _ (System.accepted now token ∷ []) (tt, tt) (accepted-Attached now token memory fair)
  step-Continues (read now token ec chunk) (fits, fair) =
      elim (Option-cases (Map.find token n.sockets)) [
        | inl absent ↦ (n, rw (absent, step) refl, h)
        | inr (c, found) ↦
            let a = h.attached token c found in
            let (inside, full) = on_read-Kept E.em_disconnected c a.full ec chunk fits fair in
            let (n', runs, wired) =
              served _ _ (calls-IsInside now token _ inside)
                (read-Attached now token ec chunk c found full) in
            (n', rw (found, step) runs, wired)
      ]
  step-Continues stopped fair =
      served n.sockets (System.stopped ∷ []) (tt, tt)
        (λ s runs t c found. before (System.stopped ∷ []) s t c runs (tt, tt) found)

-- From a network that satisfies the invariant, and while every read brings nothing, ends by an
-- error, or brings at least the twelve bytes of a header, at most as many as the buffer has: the
-- server serves whatever its clients send, in whatever order; no handler does anything undefined;
-- and the invariant holds of the network that it leaves.
pub network_safe :
    {R : Redis} (L : Laws R) (E : Externals) (es : List Event) (n : Network R)
    → IsWired E n
    → All IsFair es
    → (n' : Network R) × (serve_all E es n ≡ some n') × IsWired E n'
unfolding serve_all
network_safe L E [] n h fair = (n, refl, h)
network_safe L E (e ∷ es) n h fair =
    let (n', first, h') = step-Continues L E n h e fair.0 in
    let (n'', rest, h'') = network_safe L E es n' h' fair.1 in (n'', rw first rest, h'')
