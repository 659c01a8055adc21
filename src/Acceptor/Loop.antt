-- ===== src/Acceptor/Loop.antt =====
-- The accept loop of src/Acceptor.cpp: which connections it hands on.
use mathlib.Core.List.{append_assoc, append-nil}
use isolation_server.Common.{
  ℕ, ◌≡◌, refl, sym, ◌∙◌, true, false, not, ◌&&◌, List, [], ◌∷◌, ◌++◌, Option, some, if◌then◌else◌,
  All, arith, Bool-cases, inl, inr,
}
use isolation_server.Acceptor.{
  Acceptor, Event, completed, stop_called, stop, accept, on_accept, listening, step, steps,
}

-- Neither remote_endpoint nor set_option throws.
abbrev pub IsCalm : Event → Type 0
IsCalm (completed c) = c.has_endpoint && c.has_option ≡ true
IsCalm stop_called = Unit

-- The connections up to the first error or the first call of Stop.
unfoldable pub until_end : List Event → List ℕ
until_end [] = []
until_end (completed c ∷ es) =
    let rest = until_end es in
    if c.ec then [] else c.socket ∷ (if c.stops_meanwhile then [] else rest)
until_end (stop_called ∷ es) = []

-- The steps go on, and the delegator was given these sockets.
abbrev pub Hands : Option Acceptor → List ℕ → Type 0
Hands o sockets = (a : Acceptor) × (o ≡ some a) × (a.delegated ≡ sockets)

-- An acceptor that accepts no further connection.
abbrev Ended : Acceptor → Type 0
Ended a = (not a.is_stopped && a.is_waiting) ≡ false

-- A step of one goes on, hands on nothing, and leaves one.
step-Ended :
    (e : Event) (a : Acceptor)
    → Ended a
    → (b : Acceptor) × (step e a ≡ some b) × (b.delegated ≡ a.delegated) × Ended b
unfolding step on_accept stop
step-Ended stop_called a h = (stop a, refl, ground arith, ground arith)
step-Ended (completed c) a h = elim (Bool-cases a.is_waiting) [
  | inl waiting ↦ (record a { is_waiting = false }, ground arith, refl, ground arith)
  | inr idle ↦ (a, ground arith, refl, h)
]

ended : (es : List Event) (a : Acceptor) → Ended a → Hands (steps es a) a.delegated
unfolding steps
ended [] a h = (a, refl, refl)
ended (e ∷ es) a h =
    let (b, first, same, h') = step-Ended e a h in
    let (c, rest, kept) = ended es b h' in (c, rw first rest, kept ∙ same)

-- An acceptor that accepts, and has handed on some sockets.
abbrev accepting : List ℕ → Acceptor
accepting sockets = record {
  is_stopped = false;
  is_open = true;
  is_waiting = true;
  delegated = sockets;
}

-- A step to a state, and what the steps from there hand on.
steps_on :
    (e : Event) (es : List Event) (a b : Acceptor) (sockets sockets' : List ℕ)
    → step e a ≡ some b
    → sockets ≡ sockets'
    → Hands (steps es b) sockets
    → Hands (steps (e ∷ es) a) sockets'
unfolding steps
steps_on e es a b sockets sockets' first same (c, rest, handed) = (c, rw first rest, handed ∙ same)

open_steps :
    (es : List Event) (sockets : List ℕ)
    → All IsCalm es
    → Hands (steps es (accepting sockets)) (sockets ++ until_end es)
unfolding step on_accept stop accept until_end
open_steps [] sockets calm = rw append-nil (accepting sockets, unfold steps in refl, refl)
open_steps (stop_called ∷ es) sockets calm =
    steps_on stop_called es _ (stop (accepting sockets)) sockets _ refl (sym (append-nil sockets))
      (ended es _ refl)
open_steps (completed c ∷ es) sockets calm = elim (Bool-cases c.ec) [
  | inl error ↦
      let b : Acceptor = record (accepting sockets) { is_waiting = false } in
      steps_on (completed c) es _ b sockets _ (ground arith) (rw error (sym (append-nil sockets)))
        (ended es b refl)
  | inr accepted ↦
      let more = sockets ++ c.socket ∷ [] in
      elim (Bool-cases c.stops_meanwhile) [
        | inl last ↦
            let b : Acceptor = record {
              is_stopped = true;
              is_open = false;
              is_waiting = false;
              delegated = more;
            } in
            steps_on (completed c) es _ b more _ (ground (arith, calm.0)) (rw (accepted, last) refl)
              (ended es b refl)
        | inr next ↦
            steps_on (completed c) es _ (accepting more) (more ++ until_end es) _
              (ground (arith, calm.0))
              (rw (accepted, next) (append_assoc sockets (c.socket ∷ []) (until_end es)))
              (open_steps es more calm.1)
      ]
]

-- Where neither remote_endpoint nor set_option throws, whatever completes and whenever Stop is
-- called: the accept loop goes on without an exception, and hands its delegator exactly the
-- connections up to the first accept that ends by an error or the first call of Stop, each once and
-- in their order, with the connection during whose delegation Stop is called.
pub accepts_until_end :
    (es : List Event)
    → All IsCalm es
    → (a : Acceptor) × (steps es listening ≡ some a) × (a.delegated ≡ until_end es)
unfolding listening accept
accepts_until_end es calm = open_steps es [] calm
