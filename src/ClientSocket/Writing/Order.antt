-- ===== src/ClientSocket/Writing/Order.antt =====
-- What the peer receives while PostWrite is called only when nothing is queued or under way.
use mathlib.Core.List.{append_assoc, append-nil}
use mathlib.Core.Option.{some-injective}
use isolation_server.Common.{
  ℕ, zero, suc, ◌+◌, ◌≡◌, refl, sym, ◌∙◌, true, false, List, [], ◌∷◌, ◌++◌, some, map, Bytes, ◌==◌,
  arith, Bool-cases, inl, inr,
}
use isolation_server.ClientSocket.Writing.{
  Buffer, Writer, Handling, at_rest, popped, nonempty, Move, pushed, started, completed, popping,
  testing, restarting, step, IsQuiet, Succeeds, pick, release, checked, complete,
}

-- A push is made when nothing is queued or under way, and the writes succeed.
abbrev pub IsCalm : Move → Writer → Type 0
IsCalm (pushed data') w = IsQuiet w
IsCalm (completed i ec) w = ec ≡ false
IsCalm _ w = Unit

abbrev pub messages_of : Move → List Bytes
messages_of (pushed data') = data' ∷ []
messages_of _ = []

-- A run of calm moves, with the messages given to PostWrite.
pub data Run (w : Writer) : List Bytes → Writer → Type 0 where
  begun : Run w [] w
  moved :
      {messages : List Bytes} {u v : Writer} (m : Move)
      → Run w messages u
      → IsCalm m u
      → step m u ≡ some v
      → Run w (messages ++ messages_of m) v

-- The writer in such a run: quiet, or with one buffer, which was pushed, is being written, is written,
-- or has just been popped; `f` is the next address.
pub data Shape : Type 0 where
  resting : (history : List Bytes) (f : ℕ) → Shape
  posted : (earlier : List Bytes) (m : Bytes) (a f : ℕ) → Shape
  flying : (earlier : List Bytes) (m : Bytes) (a f : ℕ) → Shape
  written : (earlier : List Bytes) (m : Bytes) (a f : ℕ) → Shape
  freed : (history : List Bytes) (f : ℕ) → Shape

abbrev pub one : ℕ → Bytes → List Buffer
one a m = record { address = a; bytes = m } ∷ []

abbrev pub writer : Shape → Writer
writer (resting history f) = record {
  queue = [];
  in_flight = [];
  sent = history;
  fresh = f;
  posting = [];
  waiting = 0;
  handling = at_rest;
}
writer (posted earlier m a f) = record {
  queue = one a m;
  in_flight = [];
  sent = earlier;
  fresh = f;
  posting = a ∷ [];
  waiting = 0;
  handling = at_rest;
}
writer (flying earlier m a f) = record {
  queue = one a m;
  in_flight = one a m;
  sent = earlier;
  fresh = f;
  posting = [];
  waiting = 0;
  handling = at_rest;
}
writer (written earlier m a f) = record {
  queue = one a m;
  in_flight = [];
  sent = earlier ++ m ∷ [];
  fresh = f;
  posting = [];
  waiting = 1;
  handling = at_rest;
}
writer (freed history f) = record {
  queue = [];
  in_flight = [];
  sent = history;
  fresh = f;
  posting = [];
  waiting = 0;
  handling = popped;
}

abbrev history_of : Shape → List Bytes
history_of (resting history f) = history
history_of (posted earlier m a f) = earlier ++ m ∷ []
history_of (flying earlier m a f) = earlier ++ m ∷ []
history_of (written earlier m a f) = earlier ++ m ∷ []
history_of (freed history f) = history

-- A calm move goes from shape to shape.
abbrev Goes : Move → Shape → Type 0
Goes m x =
    (y : Shape) × (step m (writer x) ≡ some (writer y))
    × (history_of y ≡ history_of x ++ messages_of m)

started-Goes : (a : ℕ) (x : Shape) → Goes (started a) x
unfolding step release checked isolation_server.ClientSocket.Writing.write_async
started-Goes a (resting history f) = (resting history f, refl, sym (append-nil _))
started-Goes a (posted earlier m b f) = elim (Bool-cases (b == a)) [
  | inl same ↦
      let itself : (b == b) ≡ true = ground arith in
      (flying earlier m b f, rw (same, step, itself) refl, sym (append-nil _))
  | inr other ↦ (posted earlier m b f, rw (other, step) refl, sym (append-nil _))
]
started-Goes a (flying earlier m b f) = (flying earlier m b f, refl, sym (append-nil _))
started-Goes a (written earlier m b f) = (written earlier m b f, refl, sym (append-nil _))
started-Goes a (freed history f) = (freed history f, refl, sym (append-nil _))

completed-Goes : (i : ℕ) (x : Shape) → Goes (completed i false) x
unfolding step pick
completed-Goes i (resting history f) = (resting history f, refl, sym (append-nil _))
completed-Goes i (posted earlier m b f) = (posted earlier m b f, refl, sym (append-nil _))
completed-Goes zero (flying earlier m b f) = (written earlier m b f, refl, sym (append-nil _))
completed-Goes (suc i) (flying earlier m b f) = (flying earlier m b f, refl, sym (append-nil _))
completed-Goes i (written earlier m b f) = (written earlier m b f, refl, sym (append-nil _))
completed-Goes i (freed history f) = (freed history f, refl, sym (append-nil _))

popping-Goes : (x : Shape) → Goes popping x
unfolding step checked
popping-Goes (written earlier m b f) = (freed (earlier ++ m ∷ []) f, refl, sym (append-nil _))
popping-Goes (resting history f) = (resting history f, refl, sym (append-nil _))
popping-Goes (posted earlier m b f) = (posted earlier m b f, refl, sym (append-nil _))
popping-Goes (flying earlier m b f) = (flying earlier m b f, refl, sym (append-nil _))
popping-Goes (freed history f) = (freed history f, refl, sym (append-nil _))

testing-Goes : (x : Shape) → Goes testing x
unfolding step
testing-Goes (freed history f) = (resting history f, refl, sym (append-nil _))
testing-Goes (resting history f) = (resting history f, refl, sym (append-nil _))
testing-Goes (posted earlier m b f) = (posted earlier m b f, refl, sym (append-nil _))
testing-Goes (flying earlier m b f) = (flying earlier m b f, refl, sym (append-nil _))
testing-Goes (written earlier m b f) = (written earlier m b f, refl, sym (append-nil _))

restarting-Goes : (x : Shape) → Goes restarting x
unfolding step
restarting-Goes (freed history f) = (freed history f, refl, sym (append-nil _))
restarting-Goes (resting history f) = (resting history f, refl, sym (append-nil _))
restarting-Goes (posted earlier m b f) = (posted earlier m b f, refl, sym (append-nil _))
restarting-Goes (flying earlier m b f) = (flying earlier m b f, refl, sym (append-nil _))
restarting-Goes (written earlier m b f) = (written earlier m b f, refl, sym (append-nil _))

pushed-Goes : (m : Bytes) (x : Shape) → IsQuiet (writer x) → Goes (pushed m) x
unfolding step
pushed-Goes m (resting history f) quiet = (posted history m f (f + 1), refl, refl)
pushed-Goes m (posted earlier n b f) quiet = absurd (ground (arith, quiet.queue))
pushed-Goes m (flying earlier n b f) quiet = absurd (ground (arith, quiet.queue))
pushed-Goes m (written earlier n b f) quiet = absurd (ground (arith, quiet.queue))
pushed-Goes m (freed history f) quiet = absurd (ground (arith, quiet.handling))

move-Goes : (m : Move) (x : Shape) → IsCalm m (writer x) → Goes m x
move-Goes (pushed m) x calm = pushed-Goes m x calm
move-Goes (started a) x calm = started-Goes a x
move-Goes (completed i ec) x calm = rw calm (completed-Goes i x)
move-Goes popping x calm = popping-Goes x
move-Goes testing x calm = testing-Goes x
move-Goes restarting x calm = restarting-Goes x

-- Every move has a result.
move_defined : (m : Move) (x : Shape) → (v : Writer) × (step m (writer x) ≡ some v)
unfolding step
move_defined (pushed m) x = (_, refl)
move_defined (completed i ec) x = (_, refl)
move_defined (started a) x = let (y, e, h) = started-Goes a x in (writer y, e)
move_defined popping x = let (y, e, h) = popping-Goes x in (writer y, e)
move_defined testing x = (_, refl)
move_defined restarting x = (_, refl)

pub quiet_shape : (w : Writer) → IsQuiet w → w ≡ writer (resting w.sent w.fresh)
quiet_shape w quiet = λ j. record {
  queue = quiet.queue j;
  in_flight = quiet.in_flight j;
  sent = w.sent;
  fresh = w.fresh;
  posting = quiet.posting j;
  waiting = quiet.waiting j;
  handling = quiet.handling j;
}

Run-shape :
    {w u : Writer} {messages : List Bytes}
    → IsQuiet w
    → Run w messages u
    → (x : Shape) × (u ≡ writer x) × (history_of x ≡ w.sent ++ messages)
Run-shape {w} quiet begun = (resting w.sent w.fresh, quiet_shape w quiet, sym (append-nil w.sent))
Run-shape {w} quiet (moved {messages} {u} {v} m run calm e) =
    let (x, same, history) = Run-shape quiet run in
    let (y, goes, longer) = move-Goes m x (rw (sym same) calm) in
    let next : some v ≡ some (writer y) = sym e ∙ rw same goes in
    (y, some-injective _ _ next, longer ∙ rw history (append_assoc w.sent messages (messages_of m)))

abbrev pub behind : ℕ → List Buffer → List Buffer
behind zero bs = bs
behind (suc n) [] = []
behind (suc n) (b ∷ bs) = behind n bs

-- What is queued and not written yet.
abbrev pub unsent : Writer → List Bytes
unsent w = map (λ b. b.bytes) (behind w.waiting w.queue)

shape_sent : (x : Shape) → (writer x).sent ++ unsent (writer x) ≡ history_of x
shape_sent (resting history f) = append-nil history
shape_sent (posted earlier m b f) = refl
shape_sent (flying earlier m b f) = refl
shape_sent (written earlier m b f) = append-nil _
shape_sent (freed history f) = append-nil history

-- On a connection where nothing was queued or under way and whose writes succeed, while PostWrite is
-- called only when nothing is queued or under way: no move of any thread frees a buffer that a write
-- still reads, and what was sent and then what is queued and not written yet are the messages in
-- order, once each.
pub sends_in_order :
    {w u : Writer} {messages : List Bytes}
    → IsQuiet w
    → Run w messages u
    → (m : Move) → (v : Writer) × (step m u ≡ some v) × (u.sent ++ unsent u ≡ w.sent ++ messages)
sends_in_order quiet run m =
    let (x, same, history) = Run-shape quiet run in
    let (v, e) = move_defined m x in (v, rw same e, rw same (shape_sent x ∙ history))
