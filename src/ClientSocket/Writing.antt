-- ===== src/ClientSocket/Writing.antt =====
-- The write queue of src/ClientSocket.cpp, which several threads share: PostWrite, WriteAsync and the
-- completion handler of async_write. A move is what a thread does between taking the mutex of the
-- queue and giving it back; PostWrite is two moves, the completion handler up to three. The handlers
-- run on a strand, one at a time.
pub mod Stall
pub mod Order
pub mod Races
use isolation_server.Common.{
  ℕ, zero, suc, ◌+◌, ◌==◌, ◌≡◌, Bool, true, false, List, [], ◌∷◌, ◌++◌, Option, none, some, Bytes,
  if◌then◌else◌,
}

-- A buffer that PostWrite has allocated, with its address.
pub record Buffer : Type 0 where
  pub address : ℕ
  pub bytes : Bytes

-- Where the completion handler on the strand is: nowhere, between PopFrontWriteBuffer and
-- IsWriteBufferQueueEmpty, or between this, which was false, and WriteAsync.
pub data Handling : Type 0 where
  at_rest popped nonempty : Handling

-- `in_flight`: the writes that Boost.Asio has not completed. `sent`: the bytes of those that it has
-- completed without an error, in that order. `fresh`: the next address. `posting`: the buffers of the
-- calls of PostWrite that have pushed them and have not returned. `waiting`: the completion handlers,
-- without an error, that wait for the strand.
pub record Writer : Type 0 where
  pub queue : List Buffer
  pub in_flight : List Buffer
  pub sent : List Bytes
  pub fresh : ℕ
  pub posting : List ℕ
  pub waiting : ℕ
  pub handling : Handling

-- The push of PostWrite.
unfoldable pub push_write_buffer : Bytes → Writer → Writer
push_write_buffer data' w = record w {
  queue = w.queue ++ record { address = w.fresh; bytes = data' } ∷ [];
  fresh = w.fresh + 1;
  posting = w.fresh ∷ w.posting;
}

-- An empty buffer if there is none.
unfoldable pub get_front_write_buffer : Writer → Bytes
get_front_write_buffer w = elim w.queue [ [] ↦ [] | buffer ∷ rest ↦ buffer.bytes ]

unfoldable pub pop_front_write_buffer : Writer → Writer
pop_front_write_buffer w = record w { queue = elim w.queue [ [] ↦ [] | buffer ∷ rest ↦ rest ] }

unfoldable pub is_write_buffer_queue_empty : Writer → Bool
is_write_buffer_queue_empty w = elim w.queue [ [] ↦ true | buffer ∷ rest ↦ false ]

-- WriteAsync: starts a write of the front buffer, which stays in the queue.
unfoldable pub write_async : Writer → Writer
write_async w = elim w.queue [
  | [] ↦ w
  | buffer ∷ rest ↦ record w { in_flight = w.in_flight ++ buffer ∷ [] }
]

-- Only the queue and a call of PostWrite that has not returned hold a buffer; the write has a pointer
-- to its bytes.
abbrev pub held : ℕ → List ℕ → Bool
held a [] = false
held a (b ∷ bs) = if b == a then true else held a bs

abbrev pub queued : ℕ → List Buffer → Bool
queued a [] = false
queued a (b ∷ bs) = if b.address == a then true else queued a bs

-- A write under way reads a buffer that was freed.
abbrev pub dangles : List Buffer → Writer → Bool
dangles [] w = false
dangles (b ∷ bs) w =
    let rest = dangles bs w in
    if queued b.address w.queue then rest else (if held b.address w.posting then rest else true)

-- It is undefined.
unfoldable pub checked : Writer → Option Writer
checked w = if dangles w.in_flight w then none else some w

unfoldable pub pick {ℓ} : {A : Type ℓ} → ℕ → List A → Option (A × List A)
pick i [] = none
pick zero (x ∷ xs) = some (x, xs)
pick (suc i) (x ∷ xs) = elim (pick i xs) [ none ↦ none | some (y, ys) ↦ some (y, x ∷ ys) ]

unfoldable pub release : ℕ → List ℕ → Option (List ℕ)
release a [] = none
release a (b ∷ bs) =
    let rest = release a bs in
    if b == a then some bs else elim rest [ none ↦ none | some cs ↦ some (b ∷ cs) ]

-- `started a`: WriteAsync and the return of the call of PostWrite whose buffer is at `a`.
-- `completed i ec`: the write `i` of those under way is completed.
pub data Move : Type 0 where
  pushed : Bytes → Move
  started : (address : ℕ) → Move
  completed : (i : ℕ) → (ec : Bool) → Move
  popping testing restarting : Move

-- The completion of a write; with an error its handler does nothing.
abbrev pub complete : Bool → Option (Buffer × List Buffer) → Writer → Writer
complete ec none w = w
complete true (some (b, rest)) w = record w { in_flight = rest }
complete false (some (b, rest)) w = record w {
  in_flight = rest;
  sent = w.sent ++ b.bytes ∷ [];
  waiting = w.waiting + 1;
}

abbrev pub return_post : Option (List ℕ) → Writer → Option Writer
return_post none w = some w
return_post (some rest) w = checked (record (write_async w) { posting = rest })

abbrev pub pop_waiting : ℕ → Writer → Option Writer
pop_waiting zero w = some w
pop_waiting (suc n) w =
    checked (record (pop_front_write_buffer w) { waiting = n; handling = popped })

abbrev pub pop_at : Handling → Writer → Option Writer
pop_at at_rest w = pop_waiting w.waiting w
pop_at popped w = some w
pop_at nonempty w = some w

abbrev pub test_at : Handling → Writer → Writer
test_at at_rest w = w
test_at popped w = record w {
  handling = if is_write_buffer_queue_empty w then at_rest else nonempty;
}
test_at nonempty w = w

abbrev pub restart_at : Handling → Writer → Writer
restart_at at_rest w = w
restart_at popped w = w
restart_at nonempty w = record (write_async w) { handling = at_rest }

-- The completion handler of WriteAsync, move by move, and PostWrite; a move that is not due does
-- nothing.
unfoldable pub step : Move → Writer → Option Writer
unfolding push_write_buffer pop_front_write_buffer is_write_buffer_queue_empty write_async checked
step (pushed data') w = some (push_write_buffer data' w)
step (started a) w = return_post (release a w.posting) w
step (completed i ec) w = some (complete ec (pick i w.in_flight) w)
step popping w = pop_at w.handling w
step testing w = some (test_at w.handling w)
step restarting w = some (restart_at w.handling w)

abbrev pub and_then : (Writer → Option Writer) → Option Writer → Option Writer
and_then f none = none
and_then f (some w) = f w

unfoldable pub steps : List Move → Writer → Option Writer
steps [] w = some w
steps (m ∷ ms) w = and_then (steps ms) (step m w)

-- Nothing is queued or under way.
pub record IsQuiet (w : Writer) : Type 0 where
  pub queue : w.queue ≡ []
  pub in_flight : w.in_flight ≡ []
  pub posting : w.posting ≡ []
  pub waiting : w.waiting ≡ 0
  pub handling : w.handling ≡ at_rest

-- The writes succeed.
abbrev pub Succeeds : Move → Type 0
Succeeds (completed i ec) = ec ≡ false
Succeeds _ = Unit
