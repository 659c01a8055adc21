-- ===== src/ClientSocket/Writing/Races.antt =====
-- What PostWrite and the completion handlers do to one another on several threads.
use isolation_server.Common.{
  ℕ, ◌+◌, ◌≡◌, ◌==◌, refl, ◌∙◌, ap, true, false, List, [], ◌∷◌, ◌++◌, Option, none, some, Bytes,
  arith,
}
use isolation_server.ClientSocket.Writing.{
  Writer, Move, Buffer, popped, nonempty, pushed, started, completed, popping, testing, restarting,
  step, steps, IsQuiet, pick, release, at_rest, checked, push_write_buffer, pop_front_write_buffer,
  is_write_buffer_queue_empty, write_async,
}
use isolation_server.ClientSocket.Writing.Order.{
  resting, posted, flying, freed, written, one, writer, quiet_shape,
}
use mathlib.Core.List.{append_assoc}

-- Two messages, one after the other, and the completion of the first write.
abbrev pub two_posts : (f : ℕ) → Bytes → Bytes → List Move
two_posts f a b =
    pushed a ∷ started f ∷ pushed b ∷ started (f + 1) ∷ completed 0 false ∷ popping ∷ []

-- The second message is pushed between the pop of the completion handler and its test.
abbrev pub late_post : (f : ℕ) → Bytes → Bytes → List Move
late_post f a b =
    pushed a
    ∷ started f
    ∷ completed 0 false
    ∷ popping
    ∷ pushed b
    ∷ testing
    ∷ restarting
    ∷ started (f + 1)
    ∷ completed 0 false
    ∷ completed 0 false
    ∷ []

follow :
    (m : Move) (ms : List Move) (w v : Writer) (o : Option Writer)
    → step m w ≡ some v
    → steps ms v ≡ o
    → steps (m ∷ ms) w ≡ o
unfolding steps
follow m ms w v o first rest = rw first rest

done : (w : Writer) → steps [] w ≡ some w
unfolding steps
done w = refl

failed : (m : Move) (ms : List Move) (w : Writer) → step m w ≡ none → steps (m ∷ ms) w ≡ none
unfolding steps
failed m ms w e = rw e refl

module _ (history : List Bytes) (f : ℕ) (a b : Bytes) where
  itself : (k : ℕ) → (k == k) ≡ true
  itself k = ground arith

  another : (f + 1 == f) ≡ false
  another = ground arith

  abbrev both : List Buffer
  both = record { address = f; bytes = a } ∷ one (f + 1) b

  starts :
      (earlier : List Bytes) (m : Bytes) (k next : ℕ)
      → step (started k) (writer (posted earlier m k next))
        ≡ some (writer (flying earlier m k next))
  unfolding step release checked write_async
  starts earlier m k next = rw (itself k, step, itself k) refl

  -- The second message while the first is being written.
  abbrev second_pushed : Writer
  second_pushed = record {
    queue = both;
    in_flight = one f a;
    sent = history;
    fresh = f + 1 + 1;
    posting = (f + 1) ∷ [];
    waiting = 0;
    handling = at_rest;
  }

  abbrev twice_under_way : Writer
  twice_under_way = record {
    queue = both;
    in_flight = one f a ++ one f a;
    sent = history;
    fresh = f + 1 + 1;
    posting = [];
    waiting = 0;
    handling = at_rest;
  }

  abbrev once_written : Writer
  once_written = record {
    queue = both;
    in_flight = one f a;
    sent = history ++ a ∷ [];
    fresh = f + 1 + 1;
    posting = [];
    waiting = 1;
    handling = at_rest;
  }

  second_started : step (started (f + 1)) second_pushed ≡ some twice_under_way
  unfolding step release checked write_async
  second_started = rw (itself (f + 1), step, itself f) refl

  pop_freed : step popping once_written ≡ none
  unfolding step checked pop_front_write_buffer
  pop_freed = rw (step, another) refl

  two_posts_freed : steps (two_posts f a b) (writer (resting history f)) ≡ none
  unfolding step push_write_buffer pick
  two_posts_freed = follow _ _ _ (writer (posted history a f (f + 1))) _ refl (
      follow _ _ _ (writer (flying history a f (f + 1))) _ (starts history a f (f + 1)) (
        follow _ _ _ second_pushed _ refl (
          follow _ _ _ twice_under_way _ second_started
            (follow _ _ _ once_written _ refl (failed _ _ once_written pop_freed)))))

  -- The second message between the pop and the test.
  abbrev late : Writer
  late = record {
    queue = one (f + 1) b;
    in_flight = [];
    sent = history ++ a ∷ [];
    fresh = f + 1 + 1;
    posting = (f + 1) ∷ [];
    waiting = 0;
    handling = popped;
  }

  abbrev restarted : Writer
  restarted = record late { in_flight = one (f + 1) b; handling = at_rest }

  abbrev both_started : Writer
  both_started = record late {
    in_flight = one (f + 1) b ++ one (f + 1) b;
    posting = [];
    handling = at_rest;
  }

  abbrev twice_written : Writer
  twice_written = record late {
    sent = ((history ++ a ∷ []) ++ b ∷ []) ++ b ∷ [];
    posting = [];
    waiting = 2;
    handling = at_rest;
  }

  late_started : step (started (f + 1)) restarted ≡ some both_started
  unfolding step release checked write_async
  late_started = rw (itself (f + 1), step, itself (f + 1)) refl

  late_post_twice : steps (late_post f a b) (writer (resting history f)) ≡ some twice_written
  unfolding step push_write_buffer pick checked pop_front_write_buffer write_async
      is_write_buffer_queue_empty
  late_post_twice = follow _ _ _ (writer (posted history a f (f + 1))) _ refl (
      follow _ _ _ (writer (flying history a f (f + 1))) _ (starts history a f (f + 1)) (
        follow _ _ _ (writer (written history a f (f + 1))) _ refl (
          follow _ _ _ (writer (freed (history ++ a ∷ []) (f + 1))) _ refl (
            follow _ _ _ late _ refl (
              follow _ _ _ (record late { handling = nonempty }) _ refl
                (follow _ _ _ restarted _ refl (
                  follow _ _ _ both_started _ late_started (
                    follow _ _ _
                      (record both_started {
                        in_flight = one (f + 1) b;
                        waiting = 1;
                        sent = (history ++ a ∷ []) ++ b ∷ [];
                      })
                      _ refl (follow _ _ _ twice_written _ refl (done twice_written))))))))))

-- Two faults of PostWrite, on a connection where nothing is queued or under way, for any two messages.
-- If the second is posted while the first is being written, the second call starts another write of
-- the first message, and the completion of the first write pops and frees the buffer that the other
-- write still reads. If the second is pushed when the completion handler of the first has popped the
-- queue, which is empty then, and has not tested it yet, both the handler and PostWrite start a write
-- of it, and it is sent twice.
pub overlapping_posts :
    (w : Writer) (a b : Bytes)
    → IsQuiet w
    → (steps (two_posts w.fresh a b) w ≡ none)
      × (u : Writer) × (steps (late_post w.fresh a b) w ≡ some u)
      × (u.sent ≡ w.sent ++ a ∷ b ∷ b ∷ [])
overlapping_posts w a b quiet =
    let shape = quiet_shape w quiet in
    (
      ap (steps (two_posts w.fresh a b)) shape ∙ two_posts_freed w.sent w.fresh a b,
      twice_written w.sent w.fresh a b,
      ap (steps (late_post w.fresh a b)) shape ∙ late_post_twice w.sent w.fresh a b,
      append_assoc (w.sent ++ a ∷ []) (b ∷ []) (b ∷ []) ∙ append_assoc w.sent (a ∷ []) (b ∷ b ∷ []),
    )
