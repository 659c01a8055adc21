-- ===== src/Tests/Sockets.antt =====
-- The theorems on src/ClientSocket.cpp, at concrete inputs.
use isolation_server.Common.{
  ℕ, ◌-◌, ◌^◌, ◌≡◌, refl, false, none, some, [], ◌∷◌, ◌++◌, text, arith, length, drop, replicate,
  length-replicate, All,
}
use isolation_server.Common.Map
use isolation_server.Util.{append_prot_packet}
use isolation_server.ClientSocket.{ClientSocket, packet, on_read, recv_buffer_size}
use isolation_server.ClientSocket.Reading.{whole_packet, on_read-whole_packet, on_read-coalesced}
use isolation_server.ClientSocket.Reading.Bounds.{
  InBuffer, on_read-InBuffer, stale_header_underflow,
}
use isolation_server.ClientSocket.Writing
use isolation_server.ClientSocket.Writing.{
  Writer, IsQuiet, at_rest, pushed, started, completed, popping, testing, steps, push_write_buffer,
  write_async, pop_front_write_buffer, is_write_buffer_queue_empty, checked, pick, release,
}
use isolation_server.ClientSocket.Writing.Races.{two_posts, late_post, overlapping_posts}
use isolation_server.ClientSocket.Writing.Order.{Run, begun, moved, unsent, sends_in_order}

-- A client with a handler, the number 100, for packets of type 3.
abbrev client : ClientSocket ℕ ℕ
client = record {
  token = 7;
  login_key = [];
  recv_buffer = replicate 4096 0;
  packet_handler = (3, 100) ∷ [];
  disconnect_handler = [];
}

on_read-whole_packet_example :
    (on_read 8 false (whole_packet 3 (text "hello")) client).1
    ≡ packet 100 (text "hello" ++ drop 17 client.recv_buffer) 5 ∷ []
unfolding Map.find
on_read-whole_packet_example =
    on_read-whole_packet 8 client 3 (text "hello") 100 (omega arith) (omega arith) refl
      (omega arith)

on_read-coalesced_example :
    (on_read 8 false (whole_packet 3 (text "hello") ++ whole_packet 3 (text "again")) client).1 ≡ []
unfolding append_prot_packet
on_read-coalesced_example =
    on_read-coalesced 8 client 3 (text "hello") (whole_packet 3 (text "again")) (omega arith)
      (omega arith) (omega arith)

on_read-InBuffer_example :
    let (c, events, more) = on_read 8 false (whole_packet 3 (text "hello")) client in
    All InBuffer events × (length c.recv_buffer ≡ recv_buffer_size)
unfolding append_prot_packet
on_read-InBuffer_example =
    on_read-InBuffer 8 client (whole_packet 3 (text "hello")) (omega arith) (omega arith)
      (length-replicate {A = ℕ} 4096 0)

stale_header_underflow_example :
    let first = on_read 8 false (append_prot_packet [] 3 4) client in
    let second = on_read 8 false (text "prot") first.0 in
    (first.1 ≡ [])
    × (second.1 ≡ packet 100 (drop 12 client.recv_buffer) (2 ^ 32 - 8) ∷ [])
    × ¬ All InBuffer second.1
unfolding Map.find
stale_header_underflow_example =
    stale_header_underflow 8 client 3 100 (omega arith) (omega arith) refl
      (length-replicate {A = ℕ} 4096 0)

abbrev idle : Writer
idle = record {
  queue = [];
  in_flight = [];
  sent = [];
  fresh = 0;
  posting = [];
  waiting = 0;
  handling = at_rest;
}

idle-IsQuiet : IsQuiet idle
idle-IsQuiet = record {
  queue = refl;
  in_flight = refl;
  posting = refl;
  waiting = refl;
  handling = refl;
}

overlapping_posts_example :
    (steps (two_posts 0 (text "a") (text "b")) idle ≡ none)
    × (u : Writer) × (steps (late_post 0 (text "a") (text "b")) idle ≡ some u)
    × (u.sent ≡ [] ++ text "a" ∷ text "b" ∷ text "b" ∷ [])
overlapping_posts_example = overlapping_posts idle (text "a") (text "b") idle-IsQuiet

-- The second message after the first has been sent and popped.
abbrev first_sent : Writer
first_sent = record {
  queue = [];
  in_flight = [];
  sent = text "a" ∷ [];
  fresh = 1;
  posting = [];
  waiting = 0;
  handling = at_rest;
}

first_sent-IsQuiet : IsQuiet first_sent
first_sent-IsQuiet = record {
  queue = refl;
  in_flight = refl;
  posting = refl;
  waiting = refl;
  handling = refl;
}

abbrev second_posted : Writer
second_posted = record first_sent {
  queue = record { address = 1; bytes = text "b" } ∷ [];
  fresh = 2;
  posting = 1 ∷ [];
}

turns : Run idle (text "a" ∷ text "b" ∷ []) second_posted
unfolding Writing.step push_write_buffer write_async pop_front_write_buffer
    is_write_buffer_queue_empty checked pick release
turns =
    moved {u = first_sent} (pushed (text "b"))
      (moved testing
        (moved popping
          (moved (completed 0 false)
            (moved (started 0) (moved (pushed (text "a")) begun idle-IsQuiet refl) tt refl) refl
            refl)
          tt refl)
        tt refl)
      first_sent-IsQuiet refl

sends_in_order_example :
    (v : Writer) × (Writing.step (started 1) second_posted ≡ some v)
    × (text "a" ∷ unsent second_posted ≡ [] ++ text "a" ∷ text "b" ∷ [])
sends_in_order_example = sends_in_order idle-IsQuiet turns (started 1)
