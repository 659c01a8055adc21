-- ===== src/ClientSocket.antt =====
-- src/ClientSocket.h and src/ClientSocket.cpp: one connection. A callback is a value of the
-- parameter `H` (packets) or `D` (errors); that it is called is an `Event`. The socket itself,
-- Boost.Asio, is seen through the completions that it reports: what a read brought, and the end of
-- a write. `Reading` has the proofs about ReadAsync, `Writing` models the write queue.
pub mod Reading
pub mod Writing
pub mod Tables
use isolation_server.Common.{
  ℕ, ◌+◌, ◌-◌, ◌%◌, ◌^◌, Bool, true, false, List, [], ◌∷◌, ◌++◌, map, Option, none, some, Bytes,
  text, bytes_eq, ◌==◌, if◌then◌else◌, length, take, drop,
}
use isolation_server.Common.Map
use isolation_server.Common.Map.{Map}
use isolation_server.Util.Words.{to_int, to_size, sub_size}
use isolation_server.Util.Packets.{read_int}

-- RECV_BUFFER_SIZE
abbrev pub recv_buffer_size : ℕ
recv_buffer_size = 4096

pub record ClientSocket (H D : Type 0) : Type 0 where
  pub token : ℕ
  pub login_key : Bytes
  pub recv_buffer : Bytes
  pub packet_handler : Map H
  pub disconnect_handler : Map D

-- A callback that the socket makes. `packet h memory length`: `h` with a pointer to `memory`, which
-- goes to the end of the receive buffer, and an `int`. `notice` is the line on stderr.
pub data Event (H D : Type 0) : Type 0 where
  packet : H → Bytes → ℕ → Event H D
  failed : D → Bool → Event H D
  notice : Event H D

module _ {H D : Type 0} where
  -- The constructor, with the token that the pool allocates.
  abbrev pub construct : (token : ℕ) → ClientSocket H D
  construct token = record {
    token = token;
    login_key = [];
    recv_buffer = [];
    packet_handler = [];
    disconnect_handler = [];
  }

  -- Init, before its first read: `memory` is what stands in the new receive buffer.
  abbrev pub init : Bytes → ClientSocket H D → ClientSocket H D
  init memory c = record c { recv_buffer = memory }

  unfoldable pub set_packet_handler : ℕ → H → ClientSocket H D → ClientSocket H D
  set_packet_handler type handler c = record c {
    packet_handler = Map.insert type handler c.packet_handler;
  }

  unfoldable pub set_error_handler : ℕ → D → ClientSocket H D → ClientSocket H D
  set_error_handler type handler c = record c {
    disconnect_handler = Map.insert type handler c.disconnect_handler;
  }

  unfoldable pub remove_packet_handler : ℕ → ClientSocket H D → ClientSocket H D
  remove_packet_handler type c = record c { packet_handler = Map.erase type c.packet_handler }

  unfoldable pub remove_disconnect_handler : ℕ → ClientSocket H D → ClientSocket H D
  remove_disconnect_handler type c = record c {
    disconnect_handler = Map.erase type c.disconnect_handler;
  }

  unfoldable pub clear_packet_handler : ClientSocket H D → ClientSocket H D
  clear_packet_handler c = record c { packet_handler = [] }

  unfoldable pub clear_disconnect_handler : ClientSocket H D → ClientSocket H D
  clear_disconnect_handler c = record c { disconnect_handler = [] }

  -- HandlePacket: what it returns, and the callbacks that it makes. `em_disconnected` is a value of
  -- the generated EM_Type.
  unfoldable pub handle_packet :
      (em_disconnected : ℕ) (type : ℕ) (memory : Bytes) (length : ℕ)
      → ClientSocket H D
      → Bool × List (Event H D)
  handle_packet em_disconnected type memory length c = elim (Map.find type c.packet_handler) [
    | none ↦ (false, [])
    | some handler ↦
        if type == em_disconnected
        then (true, notice ∷ [])
        else (true, packet handler memory length ∷ [])
  ]

  -- HandleError: every registered callback, in the order of the keys.
  unfoldable pub handle_error : Bool → ClientSocket H D → List (Event H D)
  handle_error ec c = map (λ entry. failed (entry.1) ec) c.disconnect_handler

  -- What async_read_some leaves in the buffer: the chunk, and the old bytes behind it.
  unfoldable pub receive : Bytes → ClientSocket H D → ClientSocket H D
  receive chunk c = record c { recv_buffer = chunk ++ drop (length chunk) c.recv_buffer }

  -- The packet branch of the completion handler of ReadAsync, at a buffer and a length.
  unfoldable pub dispatch : (em_disconnected : ℕ) (length : ℕ) → ClientSocket H D → List (Event H D)
  unfolding handle_packet
  dispatch em_disconnected length c =
      let type = read_int (drop 4 c.recv_buffer) in
      let total = read_int (drop 8 c.recv_buffer) in
      if bytes_eq (take 4 c.recv_buffer) (text "prot")
      then (if to_size total == length
          then (handle_packet em_disconnected type (drop 12 c.recv_buffer)
              (to_int (sub_size length 12)) c).1
          else [])
      else []

  -- The completion handler of ReadAsync, for an error code and the bytes that came: the socket, the
  -- callbacks, and whether the next read is started. Its inner test for length 0 is never reached.
  unfoldable pub on_read :
      (em_disconnected : ℕ) (ec : Bool) (chunk : Bytes)
      → ClientSocket H D
      → ClientSocket H D × List (Event H D) × Bool
  unfolding receive dispatch handle_error
  on_read em_disconnected ec chunk c =
      let c' = receive chunk c in
      if length chunk == 0
      then (c', handle_error ec c', false)
      else if ec
      then (c', handle_error ec c', false)
      else (c', dispatch em_disconnected (length chunk) c', true)
