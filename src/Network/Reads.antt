-- ===== src/Network/Reads.antt =====
-- What a read of a socket leaves, and what its callbacks are for the server.
use isolation_server.Common.{
  map, ℕ, ◌≤◌, ◌≡◌, refl, ◌⊎◌, inl, inr, Bool, true, false, List, [], ◌∷◌, Bytes, length, All,
  Bool-cases, arith, ◌==◌,
}
use isolation_server.Common.Map
use isolation_server.Common.Map.{find-insert, find-erase}
use isolation_server.ClientSocket
use isolation_server.ClientSocket.{
  dispatch, handle_packet, set_packet_handler, set_error_handler, ClientSocket, packet, failed,
  notice, recv_buffer_size, on_read, handle_error, receive,
}
use isolation_server.ClientSocket.Reading.Bounds.{InBuffer, on_read-InBuffer, receive-length}
use isolation_server.Server.Messages.{Externals}
use isolation_server.Server.System.{Request}
use isolation_server.Server.System.Sound.{IsInside}
use isolation_server.Server.System.Connected.{Leaves}
use isolation_server.Network.{Socket, calls}

pub calls-IsInside :
    (now token : ℕ) (events : List (ClientSocket.Event Request (Unit {0})))
    → All InBuffer events
    → All IsInside (calls now token events)
unfolding calls
calls-IsInside now token [] h = tt
calls-IsInside now token (packet request memory n ∷ es) h = (h.0, calls-IsInside now token es h.1)
calls-IsInside now token (failed d ec ∷ es) h = (tt, calls-IsInside now token es h.1)
calls-IsInside now token (notice ∷ es) h = calls-IsInside now token es h.1

failures-InBuffer :
    (ec : Bool) (m : Map.Map (Unit {0}))
    → (let es : List (ClientSocket.Event Request (Unit {0})) = map (λ entry. failed entry.1 ec) m in
        All InBuffer es)
failures-InBuffer ec [] = tt
failures-InBuffer ec (d ∷ m) = (tt, failures-InBuffer ec m)

module _ (em : ℕ) (c : Socket) (full : length c.recv_buffer ≡ recv_buffer_size) where
  -- What a read leaves: events inside the buffer, and a buffer of the full size.
  abbrev pub Kept : Bool → Bytes → Type 0
  Kept ec chunk =
      All InBuffer (on_read em ec chunk c).1
      × (length (on_read em ec chunk c).0.recv_buffer ≡ recv_buffer_size)

  on_read-failed :
      (ec : Bool) (chunk : Bytes)
      → length chunk ≤ recv_buffer_size
      → (length chunk ≡ 0) ⊎ (ec ≡ true)
      → Kept ec chunk
  unfolding on_read handle_error receive
  on_read-failed ec chunk fits (inl none_read) =
      let e : (length chunk == 0) ≡ true = ground (arith, none_read) in
      rw e (failures-InBuffer ec c.disconnect_handler, receive-length em c chunk full fits)
  on_read-failed ec chunk fits (inr error) = elim (Bool-cases (length chunk == 0)) [
    | inl none_read ↦
        rw none_read
          (failures-InBuffer ec c.disconnect_handler, receive-length em c chunk full fits)
    | inr some_read ↦
        rw (some_read, error)
          (failures-InBuffer true c.disconnect_handler, receive-length em c chunk full fits)
  ]

  pub on_read-Kept :
      (ec : Bool) (chunk : Bytes)
      → length chunk ≤ recv_buffer_size
      → (length chunk ≡ 0) ⊎ (ec ≡ true) ⊎ (12 ≤ length chunk)
      → Kept ec chunk
  on_read-Kept ec chunk fits (inl none_read) = on_read-failed ec chunk fits (inl none_read)
  on_read-Kept ec chunk fits (inr (inl error)) = on_read-failed ec chunk fits (inr error)
  on_read-Kept true chunk fits (inr (inr low)) = on_read-failed true chunk fits (inr refl)
  on_read-Kept false chunk fits (inr (inr low)) = on_read-InBuffer em c chunk low fits full

module _ (E : Externals) (ec : Bool) (chunk : Bytes) (c : Socket) where
  abbrev pub after_read : Socket × List (ClientSocket.Event Request (Unit {0})) × Bool
  after_read = on_read E.em_disconnected ec chunk c

  -- A read leaves the callbacks as they are.
  pub on_read-callbacks : after_read.0.packet_handler ≡ c.packet_handler
  unfolding on_read receive
  on_read-callbacks = ground arith

  pub on_read-losses : after_read.0.disconnect_handler ≡ c.disconnect_handler
  unfolding on_read receive
  on_read-losses = ground arith

  -- What a socket that reads on calls does not end its connection.
  pub calls-Leaves :
      (now token t : ℕ) → after_read.2 ≡ true → All (Leaves t) (calls now token after_read.1)
  unfolding on_read dispatch handle_packet calls
  calls-Leaves now token t again = ground arith

-- What a socket calls does not end the connection of another.
pub calls-other :
    (now token t : ℕ) (events : List (ClientSocket.Event Request (Unit {0})))
    → (token == t) ≡ false
    → All (Leaves t) (calls now token events)
unfolding calls
calls-other now token t [] other = tt
calls-other now token t (packet request memory n ∷ es) other =
    (tt, calls-other now token t es other)
calls-other now token t (failed d ec ∷ es) other = (other, calls-other now token t es other)
calls-other now token t (notice ∷ es) other = calls-other now token t es other
