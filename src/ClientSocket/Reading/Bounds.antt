-- ===== src/ClientSocket/Reading/Bounds.antt =====
-- ReadAsync: the pointers and the lengths that its handlers are given.
use isolation_server.Common.{
  ℕ, ◌-◌, ◌^◌, ◌≤◌, ◌<◌, ◌≡◌, ◌≢◌, refl, sym, ◌∙◌, inl, inr, Bool, true, false, List, [], ◌∷◌, ◌++◌,
  some, arith, Bytes, text, bytes_eq, ◌==◌, if◌then◌else◌, length, take, drop, length-append,
  length-drop, All, Bool-cases, Option-cases,
}
use mathlib.Core.List.{append-nil}
use isolation_server.Common.Map
use isolation_server.Util.{append_prot_packet}
use isolation_server.Util.Words.{to_int, to_size, sub_size}
use isolation_server.Util.Packets.{read_int, take-packet, drop-packet, read_type, read_length}
use isolation_server.ClientSocket.{
  ClientSocket, Event, packet, failed, notice, recv_buffer_size, handle_packet, receive, dispatch,
  on_read,
}
use isolation_server.ClientSocket.Reading.{
  on_read-dispatch, dispatch_lem, handle_packet_found, on_read-mismatch,
}

-- Pointer and length of a packet event stay inside the receive buffer.
abbrev pub InBuffer : {H D : Type 0} → Event H D → Type 0
InBuffer (packet h memory n) = n ≤ length memory
InBuffer (failed d ec) = Unit
InBuffer notice = Unit

All-if :
    {H D : Type 0} (b : Bool) (xs : List (Event H D))
    → All InBuffer xs
    → All InBuffer (if b then xs else [])
All-if true xs h = h
All-if false xs h = tt

module _ {H D : Type 0} (em : ℕ) (c : ClientSocket H D) where
  pub receive-length :
      (chunk : Bytes)
      → length c.recv_buffer ≡ recv_buffer_size
      → length chunk ≤ recv_buffer_size
      → length (receive chunk c).recv_buffer ≡ recv_buffer_size
  unfolding receive
  receive-length chunk full fits = omega (
    arith,
    length-append {0} chunk (drop (length chunk) c.recv_buffer),
    length-drop {0} (length chunk) c.recv_buffer,
  )

  handle_packet-InBuffer :
      (type n : ℕ) (memory : Bytes)
      → n ≤ length memory
      → All InBuffer (handle_packet em type memory n c).1
  unfolding handle_packet
  handle_packet-InBuffer type n memory h = elim (Option-cases (Map.find type c.packet_handler)) [
    | inl absent ↦ rw (absent, handle_packet) tt
    | inr (handler, found) ↦ elim (Bool-cases (type == em)) [
      | inl closed ↦ rw (found, handle_packet, closed) (tt, tt)
      | inr open' ↦ rw (found, handle_packet, open') (h, tt)
    ]
  ]

  dispatch-InBuffer :
      (n : ℕ)
      → 12 ≤ n
      → n ≤ recv_buffer_size
      → length c.recv_buffer ≡ recv_buffer_size
      → All InBuffer (dispatch em n c)
  unfolding dispatch
  dispatch-InBuffer n low high full = All-if (bytes_eq (take 4 c.recv_buffer) (text "prot")) _ (
      All-if (to_size (read_int (drop 8 c.recv_buffer)) == n) _ (
        handle_packet-InBuffer _ (to_int (sub_size n 12)) (drop 12 c.recv_buffer)
          (omega (arith, length-drop {0} 12 c.recv_buffer))))

module _ {H D : Type 0} (em : ℕ) (c : ClientSocket H D) where
  on_read-receive : (chunk : Bytes) → (on_read em false chunk c).0 ≡ receive chunk c
  unfolding on_read
  on_read-receive chunk = ground arith

  stale_buffer :
      (type : ℕ)
      → (receive (text "prot") (receive (append_prot_packet [] type 4) c)).recv_buffer
        ≡ append_prot_packet [] type 4 ++ drop 12 c.recv_buffer
  unfolding receive append_prot_packet
  stale_buffer type = refl

  stale_first :
      (type : ℕ) → type < 2 ^ 32 → (on_read em false (append_prot_packet [] type 4) c).1 ≡ []
  stale_first type t =
      rw (sym (append-nil (append_prot_packet [] type 4)))
        (on_read-mismatch em c type 4 [] t (omega arith) (λ e. omega arith))

  stale_second :
      (type : ℕ) (handler : H)
      → type < 2 ^ 32
      → type ≢ em
      → Map.find type c.packet_handler ≡ some handler
      → (on_read em false (text "prot") (receive (append_prot_packet [] type 4) c)).1
        ≡ packet handler (drop 12 c.recv_buffer) (2 ^ 32 - 8) ∷ []
  stale_second type handler t other found =
      let first = receive (append_prot_packet [] type 4) c in
      let old = drop 12 c.recv_buffer in
      on_read-dispatch em first (text "prot") (omega arith)
      ∙ dispatch_lem em (receive (text "prot") first) 4 type 4
          (rw (stale_buffer type) (take-packet type 4 old))
          (rw (stale_buffer type) (read_type type 4 old t))
          (rw (stale_buffer type) (read_length type 4 old))
      ∙ simp (stale_buffer type, drop-packet type 4 old)
          (handle_packet_found em (receive (text "prot") first) type old (2 ^ 32 - 8) handler
            (unfold receive in found) other)

  -- A read without an error of at least a header's length, into a buffer of its full size, gives
  -- every handler a pointer and a length that stay inside the buffer, and leaves the buffer at
  -- its full size.
  pub on_read-InBuffer :
      (chunk : Bytes)
      → 12 ≤ length chunk
      → length chunk ≤ recv_buffer_size
      → length c.recv_buffer ≡ recv_buffer_size
      → All InBuffer (on_read em false chunk c).1
        × (length (on_read em false chunk c).0.recv_buffer ≡ recv_buffer_size)
  on_read-InBuffer chunk low high full = (
    rw (on_read-dispatch em c chunk (omega arith)) (
        dispatch-InBuffer em (receive chunk c) (length chunk) low high
          (receive-length em c chunk full high)),
    rw (on_read-receive chunk) (receive-length em c chunk full high),
  )

  -- Where a packet type has a handler and is not EM_DISCONNECTED: a client sends a header of
  -- that type whose length field says 4, and then the four bytes "prot" alone. The first read
  -- calls nothing. The second is compared with the length that the first one left in the buffer,
  -- and calls the handler with the length -8, which does not stay inside the buffer.
  pub stale_header_underflow :
      (type : ℕ) (handler : H)
      → type < 2 ^ 32
      → type ≢ em
      → Map.find type c.packet_handler ≡ some handler
      → length c.recv_buffer ≡ recv_buffer_size
      → let first = on_read em false (append_prot_packet [] type 4) c in
        let second = on_read em false (text "prot") first.0 in
        (first.1 ≡ [])
        × (second.1 ≡ packet handler (drop 12 c.recv_buffer) (2 ^ 32 - 8) ∷ [])
        × ¬ All InBuffer second.1
  stale_header_underflow type handler t other found full =
      rw (on_read-receive (append_prot_packet [] type 4)) (
        stale_first type t,
        stale_second type handler t other found,
        rw (stale_second type handler t other found)
            (λ h. omega (arith, h.0, length-drop {0} 12 c.recv_buffer)),
      )
