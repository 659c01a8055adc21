-- ===== src/ClientSocket/Reading.antt =====
-- ReadAsync: which packets reach their handlers, and with what memory.
pub mod Bounds
use isolation_server.Common.{
  ℕ, ◌+◌, ◌-◌, ◌%◌, ◌^◌, ◌≤◌, ◌<◌, ◌≡◌, ◌≢◌, refl, sym, ◌∙◌, inl, inr, Bool, true, false, List, [],
  ◌∷◌, ◌++◌, some, arith, Bytes, text, bytes_eq, bytes_eq_refl, ◌==◌, if◌then◌else◌, length, take,
  drop, length-append, length-drop, All, Bool-cases, Option-cases,
}
use mathlib.Core.List.{append_assoc, append-nil}
use isolation_server.Common.Map
use isolation_server.Util.{append_prot_packet}
use isolation_server.Util.Words.{to_int, to_size, sub_size}
use isolation_server.Util.Packets.{
  read_int, take-packet, drop-packet, read_type, read_length, length-append_prot_packet,
}
use isolation_server.ClientSocket.{
  ClientSocket, Event, packet, failed, notice, recv_buffer_size, handle_packet, receive, dispatch,
  on_read,
}

-- A packet that the server or a client builds: the header counts itself.
abbrev pub whole_packet : ℕ → Bytes → Bytes
whole_packet type payload = append_prot_packet [] type (length payload + 12) ++ payload

pub length-whole_packet :
    (type : ℕ) (payload : Bytes) → length (whole_packet type payload) ≡ length payload + 12
length-whole_packet type payload = omega (
  arith,
  length-append {0} (append_prot_packet [] type (length payload + 12)) payload,
  length-append_prot_packet [] type (length payload + 12),
)

module _ {H D : Type 0} (em : ℕ) (c : ClientSocket H D) where
  -- A read that brings bytes goes to `dispatch`, and the next read is started.
  pub on_read-dispatch :
      (chunk : Bytes)
      → 0 < length chunk
      → (on_read em false chunk c).1 ≡ dispatch em (length chunk) (receive chunk c)
  unfolding on_read
  on_read-dispatch chunk h = ground arith

  -- `dispatch` by what the header in the buffer says.
  pub dispatch_lem :
      (n type total : ℕ)
      → take 4 c.recv_buffer ≡ text "prot"
      → read_int (drop 4 c.recv_buffer) ≡ type
      → read_int (drop 8 c.recv_buffer) ≡ total
      → dispatch em n c ≡ (
          if to_size total == n
          then (handle_packet em type (drop 12 c.recv_buffer) (to_int (sub_size n 12)) c).1
          else [])
  unfolding dispatch
  dispatch_lem n type total p q r = rw (p, q, r, bytes_eq_refl (text "prot")) refl

  pub handle_packet_found :
      (type : ℕ) (memory : Bytes) (n : ℕ) (handler : H)
      → Map.find type c.packet_handler ≡ some handler
      → type ≢ em
      → (handle_packet em type memory n c).1 ≡ packet handler memory n ∷ []
  unfolding handle_packet
  handle_packet_found type memory n handler found other = rw (found, handle_packet) (ground arith)

module _ {H D : Type 0} (em : ℕ) (c : ClientSocket H D) (type len : ℕ) (rest : Bytes) where
  abbrev chunk : Bytes
  chunk = append_prot_packet [] type len ++ rest

  abbrev old : Bytes
  old = drop (length chunk) c.recv_buffer

  received : (receive chunk c).recv_buffer ≡ append_prot_packet [] type len ++ (rest ++ old)
  unfolding receive
  received = append_assoc (append_prot_packet [] type len) rest old

  length-chunk : length chunk ≡ length rest + 12
  length-chunk = omega (
    arith,
    length-append {0} (append_prot_packet [] type len) rest,
    length-append_prot_packet [] type len,
  )

  -- A read whose bytes begin with a header: what is compared, and what is handled.
  on_read-framed :
      type < 2 ^ 32
      → (on_read em false chunk c).1 ≡ (
          if to_size (len % 2 ^ 32) == length chunk
          then (handle_packet em type
              (rest ++ old)
              (to_int (sub_size (length chunk) 12))
              (receive chunk c)).1
          else [])
  on_read-framed t =
      on_read-dispatch em c chunk (omega (arith, length-chunk))
      ∙ dispatch_lem em (receive chunk c) (length chunk) type (len % 2 ^ 32)
          (rw received (take-packet type len (rest ++ old)))
          (rw received (read_type type len (rest ++ old) t))
          (rw received (read_length type len (rest ++ old)))
      ∙ rw received (rw drop-packet refl)

  pub on_read-mismatch :
      type < 2 ^ 32 → len < 2 ^ 31 → len ≢ length rest + 12 → (on_read em false chunk c).1 ≡ []
  on_read-mismatch t l other = rw (on_read-framed t) (ground (arith, length-chunk))

whole_length : (n : ℕ) → n + 12 ≤ 4096 → (to_size ((n + 12) % 2 ^ 32) == (n + 12)) ≡ true
whole_length n h = ground arith

whole_payload : (n : ℕ) → n + 12 ≤ 4096 → to_int (sub_size (n + 12) 12) ≡ n
whole_payload n h = omega arith

module _ {H D : Type 0} (em : ℕ) (c : ClientSocket H D) where
  -- A packet whose type is below 2 ^ 32 and is not EM_DISCONNECTED, which fits into the receive
  -- buffer and arrives whole in one read, reaches the handler of its type and nothing else, with
  -- the payload at the pointer and the length of the payload, whatever the buffer held before.
  pub on_read-whole_packet :
      (type : ℕ) (payload : Bytes) (handler : H)
      → type < 2 ^ 32
      → length payload + 12 ≤ recv_buffer_size
      → Map.find type c.packet_handler ≡ some handler
      → type ≢ em
      → let rest = drop (length payload + 12) c.recv_buffer in
        (on_read em false (whole_packet type payload) c).1
        ≡ packet handler (payload ++ rest) (length payload) ∷ []
  on_read-whole_packet type payload handler t fits found other =
      rw
        (
          on_read-framed em c type (length payload + 12) payload t,
          length-whole_packet type payload,
          whole_length (length payload) fits,
          whole_payload (length payload) fits,
        )
        (handle_packet_found em (receive (whole_packet type payload) c) type _ _ handler
          (unfold receive in found) other)

  -- A packet (type below 2 ^ 32, length below 2 ^ 31) that arrives in one read together with at
  -- least one byte of what follows it is lost: no handler is called.
  pub on_read-coalesced :
      (type : ℕ) (payload second : Bytes)
      → type < 2 ^ 32
      → length payload + 12 < 2 ^ 31
      → 0 < length second
      → (on_read em false (whole_packet type payload ++ second) c).1 ≡ []
  on_read-coalesced type payload second t fits more =
      rw (append_assoc (append_prot_packet [] type (length payload + 12)) payload second) (
        on_read-mismatch em c type (length payload + 12) (payload ++ second) t fits
          (λ e. omega (arith, length-append {0} payload second)))
