-- ===== src/TestServer/Transfer.antt =====
-- A transfer of the test server: a header with the length of all the data, and the data.
use mathlib.Core.List.{append_assoc}
use isolation_server.Common.{
  ℕ, ◌+◌, ◌-◌, ◌^◌, ◌≤◌, ◌<◌, ◌≡◌, refl, true, false, List, [], ◌∷◌, ◌++◌, map, Bytes, text,
  bytes_eq, ◌==◌, ltb, length, drop, All, arith,
}
use isolation_server.Util.{append_int_vec_char_le}
use isolation_server.Util.Words.{to_int, to_size, sub_size}
use isolation_server.Util.Packets.{read_int, read_int-append_int}
use isolation_server.TestServer.{
  Connection, Code, success, thanks, do_write, receive_rest, receive_many, receive_new, on_read,
  reads,
}

-- The first part of the data: "many", the length of all the data with this header, and a piece.
abbrev pub many : ℕ → Bytes → Bytes
many len piece = text "many" ++ append_int_vec_char_le [] len ++ piece

abbrev pub arrived : List Bytes → List (Code × Bytes)
arrived chunks = map (λ chunk. (success, chunk)) chunks

abbrev pub total : List Bytes → ℕ
total [] = 0
total (chunk ∷ chunks) = length chunk + total chunks

-- What a connection that awaits `left` bytes of `size` has done with them.
pub record IsThanked (size : ℕ) (written : List Bytes) (c : Connection) : Type 0 where
  pub awaits_none : c.remained_length ≡ 0
  pub answered : c.written ≡ written ++ thanks size ∷ []

left_over : (r n : ℕ) → r < 2 ^ 31 → n ≤ r → to_int (sub_size (to_size r) n) ≡ r - n
left_over r n h k = ground arith

-- A read of a transfer under way, at an int above 0: whether it is the last.
module _ (c : Connection) (chunk : Bytes) (below : c.remained_length < 2 ^ 31)
    (more : 0 < length chunk) where
  abbrev left : Connection
  left = record c {
    recv_buffer = chunk ++ drop (length chunk) c.recv_buffer;
    remained_length = c.remained_length - length chunk;
  }

  last_read :
      length chunk ≡ c.remained_length
      → on_read success chunk c
        ≡ (record (do_write (thanks c.all_data_size) left) { all_data_size = 0 }, true)
  unfolding on_read receive_rest do_write
  last_read fits = ground (arith, left_over c.remained_length (length chunk) below)

  next_read : length chunk < c.remained_length → on_read success chunk c ≡ (left, true)
  unfolding on_read receive_rest do_write
  next_read fits = ground (arith, left_over c.remained_length (length chunk) below)

reads-IsThanked :
    (chunks : List Bytes) (c : Connection)
    → All (λ chunk. 0 < length chunk) chunks
    → total chunks ≡ c.remained_length
    → 0 < c.remained_length
    → c.remained_length < 2 ^ 31
    → IsThanked c.all_data_size c.written (reads (arrived chunks) c)
unfolding reads do_write
reads-IsThanked [] c pieces all some_left below = absurd (omega (arith, all))
reads-IsThanked (chunk ∷ []) c pieces all some_left below =
    rw (last_read c chunk below pieces.0 (omega (arith, all)))
      (record { awaits_none = omega (arith, all); answered = refl })
reads-IsThanked (chunk ∷ next ∷ chunks) c pieces all some_left below =
    rw (next_read c chunk below pieces.0 (omega (arith, all, pieces.1.0))) (
      reads-IsThanked (next ∷ chunks) (left c chunk below pieces.0) pieces.1 (omega (arith, all))
        (omega (arith, all, pieces.1.0)) (omega arith))

length-many : (len : ℕ) (piece : Bytes) → length (many len piece) ≡ length piece + 8
unfolding append_int_vec_char_le
length-many len piece = omega arith

read_int-many :
    (len : ℕ) (piece old : Bytes) → len < 2 ^ 31 → read_int (drop 4 (many len piece ++ old)) ≡ len
read_int-many len piece old below =
    rw (append_assoc (append_int_vec_char_le [] len) piece old)
      (read_int-append_int len (piece ++ old) (omega arith))

many_left :
    (len n : ℕ)
    → n < len
    → len < 2 ^ 31
    → (ltb n (to_size len) ≡ true) × (to_int (sub_size (to_size len) n) ≡ len - n)
many_left len n short below = (ground arith, ground arith)

first_read :
    (c : Connection) (len : ℕ) (piece : Bytes)
    → c.remained_length ≡ 0
    → length piece + 8 < len
    → len < 2 ^ 31
    → on_read success (many len piece) c ≡ (
      record c {
        recv_buffer = many len piece ++ drop (length (many len piece)) c.recv_buffer;
        remained_length = len - (length piece + 8);
        all_data_size = len;
      },
      true,
    )
unfolding on_read receive_new receive_many bytes_eq
first_read c len piece idle short below =
    let old = drop (length (many len piece)) c.recv_buffer in
    let n = length-many len piece in
    let (shorter, rest) = many_left len (length piece + 8) short below in
    let some_read : ((length piece + 8) == 0) ≡ false = ground arith in
    rw (idle, read_int-many len piece old below, n, some_read, shorter, rest) refl

-- A client sends data of a length below 2 ^ 31, which its header "many" states, to a connection that
-- awaits nothing, in two or more pieces of at least one byte, the first with the header in it: after
-- the last piece, however the data is cut, the connection awaits nothing, and has answered the
-- transfer once, with the length of all the data.
pub many-IsThanked :
    (c : Connection) (len : ℕ) (piece : Bytes) (chunks : List Bytes)
    → c.remained_length ≡ 0
    → len < 2 ^ 31
    → All (λ chunk. 0 < length chunk) chunks
    → length piece + 8 < len
    → length piece + 8 + total chunks ≡ len
    → IsThanked len c.written (reads (arrived (many len piece ∷ chunks)) c)
unfolding reads
many-IsThanked c len piece chunks idle below pieces short all =
    let d : Connection = record c {
      recv_buffer = many len piece ++ drop (length (many len piece)) c.recv_buffer;
      remained_length = len - (length piece + 8);
      all_data_size = len;
    } in
    rw (first_read c len piece idle short below)
      (reads-IsThanked chunks d pieces (omega (arith, all)) (omega arith) (omega arith))
