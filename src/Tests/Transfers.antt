-- ===== src/Tests/Transfers.antt =====
-- The theorem on the transfers of the test server, and two of its other branches.
use isolation_server.Common.{
  ℕ, ◌+◌, ◌≡◌, refl, true, [], ◌∷◌, ◌++◌, Bytes, text, some, none, replicate, arith,
}
use isolation_server.Util.{append_int_vec_char_le}
use isolation_server.TestServer.{Connection, reads, async_write_notify}
use isolation_server.TestServer.Transfer.{many, arrived, IsThanked, many-IsThanked}

abbrev connection : Connection
connection = record {
  is_open = true;
  recv_buffer = replicate 4096 0;
  remained_length = 0;
  all_data_size = 0;
  written = [];
}

many-IsThanked_example :
    IsThanked 20 []
      (reads (arrived (many 20 (text "abc") ∷ text "def" ∷ text "ghijkl" ∷ [])) connection)
many-IsThanked_example =
    many-IsThanked connection 20 (text "abc") (text "def" ∷ text "ghijkl" ∷ []) refl (omega arith)
      (omega arith, (omega arith, tt)) (omega arith) refl

-- All the data in one read is not answered.
in_one_read : (reads (arrived (many 11 (text "abc") ∷ [])) connection).written ≡ []
unfolding reads isolation_server.Util.Packets.read_int isolation_server.Common.bytes_eq
    append_int_vec_char_le
in_one_read = refl

-- A message longer than the buffer is written past its end.
long_message : async_write_notify (replicate 1025 65) connection ≡ none
unfolding async_write_notify
long_message = refl
