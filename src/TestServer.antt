-- ===== src/TestServer.antt =====
-- deprecated/TestAsyncServer.cpp: the server for trying transfers of much data. A connection (its class
-- Session) is what its callbacks change; an `int` is its bit pattern below 2 ^ 32. `written` has what
-- do_write was called with; the log and the write under way are left out.
pub mod Transfer
pub mod Listener
use isolation_server.Common.{
  ℕ, ◌+◌, ◌-◌, ◌^◌, Bool, true, false, ◌&&◌, List, [], ◌∷◌, ◌++◌, Option, none, some, Bytes, text,
  to_string, bytes_eq, ◌==◌, ltb, if◌then◌else◌, length, take, drop,
}
use isolation_server.Util.Words.{to_int, to_size, sub_size}
use isolation_server.Util.Packets.{read_int}

-- RecvBufSize
abbrev pub send_max_length : ℕ
send_max_length = 1024

pub record Connection : Type 0 where
  pub is_open : Bool
  pub recv_buffer : Bytes
  pub remained_length : ℕ
  pub all_data_size : ℕ
  pub written : List Bytes

-- The error code of a read.
pub data Code : Type 0 where
  success eof other : Code

-- An `int` in decimal, as std::format prints it.
abbrev pub int_text : ℕ → Bytes
int_text w = if ltb w (2 ^ 31) then to_string w else text "-" ++ to_string (2 ^ 32 - w)

abbrev pub thanks : ℕ → Bytes
thanks n = text "thanks! received all data " ++ int_text n ++ text " byte" ++ 10 ∷ []

abbrev pub unspecified_packet : Bytes
unspecified_packet = text "Unspecified packet" ++ 10 ∷ []

unfoldable pub stop_connection : Connection → Connection
stop_connection c = record c { is_open = false }

unfoldable pub do_write : Bytes → Connection → Connection
do_write response c = record c { written = c.written ++ response ∷ [] }

-- The branch for a transfer under way, at the length of the read; the subtraction is one of size_t.
unfoldable pub receive_rest : ℕ → Connection → Connection
unfolding do_write
receive_rest n c =
    let left = to_int (sub_size (to_size c.remained_length) n) in
    let d = record c { remained_length = left } in
    let answered = do_write (thanks c.all_data_size) d in
    if left == 0 then record answered { all_data_size = 0 } else d

-- The branch of "many"; the answer that it builds is not written.
unfoldable pub receive_many : ℕ → Connection → Connection
receive_many n c =
    let len = read_int (drop 4 c.recv_buffer) in
    if ltb n (to_size len)
    then record c { remained_length = to_int (sub_size (to_size len) n); all_data_size = len }
    else c

abbrev pub begins : Bytes → Connection → Bool
begins mark c = bytes_eq (take 4 c.recv_buffer) mark

-- The branches by what stands in the buffer; "prot" is only logged.
unfoldable pub receive_new : ℕ → Connection → Connection
unfolding receive_many do_write
receive_new n c =
    if begins (text "prot") c
    then c
    else if begins (text "many") c
    then receive_many n c
    else do_write unspecified_packet c

-- The callback of do_read, and whether it reads on. Also an error other than the end reads on.
unfoldable pub on_read : Code → Bytes → Connection → Connection × Bool
unfolding receive_rest receive_new stop_connection
on_read success chunk c =
    let d = record c { recv_buffer = chunk ++ drop (length chunk) c.recv_buffer } in
    let n = length chunk in
    if n == 0
    then (stop_connection d, false)
    else if ltb 0 d.remained_length && ltb d.remained_length (2 ^ 31)
    then (receive_rest n d, true)
    else (receive_new n d, true)
on_read eof chunk c = (stop_connection c, false)
on_read other chunk c = (c, true)

-- The reads of a connection, while it reads on.
unfoldable pub reads : List (Code × Bytes) → Connection → Connection
unfolding on_read
reads [] c = c
reads ((code, chunk) ∷ rest) c =
    let (d, again) = on_read code chunk c in let after = reads rest d in if again then after else d

-- The posted part of AsyncWriteNotify: a message that the buffer does not hold is written past it.
unfoldable pub async_write_notify : Bytes → Connection → Option Connection
unfolding do_write
async_write_notify message c =
    if ltb send_max_length (length message) then none else some (do_write message c)
