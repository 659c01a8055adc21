-- ===== src/Util.antt =====
-- src/util.cpp and src/util.h: the packet header, 32-bit integers in little-endian order, and the
-- number of characters of a UTF-8 text. An `int` is its bit pattern, a number below 2 ^ 32; a
-- `size_t` is a number below 2 ^ 64; a `char` is a byte. `Words` has the integer conversions.
pub mod Words
pub mod Packets
pub mod Utf8
use Prim.Native.Nat.{bit_and}
use isolation_server.Common.{
  ℕ, zero, suc, ◌+◌, ◌/◌, ◌%◌, ◌^◌, List, [], ◌∷◌, ◌++◌, Option, none, some, Bytes, text, ◌==◌,
  if◌then◌else◌, drop, length,
}

-- append_int_vec_char_le: the four bytes of the pattern, the least significant first.
unfoldable pub append_int_vec_char_le : Bytes → ℕ → Bytes
append_int_vec_char_le buffer value =
    buffer
    ++ (value % 256) ∷ (value / 2 ^ 8 % 256) ∷ (value / 2 ^ 16 % 256) ∷ (value / 2 ^ 24 % 256) ∷ []

-- append_prot_packet: "prot", the type, and the length cut to an `int`.
unfoldable pub append_prot_packet : Bytes → ℕ → ℕ → Bytes
unfolding append_int_vec_char_le
append_prot_packet buffer type len =
    append_int_vec_char_le (append_int_vec_char_le (buffer ++ text "prot") type) (len % 2 ^ 32)

-- How utf8_length ends: with a count, by its exception, or (never, with fuel for each byte) cut off.
pub data Count : Type 0 where
  counted : ℕ → Count
  invalid : Count
  unfinished : Count

-- The width that the first byte of a character announces; none is the throw.
pub char_len : ℕ → Option ℕ
char_len c =
    if bit_and c 0x80 == 0
    then some 1
    else if bit_and c 0xe0 == 0xc0
    then some 2
    else if bit_and c 0xf0 == 0xe0
    then some 3
    else if bit_and c 0xf8 == 0xf0
    then some 4
    else none

-- The loop of utf8_length at the bytes from `i` on. Its continuation bytes are not looked at.
utf8_loop : ℕ → Bytes → ℕ → Count
utf8_loop fuel [] len = counted len
utf8_loop zero (c ∷ rest) len = unfinished
utf8_loop (suc fuel) (c ∷ rest) len = elim (char_len c) [
  | none ↦ invalid
  | some width ↦ utf8_loop fuel (drop width (c ∷ rest)) (len + 1)
]

unfoldable pub utf8_length : Bytes → Count
unfolding utf8_loop char_len
utf8_length strview = utf8_loop (length strview) strview 0
