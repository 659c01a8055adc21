-- ===== src/Util/Packets.antt =====
-- The header that append_prot_packet writes, as a reader finds it.
use isolation_server.Common.{
  ℕ, ◌+◌, ◌*◌, ◌%◌, ◌^◌, ◌<◌, ◌≡◌, refl, [], ◌∷◌, ◌++◌, arith, Bytes, text, length, take, drop,
  length-append,
}
use isolation_server.Util.{append_int_vec_char_le, append_prot_packet}

-- `*(int32_t *)p` on a little-endian machine; the source reads it where four bytes stand.
unfoldable pub read_int : Bytes → ℕ
read_int (a ∷ b ∷ c ∷ d ∷ rest) = a + b * 256 + c * 65536 + d * 16777216
read_int _ = 0

pub read_int-append_int :
    (w : ℕ) (rest : Bytes) → w < 2 ^ 32 → read_int (append_int_vec_char_le [] w ++ rest) ≡ w
unfolding read_int append_int_vec_char_le
read_int-append_int w rest h = omega arith

pub length-append_prot_packet :
    (buffer : Bytes) (type len : ℕ)
    → length (append_prot_packet buffer type len) ≡ length buffer + 12
unfolding append_prot_packet
length-append_prot_packet buffer type len = simp length-append (omega arith)

-- A header, with what stands behind it.
module _ (type len : ℕ) (rest : Bytes) where
  abbrev framed : Bytes
  framed = append_prot_packet [] type len ++ rest

  pub take-packet : take 4 framed ≡ text "prot"
  unfolding append_prot_packet
  take-packet = refl

  pub drop-packet : drop 12 framed ≡ rest
  unfolding append_prot_packet
  drop-packet = refl

  pub read_type : type < 2 ^ 32 → read_int (drop 4 framed) ≡ type
  unfolding append_prot_packet read_int
  read_type h = omega arith

  pub read_length : read_int (drop 8 framed) ≡ len % 2 ^ 32
  unfolding append_prot_packet read_int
  read_length = omega arith

-- For a type and a length below 2 ^ 32 and any payload: the marker, the type, the length and the
-- payload of a packet stand where ReadAsync looks for them.
pub packet_fields :
    (type len : ℕ) (payload : Bytes)
    → type < 2 ^ 32
    → len < 2 ^ 32
    → let packet = append_prot_packet [] type len ++ payload in
      (take 4 packet ≡ text "prot")
      × (read_int (drop 4 packet) ≡ type)
      × (read_int (drop 8 packet) ≡ len)
      × (drop 12 packet ≡ payload)
packet_fields type len payload t l = (
  take-packet type len payload,
  read_type type len payload t,
  omega (arith, read_length type len payload),
  drop-packet type len payload,
)
