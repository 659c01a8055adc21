-- ===== src/Tests/Helpers.antt =====
-- The theorems on src/util.cpp and src/tokenPool.h, at concrete inputs.
use isolation_server.Common.{
  ℕ, ◌≡◌, ◌≢◌, refl, true, false, ◌||◌, ◌==◌, List, [], ◌∷◌, ◌++◌, some, text, take, drop, arith,
}
use isolation_server.Util.{counted, unfinished, append_prot_packet, utf8_length}
use isolation_server.Util.Utf8.{encode_all, utf8_length-encode_all, utf8_length_ends}
use isolation_server.Util.Packets.{read_int, packet_fields}
use isolation_server.TokenPool.{TokenPool, contains, allocate, allocate_fresh}

utf8_length-encode_all_example :
    utf8_length (encode_all (0x41 ∷ 0xe9 ∷ 0xd55c ∷ 0x1f600 ∷ [])) ≡ counted 4
utf8_length-encode_all_example =
    utf8_length-encode_all (0x41 ∷ 0xe9 ∷ 0xd55c ∷ 0x1f600 ∷ [])
      (omega arith, (omega arith, (omega arith, (omega arith, tt))))

utf8_length_ends_example : utf8_length (0xc3 ∷ 0xff ∷ 0x80 ∷ []) ≢ unfinished
utf8_length_ends_example = utf8_length_ends (0xc3 ∷ 0xff ∷ 0x80 ∷ [])

packet_fields_example :
    let packet = append_prot_packet [] 3 14 ++ text "ok" in
    (take 4 packet ≡ text "prot")
    × (read_int (drop 4 packet) ≡ 3)
    × (read_int (drop 8 packet) ≡ 14)
    × (drop 12 packet ≡ text "ok")
packet_fields_example = packet_fields 3 14 (text "ok") (omega arith) (omega arith)

abbrev pool : TokenPool
pool = record { used = 7 ∷ 9 ∷ [] }

allocate_fresh_example :
    (t : ℕ) × (rest : List ℕ) × (p' : TokenPool) × (allocate (9 ∷ 4 ∷ 7 ∷ []) pool
      ≡ some (t, rest, p'))
    × (contains t (9 ∷ 4 ∷ 7 ∷ []) ≡ true)
    × (contains t pool.used ≡ false)
    × ((s : ℕ) → contains s p'.used ≡ ((t == s) || contains s pool.used))
unfolding contains
allocate_fresh_example = allocate_fresh (9 ∷ 4 ∷ 7 ∷ []) pool 4 refl refl
