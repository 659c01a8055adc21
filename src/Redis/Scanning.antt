-- ===== src/Redis/Scanning.antt =====
-- SCAN of redis: a call answers with the next cursor and some keys, and the cursor 0 ends an
-- iteration. `ScanLaws` has what redis documents of an iteration over a database that does not
-- change meanwhile, for a pattern of plain characters with a `*` behind them.
pub mod Keys
use isolation_server.Common.{
  ℕ, suc, ltb, ◌≡◌, ◌≢◌, Bool, true, false, not, ◌&&◌, ◌||◌, ◌++◌, List, [], ◌∷◌, Bytes, text, ◌==◌,
  bytes_eq, All,
}
use isolation_server.Redis.{Redis}

pub record Scanner (R : Redis) : Type 0 where
  pub scan : (cursor : ℕ) → (pattern : Bytes) → R.Database → ℕ × List Bytes

-- The calls of an iteration from a cursor to its end, and the keys that they answer with.
pub data Iteration {R : Redis} (S : Scanner R) (pattern : Bytes) (db : R.Database)
    : ℕ → List Bytes → Type 0 where
  last :
      {cursor : ℕ} {keys : List Bytes}
      → S.scan cursor pattern db ≡ (0, keys)
      → Iteration S pattern db cursor keys
  more :
      {cursor next : ℕ} {keys rest : List Bytes}
      → S.scan cursor pattern db ≡ (next, keys)
      → next ≢ 0
      → Iteration S pattern db next rest
      → Iteration S pattern db cursor (keys ++ rest)

-- How many calls it has.
unfoldable pub rounds :
    {R : Redis} {S : Scanner R} {pattern : Bytes} {db : R.Database} {cursor : ℕ} {keys : List Bytes}
    → Iteration S pattern db cursor keys
    → ℕ
rounds (last e) = 1
rounds (more e p i) = suc (rounds i)

-- A character that a pattern does not treat in its own way: not `*`, `?`, `[` or a backslash.
abbrev pub is_plain : ℕ → Bool
is_plain c = not ((c == 42) || (c == 63) || (c == 91) || (c == 92))

abbrev pub listed : Bytes → List Bytes → Bool
listed k [] = false
listed k (j ∷ keys) = bytes_eq j k || listed k keys

pub record ScanLaws {R : Redis} (S : Scanner R) : Type 0 where
  -- From the cursor 0 a full iteration comes to its end.
  pub keys : (pattern : Bytes) → R.Database → List Bytes
  pub iteration : (pattern : Bytes) (db : R.Database) → Iteration S pattern db 0 (keys pattern db)
  -- It answers with a key that fits the pattern exactly if the key exists, and with no other keys.
  pub exact :
      (start rest : Bytes) (db : R.Database)
      → All (λ c. is_plain c ≡ true) start
      → listed (start ++ rest) (keys (start ++ text "*") db) ≡ ltb 0 (R.exists (start ++ rest) db)
  pub fitting :
      (start : Bytes) (db : R.Database)
      → All (λ c. is_plain c ≡ true) start
      → All (λ k. (rest : Bytes) × (k ≡ start ++ rest)) (keys (start ++ text "*") db)
