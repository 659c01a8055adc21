-- ===== src/RedisService/Scan.antt =====
-- RedisService::Scan of src/redisService.cpp: the calls of SCAN until the cursor is 0 again.
use isolation_server.Common.{
  ℕ, zero, suc, ◌≤◌, ◌≡◌, refl, true, ◌||◌, ◌++◌, List, [], ◌∷◌, Option, none, some, Bytes, text,
  ◌==◌, All, if◌then◌else◌, arith,
}
use isolation_server.Redis.{Redis}
use isolation_server.RedisService
use isolation_server.Redis.Scanning.{
  Scanner, Iteration, last, more, rounds, ScanLaws, is_plain, listed,
}

module _ {R : Redis} (S : Scanner R) where
  -- The loop, on fuel; `std::inserter` puts the keys of a call in front of those before.
  scan_from : ℕ → (cursor : ℕ) → (pattern : Bytes) → R.Database → List Bytes → Option (List Bytes)
  scan_from zero cursor pattern db found = none
  scan_from (suc fuel) cursor pattern db found =
      let (next, keys) = S.scan cursor pattern db in
      let rest = scan_from fuel next pattern db (keys ++ found) in
      if next == 0 then some (keys ++ found) else rest

  unfoldable pub scan : (fuel : ℕ) → (pattern : Bytes) → R.Database → Option (List Bytes)
  unfolding scan_from
  scan fuel pattern db = scan_from fuel 0 pattern db []

pub listed-append :
    (k : Bytes) (xs ys : List Bytes) → listed k (xs ++ ys) ≡ (listed k xs || listed k ys)
listed-append k [] ys = refl
listed-append k (x ∷ xs) ys = ground (arith, listed-append k xs ys)

pub All-concat : (P : Bytes → Type 0) (xs ys : List Bytes) → All P xs → All P ys → All P (xs ++ ys)
All-concat P [] ys h k = k
All-concat P (x ∷ xs) ys h k = (h.0, All-concat P xs ys h.1 k)

All-parts : (P : Bytes → Type 0) (xs ys : List Bytes) → All P (xs ++ ys) → All P xs × All P ys
All-parts P [] ys h = (tt, h)
All-parts P (x ∷ xs) ys h = let (k, l) = All-parts P xs ys h.1 in ((h.0, k), l)

-- What the loop has found at its end: the keys of the iteration, and those before.
pub record Collected (keys found result : List Bytes) : Type 1 where
  pub those : (k : Bytes) → listed k result ≡ (listed k keys || listed k found)
  pub all : (P : Bytes → Type 0) → All P keys → All P found → All P result

module _ {R : Redis} (S : Scanner R) (pattern : Bytes) (db : R.Database) where
  scan_from-Iteration :
      {cursor : ℕ} {keys : List Bytes} (i : Iteration S pattern db cursor keys) (fuel : ℕ)
      (found : List Bytes)
      → rounds i ≤ fuel
      → (result : List Bytes) × (scan_from S fuel cursor pattern db found ≡ some result)
        × Collected keys found result
  unfolding scan_from rounds
  scan_from-Iteration (last e) zero found h = absurd (omega arith)
  scan_from-Iteration {keys = keys} (last e) (suc fuel) found h = (
    keys ++ found,
    rw e refl,
    record { those = λ k. listed-append k keys found; all = λ P p q. All-concat P keys found p q },
  )
  scan_from-Iteration (more e p i) zero found h = absurd (omega arith)
  scan_from-Iteration (more {next = next} {keys = keys} {rest = rest} e p i) (suc fuel) found h =
      let (result, runs, c) = scan_from-Iteration i fuel (keys ++ found) (omega arith) in
      (
        result,
        rw e (ground (arith, p, runs)),
        record {
          those =
              λ k. ground (arith, c.those k, listed-append k keys found, listed-append k keys rest);
          all = λ P a b.
              let (x, y) = All-parts P keys rest a in c.all P y (All-concat P keys found x b);
        },
      )

-- The calls of a full iteration, by what redis documents of it.
abbrev pub enough : {R : Redis} {S : Scanner R} → ScanLaws S → Bytes → R.Database → ℕ
enough laws pattern db = rounds (laws.iteration pattern db)

-- Given what redis documents of SCAN, for a pattern of plain characters and a `*`, with fuel for as
-- many calls as the iteration has: Scan ends, and what it returns has each key that starts with
-- these characters exactly if the key exists, and has no other keys.
pub scan_finds :
    {R : Redis} {S : Scanner R} (laws : ScanLaws S) (start : Bytes) (db : R.Database) (fuel : ℕ)
    → All (λ c. is_plain c ≡ true) start
    → enough laws (start ++ text "*") db ≤ fuel
    → (found : List Bytes) × (scan S fuel (start ++ text "*") db ≡ some found)
      × ((rest : Bytes) → listed (start ++ rest) found ≡ RedisService.exists R (start ++ rest) db)
      × All (λ k. (rest : Bytes) × (k ≡ start ++ rest)) found
unfolding scan
scan_finds {S = S} laws start db fuel plain h =
    let pattern = start ++ text "*" in
    let (found, runs, c) = scan_from-Iteration S pattern db (laws.iteration pattern db) fuel [] h in
    (
      found,
      runs,
      λ rest. ground (arith, c.those (start ++ rest), laws.exact start rest db plain),
      c.all _ (laws.fitting start db plain) tt,
    )
