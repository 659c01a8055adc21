-- ===== src/Redis/Scanning/Keys.antt =====
-- SCAN on the database of `Redis.Memory`: one call answers with every key that fits, for the tests.
use isolation_server.Common.{
  ℕ, ◌≤◌, ltb, ◌≡◌, refl, Bool, true, false, ◌&&◌, ◌++◌, List, [], ◌∷◌, Bytes, text, ◌==◌, ==_iff,
  bytes_eq, bytes_eq_iff, All, arith, if◌then◌else◌, Bool-cases, inl, inr,
}
use isolation_server.Redis.Memory
use isolation_server.Redis.Memory.{memory, Fields}
use isolation_server.Redis.Scanning.{Scanner, ScanLaws, last, rounds, is_plain, listed}

-- A pattern of plain characters, with a `*` behind them or none.
unfoldable pub fits : Bytes → Bytes → Bool
fits [] [] = true
fits [] (k ∷ key) = false
fits (p ∷ pattern) [] = p == 42
fits (p ∷ pattern) (k ∷ key) =
    let rest = fits pattern key in if p == 42 then true else (p == k) && rest

unfoldable pub keys : Bytes → Fields → List Bytes
keys pattern [] = []
keys pattern ((key, field, value) ∷ m) =
    let rest = keys pattern m in if fits pattern key then key ∷ rest else rest

abbrev pub memory_scanner : Scanner memory
memory_scanner = record { scan = λ cursor pattern m. (0, keys pattern m) }

cons_eq : (x y : ℕ) (xs ys : Bytes) → y ≡ x → xs ≡ ys → (x ∷ xs) ≡ (y ∷ ys)
cons_eq x y xs ys e f = cc

fits-start :
    (start rest : Bytes)
    → All (λ c. is_plain c ≡ true) start
    → fits (start ++ text "*") (start ++ rest) ≡ true
unfolding fits
fits-start [] [] h = refl
fits-start [] (k ∷ rest) h = refl
fits-start (c ∷ start) rest h = ground (arith, fits-start start rest h.1, ==_iff c c)

fits-rest :
    (start key : Bytes)
    → All (λ c. is_plain c ≡ true) start
    → fits (start ++ text "*") key ≡ true
    → (rest : Bytes) × (key ≡ start ++ rest)
unfolding fits
fits-rest [] key h e = (key, refl)
fits-rest (c ∷ start) [] h e = absurd (ground (arith, h.0))
fits-rest (c ∷ start) (k ∷ key) h e =
    let (rest, same) = fits-rest start key h.1 (ground (arith, h.0)) in
    (rest, cons_eq k c key (start ++ rest) (ground (arith, h.0, ==_iff c k)) same)

keys-exists :
    (pattern key : Bytes) (m : Fields)
    → fits pattern key ≡ true
    → listed key (keys pattern m) ≡ ltb 0 (Memory.exists key m)
unfolding keys Memory.exists
keys-exists pattern key [] h = refl
keys-exists pattern key ((j, i, u) ∷ m) h = elim (Bool-cases (bytes_eq j key)) [
  | inl same ↦ let e : j ≡ key = (bytes_eq_iff j key).0 same in ground (arith, e, h, same)
  | inr other ↦ ground (arith, keys-exists pattern key m h, other)
]

keys-fitting :
    (start : Bytes) (m : Fields)
    → All (λ c. is_plain c ≡ true) start
    → All (λ k. (rest : Bytes) × (k ≡ start ++ rest)) (keys (start ++ text "*") m)
unfolding keys
keys-fitting start [] h = tt
keys-fitting start ((j, i, u) ∷ m) h = elim (Bool-cases (fits (start ++ text "*") j)) [
  | inl fitted ↦ rw fitted (fits-rest start j h fitted, keys-fitting start m h)
  | inr other ↦ rw other (keys-fitting start m h)
]

pub memory_scanner-Laws : ScanLaws memory_scanner
memory_scanner-Laws = record {
  keys = keys;
  iteration = λ pattern m. last refl;
  exact =
      λ start rest m h. keys-exists (start ++ text "*") (start ++ rest) m (fits-start start rest h);
  fitting = keys-fitting;
}

pub one_call : (pattern : Bytes) (m : Fields) → rounds (memory_scanner-Laws.iteration pattern m) ≤ 1
unfolding rounds memory_scanner-Laws
one_call pattern m = omega arith
