-- ===== src/TokenPool.antt =====
-- src/tokenPool.h: the tokens of the connections. The random numbers that the distribution gives, each
-- of 1 to 2 ^ 64 - 1, are a parameter: the list of the draws still to come. `std::unordered_set` is
-- a list without duplicates. The set changes under a mutex, so that each operation is one
-- step of it.
use mathlib.Core.Option.{some-injective}
use isolation_server.Common.{
  ap, Bool-cases, inl, inr, ℕ, ◌≡◌, refl, Bool, true, false, ◌||◌, List, [], ◌∷◌, Option, none,
  some, arith, ◌==◌, ==_iff, if◌then◌else◌,
}

pub record TokenPool : Type 0 where
  pub used : List ℕ

unfoldable pub contains : ℕ → List ℕ → Bool
contains t [] = false
contains t (u ∷ used) = (u == t) || contains t used

-- `used_.insert(t)` of a token that is not there yet.
unfoldable pub insert : ℕ → TokenPool → TokenPool
insert t p = record { used = t ∷ p.used }

-- The loop of allocate: the token, the draws that are left, and the pool. Where the draws run out
-- the loop goes on.
unfoldable pub allocate : (draws : List ℕ) → TokenPool → Option (ℕ × List ℕ × TokenPool)
unfolding contains insert
allocate [] p = none
allocate (t ∷ draws) p =
    let rest = allocate draws p in if contains t p.used then rest else some (t, draws, insert t p)

unfoldable pub erase : ℕ → List ℕ → List ℕ
erase t [] = []
erase t (u ∷ used) = let rest = erase t used in if u == t then rest else u ∷ rest

unfoldable pub release : ℕ → TokenPool → TokenPool
unfolding erase
release t p = record { used = erase t p.used }

contains-erase :
    (t s : ℕ) (used : List ℕ)
    → contains s (erase t used) ≡ (if t == s then false else contains s used)
unfolding contains erase
contains-erase t s [] = ground arith
contains-erase t s (u ∷ used) = ground (arith, contains-erase t s used)

-- While one of the draws to come is not in use, allocate returns a token that is among the draws,
-- that was not in use, and that is in use in the pool that it leaves; every other token is in use
-- there if it was before.
pub allocate_fresh :
    (draws : List ℕ) (p : TokenPool) (d : ℕ)
    → contains d draws ≡ true
    → contains d p.used ≡ false
    → (t : ℕ) × (rest : List ℕ) × (p' : TokenPool) × (allocate draws p ≡ some (t, rest, p'))
      × (contains t draws ≡ true)
      × (contains t p.used ≡ false)
      × ((s : ℕ) → contains s p'.used ≡ ((t == s) || contains s p.used))
unfolding contains allocate
allocate_fresh [] p d here free = cc
allocate_fresh (u ∷ draws) p d here free = elim (Bool-cases (contains u p.used)) [
  | inl taken ↦
      let (t, rest, p', e, drawn, fresh, after) = allocate_fresh draws p d (still taken) free in
      (t, rest, p', rw taken e, ground (arith, drawn), fresh, after)
  | inr fresh ↦ (u, draws, insert u p, rw fresh refl, ground arith, fresh, λ s. refl)
]
  where
    still : contains u p.used ≡ true → contains d draws ≡ true
    still taken = ground (arith, here, free, ==_iff u d)

release-insert :
    (t s : ℕ) (p : TokenPool)
    → contains t p.used ≡ false
    → contains s (release t (insert t p)).used ≡ contains s p.used
unfolding contains insert release
release-insert t s p fresh = ground (arith, contains-erase t s p.used, ==_iff t s)

-- A token that allocate returned and that is then released leaves the same tokens in use as before.
pub release-allocate :
    (draws rest : List ℕ) (p p' : TokenPool) (t s : ℕ)
    → allocate draws p ≡ some (t, rest, p')
    → contains s (release t p').used ≡ contains s p.used
unfolding allocate
release-allocate [] rest p p' t s e = cc
release-allocate (u ∷ draws) rest p p' t s e = elim (Bool-cases (contains u p.used)) [
  | inl taken ↦ release-allocate draws rest p p' t s (rw taken at e)
  | inr fresh ↦
      let here : (u, draws, insert u p) ≡ (t, rest, p') = some-injective _ _ (rw fresh at e) in
      rw (← ap (λ (x : ℕ × List ℕ × TokenPool). x.0) here)
        (rw (← ap (λ (x : ℕ × List ℕ × TokenPool). x.2) here) (release-insert u s p fresh))
]
