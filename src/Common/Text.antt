-- ===== src/Common/Text.antt =====
-- A `std::string` is the list of its bytes. `std::to_string` of an unsigned number, and its inverse.
use Prim.Native.Nat.{ℕ, zero, suc, ◌+◌, ◌-◌, ◌*◌, ◌/◌, ◌%◌, ◌<◌}
use Prim.Native.Char.{code}
use Prim.Native.String.{String}
use mathlib.Core.Path.{◌≡◌, refl, ap, sym, ◌∙◌}
use mathlib.Core.Logic.{◌↔◌, inl, inr}
use mathlib.Core.Bool.{Bool, true, false, ◌&&◌}
use mathlib.Core.List.{List, [], ◌∷◌, ◌++◌}
use native.Mathlib.Omega.{arith}
use isolation_server.Common.Tests.{ltb, ◌==◌, Bool-cases}

abbrev pub Bytes : Type 0
Bytes = List ℕ

-- A string literal of the source.
abbrev pub text : String → Bytes
text String.[] = []
text (String.◌∷◌ c s) = code c ∷ text s

unfoldable pub bytes_eq : Bytes → Bytes → Bool
bytes_eq [] [] = true
bytes_eq [] (b ∷ bs) = false
bytes_eq (a ∷ as') [] = false
bytes_eq (a ∷ as') (b ∷ bs) = (a == b) && bytes_eq as' bs

pub bytes_eq_sound : (xs ys : Bytes) → bytes_eq xs ys ≡ true → xs ≡ ys
unfolding bytes_eq
bytes_eq_sound [] [] h = refl
bytes_eq_sound [] (b ∷ bs) h = cc
bytes_eq_sound (a ∷ as') [] h = cc
bytes_eq_sound (a ∷ as') (b ∷ bs) h = ground (arith, bytes_eq_sound as' bs)

pub bytes_eq_refl : (xs : Bytes) → bytes_eq xs xs ≡ true
unfolding bytes_eq
bytes_eq_refl [] = refl
bytes_eq_refl (a ∷ xs) = ground (arith, bytes_eq_refl xs)

pub bytes_eq_iff : (xs ys : Bytes) → (bytes_eq xs ys ≡ true) ↔ (xs ≡ ys)
bytes_eq_iff xs ys = (bytes_eq_sound xs ys, λ e. rw e (bytes_eq_refl ys))

unfoldable pub decimal : ℕ → ℕ → Bytes
decimal zero n = []
decimal (suc fuel) n = elim (ltb n 10) [
  | true ↦ (48 + n) ∷ []
  | false ↦ decimal fuel (n / 10) ++ (48 + n % 10) ∷ []
]

-- `n + 1` rounds are enough: each divides by ten.
unfoldable pub to_string : ℕ → Bytes
unfolding decimal
to_string n = decimal (suc n) n

abbrev pub value_from : ℕ → Bytes → ℕ
value_from acc [] = acc
value_from acc (b ∷ bs) = value_from (acc * 10 + (b - 48)) bs

-- The number that a row of digits denotes.
unfoldable pub value : Bytes → ℕ
value bs = value_from 0 bs

value_from-snoc :
    (acc : ℕ) (bs : Bytes) (b : ℕ)
    → value_from acc (bs ++ b ∷ []) ≡ value_from acc bs * 10 + (b - 48)
value_from-snoc acc [] b = refl
value_from-snoc acc (c ∷ bs) b = value_from-snoc (acc * 10 + (c - 48)) bs b

value-decimal : (fuel n : ℕ) → n < fuel → value (decimal fuel n) ≡ n
unfolding value decimal
value-decimal zero n h = elim h [ ]
value-decimal (suc fuel) n h = elim (Bool-cases (ltb n 10)) [
  | inl small ↦ rw (small, decimal) (omega arith)
  | inr large ↦
      rw (large, decimal)
        (value_from-snoc 0 (decimal fuel (n / 10)) (48 + n % 10)
          ∙ ground (arith, value-decimal fuel (n / 10)))
]

pub value-to_string : (n : ℕ) → value (to_string n) ≡ n
unfolding to_string
value-to_string n = value-decimal (suc n) n (omega arith)

pub to_string-injective : (m n : ℕ) → to_string m ≡ to_string n → m ≡ n
to_string-injective m n e = sym (value-to_string m) ∙ ap value e ∙ value-to_string n
