-- ===== src/Common/Parse.antt =====
-- std::stoull and std::stoi: white space, a sign, and the digits that follow; what stands behind them
-- is ignored.
use Prim.Native.Nat.{ℕ, zero, suc, ◌+◌, ◌-◌, ◌*◌, ◌/◌, ◌%◌, ◌^◌, ◌<◌}
use mathlib.Core.Path.{◌≡◌, refl}
use mathlib.Core.Logic.{◌≢◌, inl, inr}
use mathlib.Core.Bool.{Bool, true, false, ◌&&◌, ◌||◌}
use mathlib.Core.List.{[], ◌∷◌, ◌++◌}
use native.Mathlib.Omega.{arith}
use isolation_server.Common.Tests.{ltb, leb, ◌==◌, if◌then◌else◌, Bool-cases}
use isolation_server.Common.Lists.{All}
use isolation_server.Common.Text.{Bytes, decimal, to_string, value, value_from, value-to_string}

-- How it ends: with a number, or by one of its exceptions.
pub data Parsed : Type 0 where
  number : ℕ → Parsed
  invalid_argument : Parsed
  out_of_range : Parsed

unfoldable pub is_digit : ℕ → Bool
is_digit b = leb 48 b && leb b 57

unfoldable pub is_space : ℕ → Bool
is_space b = (b == 32) || (leb 9 b && leb b 13)

-- The number that the digits at the head denote.
unfoldable pub digits : ℕ → Bytes → ℕ
digits acc [] = acc
digits acc (b ∷ bs) = let rest = digits (acc * 10 + (b - 48)) bs in if is_digit b then rest else acc

abbrev pub in_range : (negative : Bool) → ℕ → Parsed
in_range negative n =
    if ltb n (2 ^ 64) then number (if negative then (2 ^ 64 - n) % 2 ^ 64 else n) else out_of_range

abbrev pub unsigned : (negative : Bool) → Bytes → Parsed
unsigned negative [] = invalid_argument
unsigned negative (b ∷ bs) =
    if is_digit b then in_range negative (digits 0 (b ∷ bs)) else invalid_argument

unfoldable pub stoull : Bytes → Parsed
stoull [] = invalid_argument
stoull (b ∷ bs) =
    let rest = stoull bs in
    if is_space b
    then rest
    else if b == 43
    then unsigned false bs
    else if b == 45
    then unsigned true bs
    else unsigned false (b ∷ bs)

-- std::stoi: the same for an `int`, a bit pattern below 2 ^ 32.
abbrev pub in_int_range : (negative : Bool) → ℕ → Parsed
in_int_range true n = if leb n (2 ^ 31) then number ((2 ^ 32 - n) % 2 ^ 32) else out_of_range
in_int_range false n = if ltb n (2 ^ 31) then number n else out_of_range

abbrev pub signed : (negative : Bool) → Bytes → Parsed
signed negative [] = invalid_argument
signed negative (b ∷ bs) =
    if is_digit b then in_int_range negative (digits 0 (b ∷ bs)) else invalid_argument

unfoldable pub stoi : Bytes → Parsed
stoi [] = invalid_argument
stoi (b ∷ bs) =
    let rest = stoi bs in
    if is_space b
    then rest
    else if b == 43
    then signed false bs
    else if b == 45
    then signed true bs
    else signed false (b ∷ bs)

abbrev IsDigit : ℕ → Type 0
IsDigit b = is_digit b ≡ true

digits-value_from : (acc : ℕ) (bs : Bytes) → All IsDigit bs → digits acc bs ≡ value_from acc bs
unfolding digits
digits-value_from acc [] h = refl
digits-value_from acc (b ∷ bs) h = rw (h.0) (digits-value_from (acc * 10 + (b - 48)) bs h.1)

All-IsDigit-snoc : (bs : Bytes) (b : ℕ) → All IsDigit bs → IsDigit b → All IsDigit (bs ++ b ∷ [])
All-IsDigit-snoc [] b h k = (k, tt)
All-IsDigit-snoc (c ∷ bs) b h k = (h.0, All-IsDigit-snoc bs b h.1 k)

decimal-IsDigit : (fuel n : ℕ) → All IsDigit (decimal fuel n)
unfolding decimal is_digit
decimal-IsDigit zero n = tt
decimal-IsDigit (suc fuel) n = elim (Bool-cases (ltb n 10)) [
  | inl small ↦ rw (small, decimal) (ground arith, tt)
  | inr large ↦
      rw (large, decimal)
        (All-IsDigit-snoc (decimal fuel (n / 10)) (48 + n % 10) (decimal-IsDigit fuel (n / 10))
          (ground arith))
]

-- A row of digits that starts with a digit.
stoull-digits :
    (bs : Bytes) (n : ℕ)
    → All IsDigit bs
    → bs ≢ []
    → value bs ≡ n
    → n < 2 ^ 64
    → stoull bs ≡ number n
unfolding stoull value is_digit is_space
stoull-digits [] n h some' e small = absurd (some' refl)
stoull-digits (b ∷ bs) n h some' e small = ground (arith, h.0, digits-value_from 0 (b ∷ bs) h, e)

snoc_some : (bs : Bytes) (b : ℕ) → bs ++ b ∷ [] ≢ []
snoc_some [] b = λ e. cc
snoc_some (c ∷ bs) b = λ e. cc

to_string_some : (n : ℕ) → to_string n ≢ []
unfolding to_string decimal
to_string_some n = elim (Bool-cases (ltb n 10)) [
  | inl small ↦ rw (small, decimal) (λ e. cc)
  | inr large ↦ rw (large, decimal) (snoc_some (decimal n (n / 10)) (48 + n % 10))
]

-- What std::to_string prints, std::stoull reads.
pub stoull-to_string : (n : ℕ) → n < 2 ^ 64 → stoull (to_string n) ≡ number n
unfolding to_string
stoull-to_string n small =
    stoull-digits (to_string n) n (decimal-IsDigit (suc n) n) (to_string_some n) (value-to_string n)
      small

stoi-digits :
    (bs : Bytes) (n : ℕ) → All IsDigit bs → bs ≢ [] → value bs ≡ n → n < 2 ^ 31 → stoi bs ≡ number n
unfolding stoi value is_digit is_space
stoi-digits [] n h some' e small = absurd (some' refl)
stoi-digits (b ∷ bs) n h some' e small = ground (arith, h.0, digits-value_from 0 (b ∷ bs) h, e)

pub stoi-to_string : (n : ℕ) → n < 2 ^ 31 → stoi (to_string n) ≡ number n
unfolding to_string
stoi-to_string n small =
    stoi-digits (to_string n) n (decimal-IsDigit (suc n) n) (to_string_some n) (value-to_string n)
      small
