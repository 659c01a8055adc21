-- ===== src/Util/Words.antt =====
-- The integer conversions that the source writes as `static_cast`, or that the compiler inserts.
use isolation_server.Common.{ℕ, ◌+◌, ◌-◌, ◌%◌, ◌^◌, ◌<◌, ◌≡◌, arith, ltb, if◌then◌else◌}

-- A `size_t` cut to an `int`.
abbrev pub to_int : ℕ → ℕ
to_int n = n % 2 ^ 32

-- An `int` widened to a `size_t`: the sign is extended.
abbrev pub to_size : ℕ → ℕ
to_size w = if ltb w (2 ^ 31) then w else w + (2 ^ 64 - 2 ^ 32)

-- `int` addition, wrapped.
abbrev pub add_int : ℕ → ℕ → ℕ
add_int a b = (a + b) % 2 ^ 32

-- `size_t` subtraction.
abbrev pub sub_size : ℕ → ℕ → ℕ
sub_size a b = (a + 2 ^ 64 - b) % 2 ^ 64

pub to_int-to_size : (w : ℕ) → w < 2 ^ 32 → to_int (to_size w) ≡ w
to_int-to_size w h = ground arith
