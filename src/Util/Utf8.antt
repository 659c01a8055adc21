-- ===== src/Util/Utf8.antt =====
-- utf8_length against the UTF-8 encoding of the standard.
use isolation_server.Common.{
  false, ℕ, zero, suc, ◌+◌, ◌/◌, ◌%◌, ◌≤◌, ◌<◌, ◌≡◌, ◌≢◌, refl, ◌∙◌, ap, inl, inr, Bool, true, List,
  [], ◌∷◌, ◌++◌, Option, none, some, arith, ltb, ◌==◌, ==_iff, if◌then◌else◌, Bool-cases,
  Option-cases, Bytes, length, drop, length-append, length-drop, drop-append, All,
}
use isolation_server.Util.{counted, unfinished, char_len, utf8_loop, utf8_length}

-- The bytes of one code point, as the standard has them.
unfoldable pub encode : ℕ → Bytes
encode c =
    if ltb c 0x80
    then c ∷ []
    else if ltb c 0x800
    then (192 + c / 64) ∷ (128 + c % 64) ∷ []
    else if ltb c 0x10000
    then (224 + c / 4096) ∷ (128 + c / 64 % 64) ∷ (128 + c % 64) ∷ []
    else (240 + c / 262144) ∷ (128 + c / 4096 % 64) ∷ (128 + c / 64 % 64) ∷ (128 + c % 64) ∷ []

unfoldable pub encode_all : List ℕ → Bytes
unfolding encode
encode_all [] = []
encode_all (c ∷ cs) = encode c ++ encode_all cs

-- A test of the numbers under a bound, the largest first, and of what it passes.
passes : (ℕ → Bool) → (bound : ℕ) → Bool
passes test zero = true
passes test (suc k) = if test k then passes test k else false

passes_under : (test : ℕ → Bool) (k n : ℕ) → n < k → passes test k ≡ true → test n ≡ true
unfolding passes
passes_under test zero n small all = absurd (omega arith)
passes_under test (suc k) n small all = ground (arith, passes_under test k n)

-- The width by ranges of the first byte, 0 for none.
width_of : ℕ → ℕ
width_of c =
    if ltb c 128
    then 1
    else if ltb c 192
    then 0
    else if ltb c 224
    then 2
    else if ltb c 240
    then 3
    else if ltb c 248
    then 4
    else 0

or_zero : Option ℕ → ℕ
or_zero none = 0
or_zero (some n) = n

char_len_table : passes (λ c. or_zero (char_len c) == width_of c) 256 ≡ true
unfolding passes char_len or_zero width_of
char_len_table = refl

char_len-width_of : (c : ℕ) → c < 256 → or_zero (char_len c) ≡ width_of c
char_len-width_of c h = (==_iff _ _).0 (passes_under _ 256 c h char_len_table)

char_len-some : (c w : ℕ) → c < 256 → width_of c ≡ suc w → char_len c ≡ some (suc w)
unfolding or_zero
char_len-some c w h e = elim (Option-cases (char_len c)) [
  | inl n ↦ absurd (omega (arith, char_len-width_of c h, ap or_zero n))
  | inr (v, s) ↦ s ∙ ap some (omega (arith, char_len-width_of c h, ap or_zero s))
]

-- An encoding is a first byte that announces its width, and the bytes that it announces.
abbrev IsCharacter : Bytes → Type 0
IsCharacter bs =
    (b : ℕ) × (tail : Bytes) × (bs ≡ b ∷ tail) × (b < 256) × (width_of b ≡ suc (length tail))

encode-IsCharacter : (c : ℕ) → c < 0x110000 → IsCharacter (encode c)
unfolding encode width_of
encode-IsCharacter c h = elim (Bool-cases (ltb c 0x80)) [
  | inl one ↦ (c, [], rw (one, encode), ground arith, ground arith)
  | inr more ↦ elim (Bool-cases (ltb c 0x800)) [
    | inl two ↦
        (192 + c / 64, (128 + c % 64) ∷ [], rw (more, two, encode), ground arith, ground arith)
    | inr wider ↦ elim (Bool-cases (ltb c 0x10000)) [
      | inl three ↦ (
        224 + c / 4096,
        (128 + c / 64 % 64) ∷ (128 + c % 64) ∷ [],
        rw (more, wider, three, encode),
        ground arith,
        ground arith,
      )
      | inr four ↦ (
        240 + c / 262144,
        (128 + c / 4096 % 64) ∷ (128 + c / 64 % 64) ∷ (128 + c % 64) ∷ [],
        rw (more, wider, four, encode),
        ground arith,
        ground arith,
      )
    ]
  ]
]

-- One round over one encoded code point.
utf8_loop-encode :
    (fuel c : ℕ) (rest : Bytes) (len : ℕ)
    → c < 0x110000
    → utf8_loop (suc fuel) (encode c ++ rest) len ≡ utf8_loop fuel rest (len + 1)
utf8_loop-encode fuel c rest len h =
    let (b, tail, e, small, wide) = encode-IsCharacter c h in
    rw e (
      unfold utf8_loop in rw (char_len-some b (length tail) small wide, utf8_loop) (rw drop-append))

length-encode_pos : (c : ℕ) → 0 < length (encode c)
unfolding encode
length-encode_pos c = ground arith

utf8_loop-encode_all :
    (fuel : ℕ) (cs : List ℕ) (len : ℕ)
    → All (λ c. c < 0x110000) cs
    → length (encode_all cs) ≤ fuel
    → utf8_loop fuel (encode_all cs) len ≡ counted (len + length cs)
unfolding encode_all utf8_loop
utf8_loop-encode_all zero [] len h k = ap counted (omega arith)
utf8_loop-encode_all (suc fuel) [] len h k = ap counted (omega arith)
utf8_loop-encode_all zero (c ∷ cs) len h k =
    absurd (omega (arith, length-append (encode c) (encode_all cs), length-encode_pos c))
utf8_loop-encode_all (suc fuel) (c ∷ cs) len h k =
    utf8_loop-encode fuel c (encode_all cs) len h.0
    ∙ utf8_loop-encode_all fuel cs (len + 1) h.1
        (omega (arith, length-append (encode c) (encode_all cs), length-encode_pos c))
    ∙ ap counted (omega arith)

-- utf8_length of a text that encodes valid code points, of whatever widths, is their number.
pub utf8_length-encode_all :
    (cs : List ℕ) → All (λ c. c < 0x110000) cs → utf8_length (encode_all cs) ≡ counted (length cs)
unfolding utf8_length
utf8_length-encode_all cs h =
    utf8_loop-encode_all (length (encode_all cs)) cs 0 h (omega arith) ∙ ap counted (omega arith)

char_len_pos : (c w : ℕ) → char_len c ≡ some w → 0 < w
unfolding char_len
char_len_pos c w h = ground arith

utf8_loop-ends :
    (fuel : ℕ) (bs : Bytes) (len : ℕ) → length bs ≤ fuel → utf8_loop fuel bs len ≢ unfinished
unfolding utf8_loop
utf8_loop-ends zero [] len h = λ e. cc
utf8_loop-ends (suc fuel) [] len h = λ e. cc
utf8_loop-ends zero (c ∷ bs) len h = elim h [ ]
utf8_loop-ends (suc fuel) (c ∷ bs) len h = elim (Option-cases (char_len c)) [
  | inl n ↦ λ e. ground (arith, n)
  | inr (w, s) ↦
      rw (s, utf8_loop)
        (utf8_loop-ends fuel (drop w (c ∷ bs)) (len + 1)
          (omega (arith, length-drop w (c ∷ bs), char_len_pos c w s)))
]

-- The loop of utf8_length ends for every input, by its count or by its exception.
pub utf8_length_ends : (bs : Bytes) → utf8_length bs ≢ unfinished
unfolding utf8_length
utf8_length_ends bs = utf8_loop-ends _ bs 0 (omega arith)
