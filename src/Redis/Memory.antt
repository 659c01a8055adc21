-- ===== src/Redis/Memory.antt =====
-- A database as a list of fields, newest first, without timeouts: an instance of the interface, for the tests.
use isolation_server.Common.{
  ℕ, ◌==◌, ◌+◌, not, ◌<◌, ◌≡◌, refl, Bool, true, false, ◌&&◌, List, [], ◌∷◌, Option, none, some,
  arith, Bytes, bytes_eq, bytes_eq_iff, if◌then◌else◌,
}
use isolation_server.Redis.{Redis, Laws}

abbrev pub Fields : Type 0
Fields = List (Bytes × Bytes × Bytes)

unfoldable pub exists : Bytes → Fields → ℕ
exists k [] = 0
exists k ((j, i, u) ∷ m) = if bytes_eq j k then 1 else exists k m

unfoldable pub hget : Bytes → Bytes → Fields → Option Bytes
hget k f [] = none
hget k f ((j, i, u) ∷ m) = if bytes_eq j k && bytes_eq i f then some u else hget k f m

unfoldable pub hset : Bytes → Bytes → Bytes → Fields → Bool × Fields
hset k f v m = (elim (hget k f m) [ none ↦ true | some u ↦ false ], (k, f, v) ∷ m)

unfoldable pub without_key : Bytes → Fields → Fields
without_key k [] = []
without_key k ((j, i, u) ∷ m) =
    let rest = without_key k m in if bytes_eq j k then rest else (j, i, u) ∷ rest

unfoldable pub without_field : Bytes → Bytes → Fields → Fields
without_field k f [] = []
without_field k f ((j, i, u) ∷ m) =
    let rest = without_field k f m in
    if bytes_eq j k && bytes_eq i f then rest else (j, i, u) ∷ rest

unfoldable pub hexists : Bytes → Bytes → Fields → Bool
hexists k f m = elim (hget k f m) [ none ↦ false | some u ↦ true ]

-- An entry counts where no entry behind it is of the same field.
unfoldable pub hlen : Bytes → Fields → ℕ
unfolding hexists
hlen k [] = 0
hlen k ((j, i, u) ∷ m) =
    let rest = hlen k m in if bytes_eq j k && not (hexists j i m) then rest + 1 else rest

abbrev pub memory : Redis
memory = record {
  Database = Fields;
  exists = exists;
  del = λ k m. (exists k m, without_key k m);
  persist = λ k m. (false, m);
  hget = hget;
  hset = hset;
  hdel = λ k f m. (elim (hget k f m) [ none ↦ 0 | some u ↦ 1 ], without_field k f m);
  hexists = hexists;
  hlen = hlen;
  expire = λ k t m. (true, if t == 0 then without_key k m else m);
}

exists-hget : (k f v : Bytes) (m : Fields) → hget k f m ≡ some v → 0 < exists k m
unfolding exists hget
exists-hget k f v [] h = cc
exists-hget k f v ((j, i, u) ∷ m) h = ground (arith, exists-hget k f v m)

hget-without_field :
    (k f k' f' : Bytes) (m : Fields)
    → hget k' f' (without_field k f m)
      ≡ (if bytes_eq k k' && bytes_eq f f' then none else hget k' f' m)
unfolding hget without_field
hget-without_field k f k' f' [] = ground arith
hget-without_field k f k' f' ((j, i, u) ∷ m) = ground (
  arith,
  hget-without_field k f k' f' m,
  bytes_eq_iff j k,
  bytes_eq_iff i f,
  bytes_eq_iff j k',
  bytes_eq_iff i f',
  bytes_eq_iff k k',
  bytes_eq_iff f f',
)

pub hget-without_key :
    (k k' f' : Bytes) (m : Fields)
    → hget k' f' (without_key k m) ≡ (if bytes_eq k k' then none else hget k' f' m)
unfolding hget without_key
hget-without_key k k' f' [] = ground arith
hget-without_key k k' f' ((j, i, u) ∷ m) =
    ground
      (arith, hget-without_key k k' f' m, bytes_eq_iff j k, bytes_eq_iff j k', bytes_eq_iff k k')

pub exists-without_key :
    (k k' : Bytes) (m : Fields)
    → exists k' (without_key k m) ≡ (if bytes_eq k k' then 0 else exists k' m)
unfolding exists without_key
exists-without_key k k' [] = ground arith
exists-without_key k k' ((j, i, u) ∷ m) =
    ground
      (arith, exists-without_key k k' m, bytes_eq_iff j k, bytes_eq_iff j k', bytes_eq_iff k k')

exists-without_field :
    (k f k' : Bytes) (m : Fields)
    → bytes_eq k k' ≡ false
    → exists k' (without_field k f m) ≡ exists k' m
unfolding exists without_field
exists-without_field k f k' [] h = refl
exists-without_field k f k' ((j, i, u) ∷ m) h =
    ground (
      arith,
      exists-without_field k f k' m h,
      bytes_eq_iff j k,
      bytes_eq_iff j k',
      bytes_eq_iff k k',
    )

nonzero : (t : ℕ) → 0 < t → (t == 0) ≡ false
nonzero t h = ground (arith, h)

pub memory-Laws : Laws memory
unfolding exists hget hset hexists hlen
memory-Laws = record {
  exists-hget = exists-hget;
  hget-hset = λ k f v k' f' m. refl;
  hget-hdel = hget-without_field;
  hget-del = hget-without_key;
  hget-persist = λ k k' f' m. refl;
  exists-hset = λ k f v k' m. refl;
  exists-hdel = exists-without_field;
  exists-del = exists-without_key;
  exists-persist = λ k k' m. refl;
  hexists-hget = λ k f m. refl;
  hlen-hset = λ k f v k' m. refl;
  hget-expire = λ k k' f t m h. rw (nonzero t h) refl;
  exists-expire = λ k k' t m h. rw (nonzero t h) refl;
  hlen-expire = λ k k' t m h. rw (nonzero t h) refl;
  hlen-persist = λ k k' m. refl;
}
