-- ===== src/Redis/Strings/Fields.antt =====
-- Strings in the database of `Redis.Memory`, for the tests: a field with the empty name.
use isolation_server.Common.{
  ◌≡◌, refl, false, [], ◌∷◌, arith, Bytes, bytes_eq, bytes_eq_iff, bytes_eq_refl, if◌then◌else◌,
  Bool-cases, inl, inr,
}
use isolation_server.Redis.Memory
use isolation_server.Redis.Memory.{
  memory, Fields, without_key, hget-without_key, exists-without_key,
}
use isolation_server.Redis.Strings.{Strings, StringLaws}

abbrev pub memory_strings : Strings memory
memory_strings = record {
  get = λ k m. Memory.hget k [] m;
  set = λ k v m. (k, [], v) ∷ without_key k m;
  flushall = λ m. [];
}

module _ (k k' : Bytes) (other : bytes_eq k k' ≡ false) where
  hexists-without_key :
      (f : Bytes) (m : Fields) → Memory.hexists k' f (without_key k m) ≡ Memory.hexists k' f m
  unfolding Memory.hexists
  hexists-without_key f m = rw (Memory.hexists, hget-without_key k k' f m, other) refl

  hlen-without_key : (m : Fields) → Memory.hlen k' (without_key k m) ≡ Memory.hlen k' m
  unfolding Memory.hlen without_key
  hlen-without_key [] = refl
  hlen-without_key ((j, i, u) ∷ m) = elim (Bool-cases (bytes_eq j k')) [
    | inl same ↦
        let e : j ≡ k' = (bytes_eq_iff j k').0 same in
        let here : bytes_eq j k ≡ false =
          ground (arith, e, other, bytes_eq_iff k k', bytes_eq_iff j k) in
        rw (here, e, hlen-without_key m, hexists-without_key i m) refl
    | inr different ↦ elim (Bool-cases (bytes_eq j k)) [
      | inl gone ↦ rw (gone, different) (hlen-without_key m)
      | inr kept ↦ rw (kept, different) (hlen-without_key m)
    ]
  ]

exists-replaced :
    (k k' : Bytes) (m : Fields)
    → (if bytes_eq k k' then 1 else Memory.exists k' (without_key k m))
      ≡ (if bytes_eq k k' then 1 else Memory.exists k' m)
exists-replaced k k' m = ground (arith, exists-without_key k k' m)

pub memory_strings-Laws : StringLaws memory_strings
unfolding Memory.exists Memory.hget Memory.hlen
memory_strings-Laws = record {
  get-set = λ k v m. rw (bytes_eq_refl k, bytes_eq_refl []) refl;
  exists-set = λ k v k' m. exists-replaced k k' m;
  hget-set = λ k v k' f m other. rw (other, hget-without_key k k' f m, other) refl;
  hlen-set = λ k v k' m other. rw (other, hlen-without_key k k' other m) refl;
  exists-flushall = λ k m. refl;
}
