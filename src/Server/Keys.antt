-- ===== src/Server/Keys.antt =====
-- The keys of the server in redis, as std::format makes them, and when they are equal.
use isolation_server.Common.{
  ℕ, ◌≡◌, ◌≢◌, refl, ap, false, ◌++◌, ◌==◌, arith, Bytes, text, bytes_eq, bytes_eq_iff, to_string,
  to_string-injective, drop, inl, inr, Bool-cases,
}

unfoldable pub id_key : Bytes → Bytes
id_key id = text "id:" ++ id

unfoldable pub client_key : ℕ → Bytes
client_key token = text "client:" ++ to_string token

unfoldable pub logined_key : Bytes → Bytes
logined_key id = text "logined:" ++ id

pub id_key-injective : (a b : Bytes) → id_key a ≡ id_key b → a ≡ b
unfolding id_key
id_key-injective a b e = ap (drop 3) e

pub logined_key-injective : (a b : Bytes) → logined_key a ≡ logined_key b → a ≡ b
unfolding logined_key
logined_key-injective a b e = ap (drop 8) e

pub client_key-injective : (a b : ℕ) → client_key a ≡ client_key b → a ≡ b
unfolding client_key
client_key-injective a b e = to_string-injective a b (ap (drop 7) e)

bytes_ne : (a b : Bytes) → a ≢ b → bytes_eq a b ≡ false
bytes_ne a b h = elim (Bool-cases (bytes_eq a b)) [
  | inl e ↦ absurd (h ((bytes_eq_iff a b).0 e))
  | inr e ↦ e
]

pub client_key-ne : (a b : ℕ) → (a == b) ≡ false → bytes_eq (client_key a) (client_key b) ≡ false
client_key-ne a b h =
    bytes_ne _ _ (λ e. let same : a ≡ b = client_key-injective a b e in ground arith)

pub logined_key-eq : (a b : Bytes) → bytes_eq (logined_key a) (logined_key b) ≡ bytes_eq a b
unfolding logined_key bytes_eq
logined_key-eq a b = refl

pub id_key-eq : (a b : Bytes) → bytes_eq (id_key a) (id_key b) ≡ bytes_eq a b
unfolding id_key bytes_eq
id_key-eq a b = refl

-- Keys of two kinds are never equal: their first letters differ.
module _ (id : Bytes) (token : ℕ) where
  pub id-client : bytes_eq (id_key id) (client_key token) ≡ false
  unfolding id_key client_key bytes_eq
  id-client = refl

  pub client-id : bytes_eq (client_key token) (id_key id) ≡ false
  unfolding id_key client_key bytes_eq
  client-id = refl

  pub logined-client : bytes_eq (logined_key id) (client_key token) ≡ false
  unfolding logined_key client_key bytes_eq
  logined-client = refl

  pub client-logined : bytes_eq (client_key token) (logined_key id) ≡ false
  unfolding logined_key client_key bytes_eq
  client-logined = refl

module _ (a b : Bytes) where
  pub id-logined : bytes_eq (id_key a) (logined_key b) ≡ false
  unfolding id_key logined_key bytes_eq
  id-logined = refl

  pub logined-id : bytes_eq (logined_key a) (id_key b) ≡ false
  unfolding id_key logined_key bytes_eq
  logined-id = refl
