-- ===== src/Sodium.antt =====
-- libsodium, which the program links against: the operations that it calls, with what their
-- documentation says of them. src/crypto.c wraps the first.
pub mod Toy
use moor_pq.Base.{ℕ, ◌<◌, ◌≡◌, ◌↔◌, Bool, true, List, length, All}

pub record Sodium : Type 0 where
  -- `crypto_generichash_blake2b(out, n, m, |m|, NULL, 0)`
  pub generichash : ℕ → List ℕ → List ℕ
  -- `sodium_memcmp(a, b, n) == 0`, of two arrays of n bytes
  pub memcmp : List ℕ → List ℕ → Bool
  pub length-generichash : (n : ℕ) (m : List ℕ) → length (generichash n m) ≡ n
  pub generichash-bytes : (n : ℕ) (m : List ℕ) → All (λ b. b < 256) (generichash n m)
  pub memcmp_iff : (a b : List ℕ) → (memcmp a b ≡ true) ↔ (a ≡ b)

-- `moor_crypto_hash`: BLAKE2b-256.
unfoldable pub crypto_hash : Sodium → List ℕ → List ℕ
crypto_hash na m = na.generichash 32 m

pub length-crypto_hash : (na : Sodium) (m : List ℕ) → length (crypto_hash na m) ≡ 32
unfolding crypto_hash
length-crypto_hash na m = na.length-generichash 32 m
