-- ===== src/Sodium/Toy.antt =====
-- A stand-in for libsodium that computes, for tests: a checksum for the hash.
use moor_pq.Base.{
  ℕ, ◌+◌, ◌<◌, ◌≡◌, refl, Bool, true, false, ◌&&◌, List, [], ◌∷◌, u8, ◌==◌, ==_refl, replicate,
  length-replicate, All-replicate, arith,
}
use moor_pq.Sodium.{Sodium}

checksum : List ℕ → ℕ
checksum [] = 7
checksum (x ∷ xs) = u8 (x + 3 + checksum xs)

same_bytes : List ℕ → List ℕ → Bool
same_bytes [] [] = true
same_bytes [] (y ∷ ys) = false
same_bytes (x ∷ xs) [] = false
same_bytes (x ∷ xs) (y ∷ ys) = x == y && same_bytes xs ys

same_bytes_refl : (s : List ℕ) → same_bytes s s ≡ true
unfolding same_bytes
same_bytes_refl [] = refl
same_bytes_refl (x ∷ xs) = simp (==_refl x, same_bytes_refl xs) refl

same_bytes→eq : (a b : List ℕ) → same_bytes a b ≡ true → a ≡ b
unfolding same_bytes
same_bytes→eq [] [] h = refl
same_bytes→eq [] (y ∷ ys) h = cc
same_bytes→eq (x ∷ xs) [] h = cc
same_bytes→eq (x ∷ xs) (y ∷ ys) h = ground (arith, same_bytes→eq xs ys)

pub toy_sodium : Sodium
toy_sodium = record {
  generichash = λ n m. replicate n (u8 (checksum m));
  memcmp = same_bytes;
  length-generichash = λ n m. length-replicate n (u8 (checksum m));
  generichash-bytes = λ n m. All-replicate (λ b. b < 256) n (u8 (checksum m)) (omega arith);
  memcmp_iff = λ a b. (λ h. same_bytes→eq a b h, λ e. rw e (same_bytes_refl b));
}
