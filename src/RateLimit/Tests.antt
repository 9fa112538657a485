-- ===== src/RateLimit/Tests.antt =====
-- A table of two addresses, and instances of the theorems on the rate limiter.
use moor_pq.Base.{
  ℕ, zero, suc, ap, ◌+◌, ◌*◌, ◌≡◌, ◌≤◌, ◌≢◌, refl, true, List, [], ◌∷◌, min, arith, get_or,
}
use moor_pq.RateLimit.{Entry, Limiter, limits, limit_of, ratelimit_check, find_entry, same_string}
use moor_pq.RateLimit.Table.{IsLimiter, ratelimit_check-IsLimiter}
use moor_pq.RateLimit.Grants.{grants, grants_lem, available, available_in}
use moor_pq.RateLimit.Isolation.{ratelimit_check_other}

abbrev alice : List ℕ
alice = 49 ∷ 46 ∷ 49 ∷ []

abbrev bob : List ℕ
bob = 50 ∷ 46 ∷ 50 ∷ []

abbrev alice_entry : Entry
alice_entry = record { ip = alice; tokens = 5 ∷ 100 ∷ 0 ∷ 30 ∷ 1 ∷ 10 ∷ []; last_seen = 1000 }

abbrev bob_entry : Entry
bob_entry = record { ip = bob; tokens = limits; last_seen = 900 }

abbrev small_table : Limiter
small_table = record { entries = alice_entry ∷ bob_entry ∷ []; ready = true }

alice_bounded : (t : ℕ) → get_or alice_entry.tokens t 0 ≤ limit_of t
alice_bounded zero = omega arith
alice_bounded (suc zero) = omega arith
alice_bounded (suc (suc zero)) = omega arith
alice_bounded (suc (suc (suc zero))) = omega arith
alice_bounded (suc (suc (suc (suc zero)))) = omega arith
alice_bounded (suc (suc (suc (suc (suc zero))))) = omega arith
alice_bounded (suc (suc (suc (suc (suc (suc t)))))) = omega arith

small_table-IsLimiter : IsLimiter small_table
small_table-IsLimiter = record {
  size = omega arith;
  each = (
    record { buckets = refl; bounded = alice_bounded; address = omega arith },
    (record { buckets = refl; bounded = λ t. omega arith; address = omega arith }, tt),
  );
}

ratelimit_check-IsLimiter_example : IsLimiter (ratelimit_check small_table alice 0 1010 1010).1
ratelimit_check-IsLimiter_example =
    ratelimit_check-IsLimiter small_table alice 0 1010 1010 small_table-IsLimiter

-- Five tokens left: of eight requests five are let through, though nearly an hour passes.
grants_lem_example :
    grants (λ k. 4000 + k * 10) small_table alice 0 8 ≡ min 8 (available small_table alice 0)
grants_lem_example =
    grants_lem (λ k. 4000 + k * 10) small_table alice 0 8 small_table-IsLimiter refl (omega arith)
      (omega arith)

alice-available : available small_table alice 0 ≡ 5
unfolding available_in find_entry same_string
alice-available = refl

alice-ne-bob : alice ≢ bob
alice-ne-bob e = absurd (omega (arith, ap (λ s. get_or {A = ℕ} s 0 0) e))

ratelimit_check_other_example :
    available (ratelimit_check small_table alice 0 1010 1011).1 bob 3 ≡ available small_table bob 3
ratelimit_check_other_example =
    ratelimit_check_other small_table alice bob 0 3 1010 1011 alice-ne-bob (omega arith)
      (omega arith)
