-- ===== src/Pow/Solve.antt =====
-- What a solver of src/pow.c finds is what a verifier takes, while it is fresh and new.
use moor_pq.Base.{
  ℕ, zero, suc, ◌+◌, ◌/◌, ◌≤◌, ◌<◌, ◌≡◌, ◌↔◌, refl, true, false, not, ◌&&◌, Option, none, some,
  List, ◌++◌, take, if◌then◌else◌, u64, arith, Bool-cases, Option-cases, lt_or_le, inl, inr,
}
use moor_pq.Sodium.{Sodium}
use moor_pq.Pow.{
  Argon, bytes_of, has_leading_zeros, resolve_memlimit, pow_timestamp_is_fresh, timestamp_window,
  max_iters, epoch_hash, derive_epoch_salt, solve_loop, pow_solve, solves, pow_verify,
}
use moor_pq.Pow.Cache.{Entry, nonce_cache_check_and_insert, word}

-- A timestamp of the past is fresh exactly when it is at most 300 seconds old: there the test of
-- the epochs refuses nothing more.
pub pow_timestamp_is_fresh_iff :
    (timestamp now : ℕ)
    → timestamp ≤ now
    → (pow_timestamp_is_fresh timestamp now ≡ true) ↔ (now ≤ timestamp + timestamp_window)
unfolding pow_timestamp_is_fresh
pow_timestamp_is_fresh_iff timestamp now past = ground arith

module _ (na : Sodium) (argon : Argon) where
  solves_hash :
      (passwd salt : List ℕ) (difficulty memlimit : ℕ) (hash : List ℕ)
      → argon.pwhash passwd salt memlimit ≡ some hash
      → has_leading_zeros hash difficulty ≡ true
      → solves na argon passwd salt memlimit difficulty ≡ true
  solves_hash passwd salt difficulty memlimit hash hashed found = ground arith

  solve_loop-solves :
      (passwd : ℕ → List ℕ) (salt : List ℕ) (difficulty memlimit iters start nonce : ℕ)
      → solve_loop na argon passwd salt difficulty memlimit iters start ≡ some nonce
      → solves na argon (passwd nonce) salt memlimit difficulty ≡ true
  unfolding solve_loop
  solve_loop-solves passwd salt difficulty memlimit zero start nonce e = absurd (ground arith)
  solve_loop-solves passwd salt difficulty memlimit (suc iters) start nonce e =
      elim (Option-cases (argon.pwhash (passwd start) salt memlimit)) [
        | inl failed ↦ absurd (ground arith)
        | inr (hash, hashed) ↦ elim (Bool-cases (has_leading_zeros hash difficulty)) [
          | inl found ↦
              let same : nonce ≡ start = ground arith in
              rw same (solves_hash (passwd start) salt difficulty memlimit hash hashed found)
          | inr more ↦
              let ih =
                solve_loop-solves passwd salt difficulty memlimit iters (u64 (start + 1)) nonce in
              ground arith
        ]
      ]

  -- Parts of `pow_verify`, for a difficulty from 1 to 64.
  pub verify_lem :
      (secret : List ℕ) (cache : List Entry) (pk : List ℕ)
      (nonce timestamp difficulty memlimit now later : ℕ)
      → 0 < difficulty
      → difficulty ≤ 64
      → let salt_full = epoch_hash na argon pk (timestamp / timestamp_window) in
        let r = nonce_cache_check_and_insert secret cache nonce timestamp (word salt_full) later in
        pow_verify na argon secret cache pk nonce timestamp difficulty memlimit now later ≡ (
          if pow_timestamp_is_fresh timestamp now
            && solves na argon
                (bytes_of nonce ++ bytes_of timestamp)
                (take 16 salt_full)
                (resolve_memlimit memlimit)
                difficulty
          then (not r.0, r.1)
          else (false, cache))
  unfolding pow_verify
  verify_lem secret cache pk nonce timestamp difficulty memlimit now later pos small = ground arith

  -- What the solver searches, and what it makes of the outcome.
  abbrev search : List ℕ → ℕ → ℕ → ℕ → ℕ → Option ℕ
  search pk difficulty memlimit now random =
      solve_loop na argon (λ nonce. bytes_of nonce ++ bytes_of now)
        (take 16 (epoch_hash na argon pk (now / timestamp_window))) difficulty
        (resolve_memlimit memlimit) (max_iters difficulty) random

  module _ (pk : List ℕ) (difficulty memlimit now random : ℕ) where
    solve_refused : 64 < difficulty → pow_solve na argon pk difficulty memlimit now random ≡ none
    unfolding pow_solve
    solve_refused hard = ground arith

    solve_nothing :
        difficulty ≤ 64
        → search pk difficulty memlimit now random ≡ none
        → pow_solve na argon pk difficulty memlimit now random ≡ none
    unfolding pow_solve derive_epoch_salt
    solve_nothing small nothing = ground arith

    solve_found :
        difficulty ≤ 64
        → (n : ℕ) → search pk difficulty memlimit now random ≡ some n
        → pow_solve na argon pk difficulty memlimit now random ≡ some (n, now)
    unfolding pow_solve derive_epoch_salt
    solve_found small n found = ground arith

  solve_lem :
      (pk : List ℕ) (difficulty memlimit now random nonce timestamp : ℕ)
      → pow_solve na argon pk difficulty memlimit now random ≡ some (nonce, timestamp)
      → (difficulty ≤ 64)
        × (timestamp ≡ now)
        × (solves na argon
              (bytes_of nonce ++ bytes_of now)
              (take 16 (epoch_hash na argon pk (now / timestamp_window)))
              (resolve_memlimit memlimit)
              difficulty
            ≡ true)
  solve_lem pk difficulty memlimit now random nonce timestamp e = elim (lt_or_le 64 difficulty) [
    | inl hard ↦ absurd (ground (arith, solve_refused pk difficulty memlimit now random hard))
    | inr small ↦ elim (Option-cases (search pk difficulty memlimit now random)) [
      | inl nothing ↦
          absurd (ground (arith, solve_nothing pk difficulty memlimit now random small nothing))
      | inr (n, found) ↦
          let got = solve_found pk difficulty memlimit now random small n found in
          let same : nonce ≡ n = ground arith in
          (
            small,
            ground arith,
            rw same (
                solve_loop-solves (λ nonce. bytes_of nonce ++ bytes_of now) _ difficulty _ _ random
                  n found),
          )
    ]
  ]

  -- A solution that was found, with PoW on, is taken by a verifier within 300 seconds, unless its cache says
  -- that it was seen: the verifier's answer is the cache's.
  pub pow_verify-pow_solve :
      (secret : List ℕ) (cache : List Entry) (pk : List ℕ)
      (difficulty memlimit now random nonce timestamp arrival later : ℕ)
      → pow_solve na argon pk difficulty memlimit now random ≡ some (nonce, timestamp)
      → 0 < difficulty
      → now ≤ arrival
      → arrival ≤ now + timestamp_window
      → let ctx = word (epoch_hash na argon pk (timestamp / timestamp_window)) in
        let (seen, cache') = nonce_cache_check_and_insert secret cache nonce timestamp ctx later in
        pow_verify na argon secret cache pk nonce timestamp difficulty memlimit arrival later
        ≡ (not seen, cache')
  pow_verify-pow_solve secret cache pk difficulty memlimit now random nonce timestamp arrival later
        e pos after fresh =
      let (small, same, solved) = solve_lem pk difficulty memlimit now random nonce timestamp e in
      rw
        (
          same,
          verify_lem secret cache pk nonce now difficulty memlimit arrival later pos small,
          (pow_timestamp_is_fresh_iff now arrival after).1 fresh,
          solved,
        )
        refl
