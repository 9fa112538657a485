-- ===== src/Pow.antt =====
-- src/pow.c: proof of work with Argon2id, for relays and for the introduction to a hidden service,
-- and the caches that refuse a solution that was shown before.
pub mod Cache
pub mod Zeros
pub mod Solve
pub mod Refusal
mod Tests
use moor_pq.Base.{
  ℕ, zero, suc, ◌+◌, ◌-◌, ◌*◌, ◌/◌, ◌%◌, ◌^◌, Bool, true, false, not, ◌&&◌, ◌||◌, Option, none,
  some, List, [], ◌∷◌, ◌++◌, length, get_or, take, ltb, leb, ◌==◌, if◌then◌else◌, u8, u32, u64,
  ◌<<<◌, ◌>>>◌, bit_and,
}
use moor_pq.Sodium.{Sodium, crypto_hash}
use moor_pq.Pow.Cache.{Entry, nonce_cache_check_and_insert, hs_nonce_cache_check_and_insert, word}

abbrev pub timestamp_window : ℕ
timestamp_window = 300

-- `crypto_pwhash(out, 32, passwd, len, salt, 1, memlimit, ARGON2ID13)` of libsodium; `none` where it
-- fails.
pub record Argon : Type 0 where
  pub pwhash : List ℕ → List ℕ → ℕ → Option (List ℕ)

-- The bytes of a uint64_t in memory, on a little-endian host.
abbrev pub bytes_of : ℕ → List ℕ
bytes_of n =
    u8 n
    ∷ u8 (n >>> 8)
    ∷ u8 (n >>> 16)
    ∷ u8 (n >>> 24)
    ∷ u8 (n >>> 32)
    ∷ u8 (n >>> 40)
    ∷ u8 (n >>> 48)
    ∷ u8 (n >>> 56)
    ∷ []

-- Most significant first.
abbrev pub put64 : ℕ → List ℕ
put64 n =
    u8 (n >>> 56)
    ∷ u8 (n >>> 48)
    ∷ u8 (n >>> 40)
    ∷ u8 (n >>> 32)
    ∷ u8 (n >>> 24)
    ∷ u8 (n >>> 16)
    ∷ u8 (n >>> 8)
    ∷ u8 n
    ∷ []

-- The loop over whole bytes in `has_leading_zeros`.
unfoldable pub zero_bytes : ℕ → List ℕ → Bool
zero_bytes zero hash = true
zero_bytes (suc n) [] = true
zero_bytes (suc n) (b ∷ hash) = b == 0 && zero_bytes n hash

-- `has_leading_zeros`, where `bits` is not negative.
unfoldable pub has_leading_zeros : List ℕ → ℕ → Bool
unfolding zero_bytes
has_leading_zeros hash bits =
    if bits == 0
    then true
    else if ltb (length hash * 8) bits
    then false
    else if not (zero_bytes (bits / 8) hash)
    then false
    else if ltb 0 (bits % 8) && ltb (bits / 8) (length hash)
    then bit_and (get_or hash (bits / 8) 0) (u8 (255 <<< (8 - bits % 8))) == 0
    else true

pub resolve_memlimit : ℕ → ℕ
resolve_memlimit memlimit =
    if memlimit == 0
    then 262144
    else if ltb memlimit 8192
    then 8192
    else if ltb 67108864 memlimit
    then 67108864
    else memlimit

-- `moor_pow_timestamp_is_fresh`
unfoldable pub pow_timestamp_is_fresh : ℕ → ℕ → Bool
pow_timestamp_is_fresh timestamp now =
    if ltb now timestamp && ltb 60 (timestamp - now)
    then false
    else if ltb timestamp now && ltb timestamp_window (now - timestamp)
    then false
    else let solution_epoch = timestamp / timestamp_window in
      let current_epoch = now / timestamp_window in
      solution_epoch == current_epoch || ltb 0 current_epoch && solution_epoch == current_epoch - 1

-- `shift` and `max_iters` of the two solvers.
abbrev pub max_iters : ℕ → ℕ
max_iters difficulty = 2 ^ (if ltb difficulty 24 then difficulty + 4 else 28)

module _ (na : Sodium) (argon : Argon) where
  -- The whole hash from which `derive_epoch_salt` takes the salt.
  pub epoch_hash : List ℕ → ℕ → List ℕ
  epoch_hash identity_pk epoch = crypto_hash na (take 32 identity_pk ++ put64 epoch)

  pub derive_epoch_salt : List ℕ → ℕ → List ℕ
  unfolding epoch_hash
  derive_epoch_salt identity_pk epoch = take 16 (epoch_hash identity_pk epoch)

  -- The loop of the solvers, with `iters` rounds to go; `passwd` makes the password of a nonce.
  unfoldable pub solve_loop : (ℕ → List ℕ) → List ℕ → ℕ → ℕ → ℕ → ℕ → Option ℕ
  solve_loop passwd salt difficulty memlimit zero nonce = none
  solve_loop passwd salt difficulty memlimit (suc iters) nonce =
      let rest = solve_loop passwd salt difficulty memlimit iters (u64 (nonce + 1)) in
      elim (argon.pwhash (passwd nonce) salt memlimit) [
        | none ↦ none
        | some hash ↦
            if has_leading_zeros hash difficulty
            then some nonce
            else if u64 (nonce + 1) == 0
            then none
            else rest
      ]

  -- `moor_pow_solve`, at the time `now` and with the drawn nonce `random`: the nonce and timestamp.
  -- `difficulty` is the bit pattern of an int.
  unfoldable pub pow_solve : List ℕ → ℕ → ℕ → ℕ → ℕ → Option (ℕ × ℕ)
  unfolding derive_epoch_salt solve_loop
  pow_solve identity_pk difficulty memlimit now random =
      if ltb 64 difficulty
      then none
      else elim (solve_loop (λ nonce. bytes_of nonce ++ bytes_of now)
          (derive_epoch_salt identity_pk (now / timestamp_window)) difficulty
          (resolve_memlimit memlimit) (max_iters difficulty) random) [
            | none ↦ none
            | some nonce ↦ some (nonce, now)
          ]

  -- The hash of a solution, and whether it has the zeros that are asked for.
  abbrev pub solves : List ℕ → List ℕ → ℕ → ℕ → Bool
  solves passwd salt memlimit difficulty = elim (argon.pwhash passwd salt memlimit) [
    | none ↦ false
    | some hash ↦ has_leading_zeros hash difficulty
  ]

  -- `moor_pow_verify`; `true` stands for 0 and `false` for -1. `secret` is the key of the cache, and
  -- `later` what the second call of `time` returns.
  pub pow_verify : List ℕ → List Entry → List ℕ → ℕ → ℕ → ℕ → ℕ → ℕ → ℕ → Bool × List Entry
  unfolding epoch_hash
  pow_verify secret cache identity_pk nonce timestamp difficulty memlimit now later =
      if ltb 64 difficulty
      then (false, cache)
      else if difficulty == 0
      then (true, cache)
      else if not (pow_timestamp_is_fresh timestamp now)
      then (false, cache)
      else let salt_full = epoch_hash identity_pk (timestamp / timestamp_window) in
        let ok =
          solves (bytes_of nonce ++ bytes_of timestamp) (take 16 salt_full)
            (resolve_memlimit memlimit) difficulty in
        let (seen, cache') =
          nonce_cache_check_and_insert secret cache nonce timestamp (word salt_full) later in
        if not ok then (false, cache) else (not seen, cache')

  -- `moor_pow_solve_hs`
  pub pow_solve_hs : List ℕ → List ℕ → ℕ → ℕ → Option ℕ
  unfolding solve_loop
  pow_solve_hs seed service_pk difficulty memlimit =
      if ltb 64 difficulty
      then none
      else solve_loop (λ nonce. take 32 service_pk ++ bytes_of nonce) (take 16 seed) difficulty
          (resolve_memlimit memlimit) (max_iters difficulty) 0

  -- `moor_pow_verify_hs`
  pub pow_verify_hs : List Entry → List ℕ → List ℕ → ℕ → ℕ → ℕ → ℕ → Bool × List Entry
  pow_verify_hs cache seed service_pk nonce difficulty memlimit now =
      if ltb 64 difficulty
      then (false, cache)
      else if difficulty == 0
      then (true, cache)
      else let ok =
          solves (take 32 service_pk ++ bytes_of nonce) (take 16 seed) (resolve_memlimit memlimit)
            difficulty in
        let (seen, cache') =
          hs_nonce_cache_check_and_insert cache nonce (word seed) (word service_pk) now in
        if not ok then (false, cache) else (not seen, cache')
