-- ===== src/Pow/Refusal.antt =====
-- A solution that a verifier of src/pow.c has taken is refused when it is shown again.
use moor_pq.Base.{
  ℕ, ◌/◌, ◌≤◌, ◌<◌, ◌≡◌, ◌≢◌, ◌⊎◌, ◌∙◌, refl, sym, ap, true, false, Bool, List, [], ◌∷◌, length,
  get_or, arith, lt_or_le, inl, inr, ==_refl,
}
use mathlib.Core.Path.{subst}
use moor_pq.Sodium.{Sodium}
use moor_pq.Pow.{Argon, epoch_hash, timestamp_window, pow_verify}
use moor_pq.Pow.Cache.{
  Entry, blank_entry, Key, crowded, probe_loop, check_and_insert, nonce_cache_check_and_insert,
  word, relay_key, relay_slot, cache_size,
}
use moor_pq.Pow.Cache.Seeing.{Sees, sees→seen}
use moor_pq.Pow.Cache.Replay.{Quiet, Sees-key, new→sees, check_seen}
use moor_pq.Pow.Cache.Keeping.{Extends, Extends-trans, Sees-Extends, check_and_insert-Extends}
use moor_pq.Pow.Solve.{verify_lem}

-- A solution that is shown, with the clock when it comes in and when the cache is searched.
pub record Request : Type 0 where
  pub identity_pk : List ℕ
  pub nonce : ℕ
  pub timestamp : ℕ
  pub difficulty : ℕ
  pub memlimit : ℕ
  pub arrival : ℕ
  pub later : ℕ

module _ (na : Sodium) (argon : Argon) where
  verify_hard :
      (secret : List ℕ) (cache : List Entry) (pk : List ℕ)
      (nonce timestamp difficulty memlimit now later : ℕ)
      → 64 < difficulty
      → pow_verify na argon secret cache pk nonce timestamp difficulty memlimit now later
        ≡ (false, cache)
  unfolding pow_verify
  verify_hard secret cache pk nonce timestamp difficulty memlimit now later hard = ground arith

  -- What a verifier that takes a solution has done.
  pub verify_taken :
      (secret : List ℕ) (cache : List Entry) (pk : List ℕ)
      (nonce timestamp difficulty memlimit now later : ℕ)
      → 0 < difficulty
      → (pow_verify na argon secret cache pk nonce timestamp difficulty memlimit now later).0 ≡ true
      → let r =
          nonce_cache_check_and_insert secret cache nonce timestamp
            (word (epoch_hash na argon pk (timestamp / timestamp_window)))
            later in
        (difficulty ≤ 64)
        × (r.0 ≡ false)
        × ((pow_verify na argon secret cache pk nonce timestamp difficulty memlimit now later).1
            ≡ r.1)
  verify_taken secret cache pk nonce timestamp difficulty memlimit now later pos taken =
      elim (lt_or_le 64 difficulty) [
        | inl hard ↦ absurd (
            ground (
              arith,
              verify_hard secret cache pk nonce timestamp difficulty memlimit now later hard,
            ))
        | inr small ↦ ground (
          arith,
          verify_lem na argon secret cache pk nonce timestamp difficulty memlimit now later pos
              small,
        )
      ]

  -- A cache that has seen the solution decides.
  verify_seen :
      (secret : List ℕ) (cache : List Entry) (pk : List ℕ)
      (nonce timestamp difficulty memlimit now later : ℕ)
      → 0 < difficulty
      → difficulty ≤ 64
      → (nonce_cache_check_and_insert secret cache nonce timestamp
          (word (epoch_hash na argon pk (timestamp / timestamp_window)))
          later).0
        ≡ true
      → (pow_verify na argon secret cache pk nonce timestamp difficulty memlimit now later).0
        ≡ false
  verify_seen secret cache pk nonce timestamp difficulty memlimit now later pos small seen =
      ground (
        arith,
        verify_lem na argon secret cache pk nonce timestamp difficulty memlimit now later pos small,
      )

  module _ (secret : List ℕ) where
    abbrev pub verify : List Entry → Request → Bool × List Entry
    verify cache r =
        pow_verify na argon secret cache r.identity_pk r.nonce r.timestamp r.difficulty r.memlimit
          r.arrival r.later

    abbrev pub context_of : Request → ℕ
    context_of r = word (epoch_hash na argon r.identity_pk (r.timestamp / timestamp_window))

    abbrev pub key_of : Request → Key
    key_of r = relay_key r.nonce r.timestamp (context_of r) r.later

    abbrev pub slot_of : Request → ℕ
    slot_of r = relay_slot secret r.nonce r.timestamp (context_of r)

    -- At the time of a request no entry of the cache runs out, and one of its eight places is free or has it.
    abbrev pub IsCalm : List Entry → Request → Type 0
    IsCalm cache r =
        Quiet (key_of r) cache × ((probe_loop (key_of r) (slot_of r) 8 0 cache).0 ≢ crowded)

    -- The cache after some requests, and that they are calm.
    unfoldable pub verify_all : List Entry → List Request → List Entry
    verify_all cache [] = cache
    verify_all cache (r ∷ rs) = verify_all (verify cache r).1 rs

    unfoldable pub AllCalm : List Entry → List Request → Type 0
    AllCalm cache [] = Unit {0}
    AllCalm cache (r ∷ rs) = IsCalm cache r × AllCalm (verify cache r).1 rs

    verify_cache :
        (cache : List Entry) (r : Request)
        → ((verify cache r).1 ≡ cache)
          ⊎ ((verify cache r).1 ≡ (check_and_insert (key_of r) (slot_of r) cache).1)
    unfolding pow_verify nonce_cache_check_and_insert
    verify_cache cache r = ground arith

    verify-Extends :
        (cache : List Entry) (r : Request) → IsCalm cache r → Extends cache (verify cache r).1
    verify-Extends cache r (quiet, room) k used = elim (verify_cache cache r) [
      | inl same ↦ ap (λ c. get_or c k blank_entry) same
      | inr called ↦
          ap (λ c. get_or c k blank_entry) called
          ∙ check_and_insert-Extends (key_of r) (slot_of r) cache quiet room k used
    ]

    verify_all-Extends :
        (cache : List Entry) (rs : List Request)
        → AllCalm cache rs
        → Extends cache (verify_all cache rs)
    unfolding verify_all AllCalm
    verify_all-Extends cache [] calm k used = refl
    verify_all-Extends cache (r ∷ rs) (now, later) k used =
        Extends-trans cache (verify cache r).1 (verify_all (verify cache r).1 rs)
          (verify-Extends cache r now) (verify_all-Extends (verify cache r).1 rs later) k used

    pub nonce_cache-Sees :
        (cache : List Entry) (r : Request)
        → length cache ≡ cache_size
        → r.later ≢ 0
        → (check_and_insert (key_of r) (slot_of r) cache).0 ≡ false
        → Sees (key_of r) (slot_of r) (check_and_insert (key_of r) (slot_of r) cache).1 8 0
    nonce_cache-Sees cache r size started new =
        new→sees (key_of r) (slot_of r) cache (omega arith)
          (λ e. (started, simp (==_refl r.nonce, ==_refl r.timestamp, ==_refl (context_of r)) refl))
          size new

    -- A solution that a verifier has taken it refuses when it is shown again, at any later time and after any
    -- other solutions, if while they were shown, and when it is shown again, no entry of the cache has run out,
    -- and each of them found one of its eight places free or itself there. (PoW is on, and the clock does
    -- not stand at 0.) Without that, a later solution may take the place of this one.
    pub pow_verify_replay :
        (cache : List Entry) (r : Request) (between : List Request) (arrival' later' : ℕ)
        → length cache ≡ cache_size
        → r.later ≢ 0
        → 0 < r.difficulty
        → let (taken, cache') = verify cache r in
          let again = record r { arrival = arrival'; later = later' } in
          taken ≡ true
          → AllCalm cache' between
          → Quiet (key_of again) (verify_all cache' between)
          → (verify (verify_all cache' between) again).0 ≡ false
    unfolding nonce_cache_check_and_insert
    pow_verify_replay cache r between arrival' later' size started pos taken calm quiet =
        let again : Request = record r { arrival = arrival'; later = later' } in
        let after = verify_all (verify cache r).1 between in
        let (small, new, kept) =
          verify_taken secret cache r.identity_pk r.nonce r.timestamp r.difficulty r.memlimit
            r.arrival r.later pos taken in
        let sees =
          subst (λ c. Sees (key_of r) (slot_of r) c 8 0) (sym kept)
            (nonce_cache-Sees cache r size started new) in
        let sees' =
          Sees-key (key_of r) (key_of again) (slot_of r) 8 0 after (λ e. refl)
            (Sees-Extends (key_of r) (slot_of r) 8 0 (verify cache r).1 after
              (verify_all-Extends (verify cache r).1 between calm) sees) in
        verify_seen secret after r.identity_pk r.nonce r.timestamp r.difficulty r.memlimit arrival'
          later' pos small
          (ap (λ x. x.0)
            (check_seen (key_of again) (slot_of r) after
              (sees→seen (key_of again) (slot_of r) 8 0 after quiet sees')))
