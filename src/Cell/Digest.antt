-- ===== src/Cell/Digest.antt =====
-- The running digest that a client and each hop keep of the cells between them.
use moor_pq.Base.{
  ℕ, ◌≡◌, ◌↔◌, refl, Bool, true, false, List, [], ◌∷◌, ◌++◌, All, length, length-take,
  length-write_at, length-zeros, take, drop, take_all, zeros, write_at, read-write_at,
  write_at-write_at, write_at-append_right, write_at_self, arith, if◌then◌else◌,
}
use moor_pq.Sodium.{Sodium, crypto_hash, length-crypto_hash}
use moor_pq.Cell.{relay_set_digest, relay_check_digest, cell_payload}

module _ (na : Sodium) (running : List ℕ) (size : length running ≡ 32) where
  -- What both sides hash: the payload with its digest field zeroed, behind the running digest.
  abbrev fresh : List ℕ → List ℕ
  fresh p = crypto_hash na (running ++ write_at 5 (zeros 4) p)

  set_digest_lem :
      (p : List ℕ)
      → length p ≡ cell_payload
      → relay_set_digest na p running ≡ (write_at 5 (take 4 (fresh p)) p, fresh p)
  unfolding relay_set_digest
  set_digest_lem p h =
      let z = length-write_at 5 (zeros 4) p (omega (arith, length-zeros 4)) in
      rw (
        take_all 32 running (omega arith),
        take_all 509 (write_at 5 (zeros 4) p) (omega (arith, z)),
        take_all 32 (fresh p)
            (omega (arith, length-crypto_hash na (running ++ write_at 5 (zeros 4) p))),
        write_at-write_at 5 (zeros 4) (take 4 (fresh p)) p
            (omega (
              arith,
              length-zeros 4,
              length-take 4 (fresh p),
              length-crypto_hash na (running ++ write_at 5 (zeros 4) p),
            ))
            (omega arith),
      )

  check_digest_lem :
      (p : List ℕ)
      → length p ≡ cell_payload
      → relay_check_digest na p running ≡ (
          if na.memcmp (take 4 (drop 5 p)) (take 4 (fresh p))
          then (true, fresh p)
          else (false, running))
  unfolding relay_check_digest
  check_digest_lem p h = rw (
    take_all 32 running (omega arith),
    take_all 509 p (omega arith),
    write_at-append_right 37 5 (zeros 4) running p (omega arith),
    take_all 32 (fresh p)
        (omega (arith, length-crypto_hash na (running ++ write_at 5 (zeros 4) p))),
  )

  length-stamp : (p : List ℕ) → length (take 4 (fresh p)) ≡ 4
  length-stamp p =
      omega
        (arith, length-take 4 (fresh p), length-crypto_hash na (running ++ write_at 5 (zeros 4) p))

  length-set_digest :
      (p : List ℕ) → length p ≡ cell_payload → length (relay_set_digest na p running).1 ≡ 32
  length-set_digest p h =
      rw (set_digest_lem p h) (length-crypto_hash na (running ++ write_at 5 (zeros 4) p))

  -- Stamping a payload does not change what is hashed.
  fresh-stamp :
      (p stamp : List ℕ)
      → length p ≡ cell_payload
      → length stamp ≡ 4
      → fresh (write_at 5 stamp p) ≡ fresh p
  fresh-stamp p stamp h e =
      rw (write_at-write_at 5 stamp (zeros 4) p (omega (arith, length-zeros 4)) (omega arith))

  -- A receiver with the sender's running digest takes the stamped payload, and moves to the same
  -- digest as the sender.
  pub check_digest-set_digest :
      (p : List ℕ)
      → length p ≡ cell_payload
      → relay_check_digest na (relay_set_digest na p running).0 running
        ≡ (true, (relay_set_digest na p running).1)
  check_digest-set_digest p h =
      let stamp = take 4 (fresh p) in
      let stamped = write_at 5 stamp p in
      ground (
        arith,
        set_digest_lem p h,
        length-stamp p,
        length-write_at 5 stamp p,
        check_digest_lem stamped,
        fresh-stamp p stamp h (length-stamp p),
        read-write_at 4 5 stamp p,
        na.memcmp_iff stamp stamp,
      )

  -- It takes exactly the payloads that stamping leaves as they are, and of any other it keeps its
  -- running digest.
  pub check_digest_iff :
      (p : List ℕ)
      → length p ≡ cell_payload
      → (((relay_check_digest na p running).0 ≡ true) ↔ ((relay_set_digest na p running).0 ≡ p))
        × ((relay_check_digest na p running).0 ≡ false
            → (relay_check_digest na p running).1 ≡ running)
  check_digest_iff p h = (
    (
      λ taken. ground (
        arith,
        set_digest_lem p h,
        check_digest_lem p h,
        na.memcmp_iff here stamp,
        write_at_self 4 5 p,
      ),
      λ same. ground (
        arith,
        set_digest_lem p h,
        check_digest_lem p h,
        na.memcmp_iff here stamp,
        read-write_at 4 5 stamp p,
        length-stamp p,
      ),
    ),
    λ refused. ground (arith, check_digest_lem p h),
  )
    where
      stamp : List ℕ
      stamp = take 4 (fresh p)

      here : List ℕ
      here = take 4 (drop 5 p)

module _ (na : Sodium) where
  -- A sender stamps payload after payload.
  pub stamp_all : List (List ℕ) → List ℕ → List (List ℕ) × List ℕ
  stamp_all [] running = ([], running)
  stamp_all (p ∷ ps) running =
      let (q, next) = relay_set_digest na p running in
      let (qs, last) = stamp_all ps next in (q ∷ qs, last)

  -- A receiver checks payload after payload, and stops at one that it refuses.
  pub check_all : List (List ℕ) → List ℕ → Bool × List ℕ
  check_all [] running = (true, running)
  check_all (q ∷ qs) running =
      let (ok, next) = relay_check_digest na q running in
      let rest = check_all qs next in if ok then rest else (false, next)

  -- Over a whole conversation: a receiver that starts from the sender's running digest
  -- takes every payload that the sender stamps in order, and ends with the sender's digest.
  pub check_all-stamp_all :
      (ps : List (List ℕ)) (running : List ℕ)
      → All (λ p. length p ≡ cell_payload) ps
      → length running ≡ 32
      → check_all (stamp_all ps running).0 running ≡ (true, (stamp_all ps running).1)
  unfolding stamp_all check_all
  check_all-stamp_all [] running sizes size = refl
  check_all-stamp_all (p ∷ ps) running sizes size =
      rw (check_digest-set_digest na running size p sizes.0) (
        check_all-stamp_all ps (relay_set_digest na p running).1 sizes.1
          (length-set_digest na running size p sizes.0))
