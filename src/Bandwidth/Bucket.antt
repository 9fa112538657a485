-- ===== src/Bandwidth/Bucket.antt =====
-- The token bucket of the byte budget in src/ratelimit.c.
use moor_pq.Base.{
  ℕ, ◌+◌, ◌-◌, ◌*◌, ◌^◌, ◌≤◌, ◌<◌, ◌≡◌, false, ltb, ◌==◌, if◌then◌else◌, u64, sub_u64, min, arith,
  lt_or_le, inl, inr, refl,
}
use native.Mathlib.Nat.{mul-div_cancel, mul-le-mul_left}
use moor_pq.Bandwidth.{
  Accounting, bw_accounting_init, bw_accounting_charge, bw_accounting_check_period,
  bw_accounting_refill, charge_bucket, add_tokens,
}

-- The bucket holds no more than its burst.
abbrev pub IsBucket : Accounting → Type 0
IsBucket acc = acc.bucket_tokens ≤ acc.burst_limit

-- No operation lets the bucket hold more than the burst, whatever the clock reads and whatever
-- wraps around: not the start, a charge, the turn of a period or a refill.
pub operations-IsBucket :
    (acc : Accounting) (bytes now limit period rate : ℕ)
    → IsBucket acc
    → IsBucket (bw_accounting_init limit period rate now)
      × IsBucket (bw_accounting_charge acc bytes).1
      × IsBucket (bw_accounting_check_period acc now)
      × IsBucket (bw_accounting_refill acc now)
unfolding bw_accounting_init bw_accounting_charge charge_bucket bw_accounting_check_period
    bw_accounting_refill add_tokens
operations-IsBucket acc bytes now limit period rate h = ground arith

add_tokens_lem :
    (acc : Accounting) (elapsed now : ℕ)
    → 0 < elapsed
    → acc.rate_limit_bps * elapsed + acc.bucket_tokens < 2 ^ 64
    → (add_tokens acc elapsed now).bucket_tokens
      ≡ min acc.burst_limit (acc.bucket_tokens + acc.rate_limit_bps * elapsed)
unfolding add_tokens
add_tokens_lem acc elapsed now pos room =
    let product : u64 (acc.rate_limit_bps * elapsed) ≡ acc.rate_limit_bps * elapsed = omega arith in
    rw (product, mul-div_cancel acc.rate_limit_bps pos) (ground arith)

refill_due :
    (acc : Accounting) (now elapsed : ℕ)
    → sub_u64 now acc.last_refill ≡ elapsed
    → 0 < elapsed
    → 0 < acc.rate_limit_bps
    → bw_accounting_refill acc now ≡ add_tokens acc (min elapsed 3600) now
unfolding bw_accounting_refill
refill_due acc now elapsed e pos rated =
    let rate : (acc.rate_limit_bps == 0) ≡ false = ground arith in
    let due : (elapsed == 0) ≡ false = ground arith in
    let capped : (if ltb 3600 elapsed then 3600 else elapsed) ≡ min elapsed 3600 = ground arith in
    simp (e, rate, due, capped) refl

refill_unlimited :
    (acc : Accounting) (now : ℕ) → acc.rate_limit_bps ≡ 0 → bw_accounting_refill acc now ≡ acc
unfolding bw_accounting_refill
refill_unlimited acc now e = ground arith

refill_idle :
    (acc : Accounting) (now : ℕ)
    → sub_u64 now acc.last_refill ≡ 0
    → bw_accounting_refill acc now ≡ acc
unfolding bw_accounting_refill
refill_idle acc now e = ground arith

-- A refill adds the rate for every second since the last, for an hour at most, and stops at the
-- burst: where the bucket and an hour's worth of the rate stay below 2^64.
pub bw_accounting_refill_lem :
    (acc : Accounting) (now : ℕ)
    → acc.last_refill ≤ now
    → now < 2 ^ 64
    → acc.rate_limit_bps * 3600 + acc.bucket_tokens < 2 ^ 64
    → IsBucket acc
    → (bw_accounting_refill acc now).bucket_tokens
      ≡ min acc.burst_limit
          (acc.bucket_tokens + acc.rate_limit_bps * min (now - acc.last_refill) 3600)
bw_accounting_refill_lem acc now order small room bucket = elim (lt_or_le 0 acc.rate_limit_bps) [
  | inr unlimited ↦
      let none_added : acc.rate_limit_bps * min (now - acc.last_refill) 3600 ≡ 0 =
        let e : acc.rate_limit_bps ≡ 0 = omega arith in simp e (omega arith) in
      rw (refill_unlimited acc now (omega arith)) (omega (arith, none_added))
  | inl rated ↦ elim (lt_or_le acc.last_refill now) [
    | inr same ↦
        let none_added : acc.rate_limit_bps * min (now - acc.last_refill) 3600 ≡ 0 =
          let e : now - acc.last_refill ≡ 0 = omega arith in simp e (omega arith) in
        rw (refill_idle acc now (omega arith)) (omega (arith, none_added))
    | inl due ↦ rw (refill_due acc now (now - acc.last_refill) (omega arith) (omega arith) rated) (
        add_tokens_lem acc (min (now - acc.last_refill) 3600) now (omega arith) (
          omega (
            arith,
            mul-le-mul_left {m = min (now - acc.last_refill) 3600} {n = 3600} acc.rate_limit_bps
                (omega arith),
          )))
  ]
]
