-- ===== src/Bandwidth/Budget.antt =====
-- The budget of an accounting period in src/ratelimit.c.
use moor_pq.Base.{
  ℕ, ◌+◌, ◌^◌, ◌≤◌, ◌<◌, ◌≡◌, true, false, List, [], ◌∷◌, ltb, leb, if◌then◌else◌, arith, lt_or_le,
  inl, inr, refl, ap₂, ◌∙◌,
}
use moor_pq.Bandwidth.{Accounting, bw_accounting_charge, bw_accounting_check_period, charge_bucket}

-- The bytes that were let through, of charges made one after another.
unfoldable pub charged : Accounting → List ℕ → ℕ
charged acc [] = 0
charged acc (bytes ∷ rest) =
    let (granted, acc') = bw_accounting_charge acc bytes in
    let later = charged acc' rest in if granted then bytes + later else later

unfoldable pub sum : List ℕ → ℕ
sum [] = 0
sum (x ∷ xs) = x + sum xs

-- The accounting after these charges.
unfoldable pub after_charges : Accounting → List ℕ → Accounting
after_charges acc [] = acc
after_charges acc (bytes ∷ rest) = after_charges (bw_accounting_charge acc bytes).1 rest

-- The charges before the first that reaches the budget.
unfoldable pub sum_below : ℕ → ℕ → List ℕ → ℕ
sum_below used limit [] = 0
sum_below used limit (x ∷ xs) =
    let later = sum_below (used + x) limit xs in if ltb (used + x) limit then x + later else 0

hibernates :
    (acc : Accounting) (bytes : List ℕ)
    → acc.hibernating ≡ true
    → (charged acc bytes ≡ 0) × ((after_charges acc bytes).hibernating ≡ true)
unfolding charged after_charges bw_accounting_charge
hibernates acc [] h = (refl, h)
hibernates acc (x ∷ xs) h = simp h (hibernates acc xs h)

charge_cases :
    (acc : Accounting) (bytes : ℕ)
    → acc.hibernating ≡ false
    → 0 < acc.bytes_limit
    → acc.bytes_used + bytes < 2 ^ 64
    → let (granted, acc') = bw_accounting_charge acc bytes in
      (acc'.bytes_limit ≡ acc.bytes_limit)
      × (acc'.bytes_used ≡ acc.bytes_used + bytes)
      × (granted ≡ ltb (acc.bytes_used + bytes) acc.bytes_limit)
      × (acc'.hibernating ≡ leb acc.bytes_limit (acc.bytes_used + bytes))
unfolding bw_accounting_charge charge_bucket
charge_cases acc bytes awake limited small = ground arith

-- In one period, of a relay with a budget that does not hibernate, and of charges of which the sum stays below
-- 2^64 with what was used before: the charges before the one with which the use reaches the budget are
-- let through, and none from that one on, however small; with what was used before they are fewer
-- bytes than the budget. The relay hibernates in the end exactly when the budget was reached.
pub charged_bound :
    (acc : Accounting) (charges : List ℕ)
    → acc.hibernating ≡ false
    → acc.bytes_used < acc.bytes_limit
    → acc.bytes_used + sum charges < 2 ^ 64
    → (charged acc charges ≡ sum_below acc.bytes_used acc.bytes_limit charges)
      × (acc.bytes_used + charged acc charges < acc.bytes_limit)
      × ((after_charges acc charges).hibernating
          ≡ leb acc.bytes_limit (acc.bytes_used + sum charges))
unfolding charged after_charges sum_below sum
charged_bound acc [] awake under small = (refl, omega arith, ground arith)
charged_bound acc (x ∷ xs) awake under small =
    let acc' = (bw_accounting_charge acc x).1 in
    let (limit, used, granted, sleeps) = charge_cases acc x awake (omega arith) (omega arith) in
    elim (lt_or_le (acc.bytes_used + x) acc.bytes_limit) [
      | inl more ↦
          let (same, below, asleep) =
            charged_bound acc' xs (ground arith) (omega arith) (omega arith) in
          let same' : charged acc' xs ≡ sum_below (acc.bytes_used + x) acc.bytes_limit xs =
            same ∙ ap₂ (λ u l. sum_below u l xs) used limit in
          let asleep' : (after_charges acc' xs).hibernating
              ≡ leb acc.bytes_limit (acc.bytes_used + x + sum xs) =
            asleep ∙ ap₂ (λ u l. leb l (u + sum xs)) used limit in
          (ground arith, ground arith, ground arith)
      | inr full ↦
          let (nothing, asleep) = hibernates acc' xs (ground arith) in
          (ground arith, ground arith, ground arith)
    ]

-- The turn of a period ends hibernation and clears what was used, and nothing else does: before
-- it, the check changes nothing.
pub bw_accounting_check_period_lem :
    (acc : Accounting) (now : ℕ)
    → acc.period_start + acc.period_length_sec < 2 ^ 64
    → let acc' = bw_accounting_check_period acc now in
      (now < acc.period_start + acc.period_length_sec → acc' ≡ acc)
      × (acc.period_start + acc.period_length_sec ≤ now
          → (acc'.hibernating ≡ false) × (acc'.bytes_used ≡ 0) × (acc'.period_start ≡ now))
unfolding bw_accounting_check_period
bw_accounting_check_period_lem acc now small = ground arith
