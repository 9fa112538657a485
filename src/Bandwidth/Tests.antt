-- ===== src/Bandwidth/Tests.antt =====
-- A relay with a budget of 1000 bytes, and instances of the theorems on its accounting.
use moor_pq.Base.{leb, ◌+◌, ◌≡◌, ◌<◌, refl, false, [], ◌∷◌, arith}
use moor_pq.Bandwidth.{
  Accounting, bw_accounting_init, bw_accounting_charge, bw_accounting_check_period,
  bw_accounting_refill, charge_bucket,
}
use moor_pq.Bandwidth.Bucket.{IsBucket, operations-IsBucket}
use moor_pq.Bandwidth.Budget.{charged, charged_bound, sum, sum_below, after_charges}

abbrev metered : Accounting
metered = record {
  bytes_limit = 1000;
  bytes_used = 100;
  period_start = 5000;
  period_length_sec = 86400;
  rate_limit_bps = 50;
  burst_limit = 500;
  bucket_tokens = 20;
  last_refill = 6000;
  hibernating = false;
}

operations-IsBucket_example :
    IsBucket (bw_accounting_init 1000 86400 50 6005)
    × IsBucket (bw_accounting_charge metered 30).1
    × IsBucket (bw_accounting_check_period metered 6005)
    × IsBucket (bw_accounting_refill metered 6005)
operations-IsBucket_example = operations-IsBucket metered 30 6005 1000 86400 50 (omega arith)

charged_bound_example :
    (charged metered (300 ∷ 500 ∷ 200 ∷ 1 ∷ []) ≡ sum_below 100 1000 (300 ∷ 500 ∷ 200 ∷ 1 ∷ []))
    × (100 + charged metered (300 ∷ 500 ∷ 200 ∷ 1 ∷ []) < 1000)
    × ((after_charges metered (300 ∷ 500 ∷ 200 ∷ 1 ∷ [])).hibernating
        ≡ leb 1000 (100 + sum (300 ∷ 500 ∷ 200 ∷ 1 ∷ [])))
charged_bound_example =
    charged_bound metered (300 ∷ 500 ∷ 200 ∷ 1 ∷ []) refl (omega arith) (unfold sum in omega arith)

charged_run : charged metered (300 ∷ 500 ∷ 200 ∷ 1 ∷ []) ≡ 800
unfolding charged bw_accounting_charge charge_bucket
charged_run = refl
