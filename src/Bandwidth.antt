-- ===== src/Bandwidth.antt =====
-- src/ratelimit.c from `moor_bw_accounting_init` on: the byte budget of a relay and its hibernation.
pub mod Bucket
pub mod Budget
mod Tests
use moor_pq.Base.{
  ℕ, ◌+◌, ◌-◌, ◌*◌, ◌/◌, Bool, true, false, not, ltb, leb, ◌==◌, if◌then◌else◌, u64, sub_u64,
}

-- `moor_bw_accounting_t`
pub record Accounting : Type 0 where
  pub bytes_limit : ℕ
  pub bytes_used : ℕ
  pub period_start : ℕ
  pub period_length_sec : ℕ
  pub rate_limit_bps : ℕ
  pub burst_limit : ℕ
  pub bucket_tokens : ℕ
  pub last_refill : ℕ
  pub hibernating : Bool

pub bw_accounting_init : ℕ → ℕ → ℕ → ℕ → Accounting
bw_accounting_init limit_bytes period_sec rate_bps now =
    let burst = if ltb 0 rate_bps then u64 (rate_bps * 10) else 0 in
    record {
      bytes_limit = limit_bytes;
      bytes_used = 0;
      period_start = now;
      period_length_sec = if ltb 0 period_sec then period_sec else 86400;
      rate_limit_bps = rate_bps;
      burst_limit = burst;
      bucket_tokens = burst;
      last_refill = now;
      hibernating = false;
    }

-- The token bucket's part of `moor_bw_accounting_charge`.
pub charge_bucket : Accounting → ℕ → Accounting
charge_bucket acc bytes =
    if ltb 0 acc.rate_limit_bps
    then if leb bytes acc.bucket_tokens
      then record acc { bucket_tokens = acc.bucket_tokens - bytes }
      else record acc { bucket_tokens = 0 }
    else acc

-- `moor_bw_accounting_charge`; `true` stands for 0 and `false` for -1.
pub bw_accounting_charge : Accounting → ℕ → Bool × Accounting
unfolding charge_bucket
bw_accounting_charge acc bytes =
    if acc.hibernating
    then (false, acc)
    else let acc' = charge_bucket acc bytes in
      let used = u64 (acc'.bytes_used + bytes) in
      if not (ltb 0 acc'.bytes_limit)
      then (true, acc')
      else if leb acc'.bytes_limit used
      then (false, record acc' { bytes_used = used; hibernating = true })
      else (true, record acc' { bytes_used = used })

-- `moor_bw_accounting_check_period`
pub bw_accounting_check_period : Accounting → ℕ → Accounting
bw_accounting_check_period acc now =
    if leb (u64 (acc.period_start + acc.period_length_sec)) now
    then record acc {
      bytes_used = 0;
      hibernating = false;
      period_start = now;
      bucket_tokens = acc.burst_limit;
      last_refill = now;
    }
    else acc

-- `moor_bw_accounting_refill`, past its early returns.
pub add_tokens : Accounting → ℕ → ℕ → Accounting
add_tokens acc elapsed now =
    let product = u64 (acc.rate_limit_bps * elapsed) in
    let add = if product / elapsed == acc.rate_limit_bps then product else acc.burst_limit in
    let tokens = u64 (acc.bucket_tokens + add) in
    record acc {
      bucket_tokens = if ltb acc.burst_limit tokens then acc.burst_limit else tokens;
      last_refill = now;
    }

-- `moor_bw_accounting_refill`
pub bw_accounting_refill : Accounting → ℕ → Accounting
unfolding add_tokens
bw_accounting_refill acc now =
    let elapsed = sub_u64 now acc.last_refill in
    if acc.rate_limit_bps == 0
    then acc
    else if elapsed == 0
    then acc
    else add_tokens acc (if ltb 3600 elapsed then 3600 else elapsed) now
