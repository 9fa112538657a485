-- ===== src/RateLimit.antt =====
-- src/ratelimit.c and include/moor/ratelimit.h, the token buckets that a relay keeps per address.
pub mod Entries
pub mod Table
pub mod Grants
pub mod Isolation
mod Tests
use moor_pq.Base.{
  ℕ, zero, suc, ◌+◌, ◌-◌, ◌*◌, ◌/◌, Bool, true, false, not, ◌&&◌, ◌||◌, Option, none, some, List,
  [], ◌∷◌, ◌++◌, map, length, get_or, set, take, ltb, leb, ◌==◌, if◌then◌else◌, sub_u64,
}
use mathlib.Core.Option

abbrev pub num_types : ℕ
num_types = 6

abbrev pub max_ips : ℕ
max_ips = 1024

-- `g_rl_limits`, tokens per minute.
abbrev pub limits : List ℕ
limits = 60 ∷ 100 ∷ 100 ∷ 30 ∷ 60 ∷ 10 ∷ []

abbrev pub limit_of : ℕ → ℕ
limit_of bucket_type = get_or limits bucket_type 0

-- `moor_rl_entry_t`; `ip` is the string without its terminator.
pub record Entry : Type 0 where
  pub ip : List ℕ
  pub tokens : List ℕ
  pub last_seen : ℕ

-- The globals: `g_rl_table[0 .. g_rl_count)` and `g_rl_init`.
pub record Limiter : Type 0 where
  pub entries : List Entry
  pub ready : Bool

pub ratelimit_init : Limiter
ratelimit_init = record { entries = []; ready = true }

-- `strcmp(a, b) == 0`
pub same_string : List ℕ → List ℕ → Bool
same_string [] [] = true
same_string [] (y ∷ ys) = false
same_string (x ∷ xs) [] = false
same_string (x ∷ xs) (y ∷ ys) = x == y && same_string xs ys

pub find_entry : List ℕ → List Entry → Option ℕ
find_entry ip [] = none
find_entry ip (e ∷ es) = if same_string e.ip ip then some 0 else Option.map suc (find_entry ip es)

-- The loop for the oldest entry: it stands at `i`, and `oldest` was last seen at `seen`.
pub oldest_from : List Entry → ℕ → ℕ → ℕ → ℕ
oldest_from [] i oldest seen = oldest
oldest_from (e ∷ es) i oldest seen =
    if ltb e.last_seen seen
    then oldest_from es (i + 1) i e.last_seen
    else oldest_from es (i + 1) oldest seen

pub oldest_entry : List Entry → ℕ
oldest_entry [] = 0
oldest_entry (e ∷ es) = oldest_from es 1 0 e.last_seen

-- `snprintf` keeps 63 bytes of the string.
pub fresh_entry : List ℕ → ℕ → Entry
fresh_entry ip now = record { ip = take 63 ip; tokens = limits; last_seen = now }

-- `find_or_create`: the index of the entry, and the table.
pub find_or_create : List ℕ → ℕ → List Entry → ℕ × List Entry
unfolding fresh_entry
find_or_create ip now entries = elim (find_entry ip entries) [
  | some i ↦ (i, set entries i (record (get_or entries i (fresh_entry ip now)) { last_seen = now }))
  | none ↦
      if ltb (length entries) max_ips
      then (length entries, entries ++ (fresh_entry ip now ∷ []))
      else let oldest = oldest_entry entries in (oldest, set entries oldest (fresh_entry ip now))
]

-- A bucket after `add` tokens more, at most its limit.
pub top_up : ℕ → ℕ → ℕ → ℕ
top_up bucket_type add tokens =
    if ltb (limit_of bucket_type) (tokens + add) then limit_of bucket_type else tokens + add

abbrev at_least_one : ℕ → ℕ
at_least_one n = if ltb n 1 then 1 else n

-- The refill inside `moor_ratelimit_check`.
pub refill_elapsed : ℕ → ℕ → Entry → Entry
unfolding top_up
refill_elapsed bucket_type now e =
    let elapsed = sub_u64 now e.last_seen in
    let held = get_or e.tokens bucket_type 0 in
    if ltb 0 elapsed && ltb elapsed 3600
    then record e {
      tokens = set e.tokens bucket_type (
          top_up bucket_type
            (at_least_one (limit_of bucket_type / 60)
              * (if ltb 3600 elapsed then 3600 else elapsed))
            held);
      last_seen = now;
    }
    else if leb 3600 elapsed
    then record e { tokens = set e.tokens bucket_type (limit_of bucket_type); last_seen = now }
    else e

pub spend : ℕ → Entry → Bool × Entry
spend bucket_type e =
    let held = get_or e.tokens bucket_type 0 in
    if ltb 0 held
    then (true, record e { tokens = set e.tokens bucket_type (held - 1) })
    else (false, e)

-- `moor_ratelimit_check`. `bucket_type` is the bit pattern of an int, so that a negative one is at
-- least 2^31; `now` and `later` are what the two calls of `time` return.
pub ratelimit_check : Limiter → List ℕ → ℕ → ℕ → ℕ → Bool × Limiter
ratelimit_check l ip bucket_type now later =
    if not l.ready
    then (true, l)
    else if leb num_types bucket_type
    then (false, l)
    else let (i, entries) = find_or_create ip now l.entries in
      let (allowed, e) =
        spend bucket_type
          (refill_elapsed bucket_type later (get_or entries i (fresh_entry ip now))) in
      (allowed, record l { entries = set entries i e })

-- The inner loop of `moor_ratelimit_refill`, over the buckets from `t` on.
pub refill_tokens : ℕ → List ℕ → List ℕ
unfolding top_up
refill_tokens t [] = []
refill_tokens t (held ∷ tokens) =
    top_up t (at_least_one (limit_of t / 10)) held ∷ refill_tokens (t + 1) tokens

pub refill_entry : Entry → Entry
unfolding refill_tokens
refill_entry e = record e { tokens = refill_tokens 0 e.tokens }

-- `moor_ratelimit_refill`
pub ratelimit_refill : Limiter → Limiter
unfolding refill_entry
ratelimit_refill l = if not l.ready then l else record l { entries = map refill_entry l.entries }
