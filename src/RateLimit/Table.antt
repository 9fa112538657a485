-- ===== src/RateLimit/Table.antt =====
-- The bounds that src/ratelimit.c keeps: 1024 entries, six buckets each, no bucket over its limit.
use moor_pq.Base.{
  ℕ, zero, suc, ◌+◌, ◌≤◌, ◌<◌, ◌≡◌, ◌∙◌, refl, List, [], ◌∷◌, length, length-append, length-set,
  length-take, get_or, get_or-set_cases, ◌-◌, ◌&&◌, set, length-map, All, All-append, All-set,
  All-get_or, All-map, ltb, leb, sub_u64, arith, lt_or_le, Bool-cases, Option-cases, inl, inr,
}
use moor_pq.RateLimit.{
  Entry, Limiter, num_types, max_ips, limit_of, find_entry, find_or_create, fresh_entry, top_up,
  refill_elapsed, spend, ratelimit_check, refill_tokens, refill_entry, ratelimit_refill,
  oldest_entry,
}
use moor_pq.RateLimit.Entries.{
  find_entry_lem, oldest_entry_lem, find_or_create_found, find_or_create_append,
  find_or_create_evict,
}

pub record IsEntry (e : Entry) : Type 0 where
  pub buckets : length e.tokens ≡ num_types
  pub bounded : (t : ℕ) → get_or e.tokens t 0 ≤ limit_of t
  pub address : length e.ip ≤ 63

pub record IsLimiter (l : Limiter) : Type 0 where
  pub size : length l.entries ≤ max_ips
  pub each : All IsEntry l.entries

top_up_bound : (t add tokens : ℕ) → top_up t add tokens ≤ limit_of t
unfolding top_up
top_up_bound t add tokens = ground (arith, lt_or_le (limit_of t) (tokens + add))

set_bounded :
    (tokens : List ℕ) (t v : ℕ)
    → ((k : ℕ) → get_or tokens k 0 ≤ limit_of k)
    → v ≤ limit_of t
    → (k : ℕ) → get_or (set tokens t v) k 0 ≤ limit_of k
set_bounded tokens t v h small k = elim (get_or-set_cases tokens t k v 0) [
  | inl same ↦ omega (arith, h k)
  | inr (e, new) ↦ rw (new, e) small
]

pub fresh_entry-IsEntry : (ip : List ℕ) (now : ℕ) → IsEntry (fresh_entry ip now)
unfolding fresh_entry
fresh_entry-IsEntry ip now = record {
  buckets = refl;
  bounded = λ t. omega arith;
  address = omega (arith, length-take 63 ip);
}

with_tokens :
    (e : Entry) (t v seen : ℕ)
    → IsEntry e
    → v ≤ limit_of t
    → IsEntry (record e { tokens = set e.tokens t v; last_seen = seen })
with_tokens e t v seen w h = record {
  buckets = length-set e.tokens t v ∙ w.buckets;
  bounded = set_bounded e.tokens t v w.bounded h;
  address = w.address;
}

refill_elapsed-IsEntry : (t now : ℕ) (e : Entry) → IsEntry e → IsEntry (refill_elapsed t now e)
unfolding refill_elapsed
refill_elapsed-IsEntry t now e w =
    elim (Bool-cases (ltb 0 (sub_u64 now e.last_seen) && ltb (sub_u64 now e.last_seen) 3600)) [
      | inl some_time ↦
          simp some_time (with_tokens e t _ now w (top_up_bound t _ (get_or e.tokens t 0)))
      | inr else_time ↦ elim (Bool-cases (leb 3600 (sub_u64 now e.last_seen))) [
        | inl long ↦ simp (else_time, long) (with_tokens e t (limit_of t) now w (omega arith))
        | inr none_yet ↦ simp (else_time, none_yet) w
      ]
    ]

spend-IsEntry : (t : ℕ) (e : Entry) → IsEntry e → IsEntry (spend t e).1
unfolding spend
spend-IsEntry t e w = elim (Bool-cases (ltb 0 (get_or e.tokens t 0))) [
  | inl held ↦
      simp held
        (with_tokens e t (get_or e.tokens t 0 - 1) e.last_seen w (omega (arith, w.bounded t)))
  | inr empty ↦ simp empty w
]

-- What `find_or_create` returns.
pub find_or_create-IsLimiter :
    (ip : List ℕ) (now : ℕ) (es : List Entry)
    → length es ≤ max_ips
    → All IsEntry es
    → let (i, es') = find_or_create ip now es in
      (i < length es') × (length es' ≤ max_ips) × All IsEntry es'
find_or_create-IsLimiter ip now es size each = elim (Option-cases (find_entry ip es)) [
  | inr (i, found) ↦
      let hit = find_entry_lem ip es i (fresh_entry ip now) found in
      let w = All-get_or IsEntry es i (fresh_entry ip now) each hit.0 in
      let e : Entry = record (get_or es i (fresh_entry ip now)) { last_seen = now } in
      rw (find_or_create_found ip now es i found) (
        omega (arith, length-set es i e, hit.0),
        omega (arith, length-set es i e),
        All-set IsEntry es i e each
            (record { buckets = w.buckets; bounded = w.bounded; address = w.address }),
      )
  | inl missing ↦ elim (lt_or_le (length es) max_ips) [
    | inl room ↦ rw (find_or_create_append ip now es missing room) (
      omega (arith, length-append es (fresh_entry ip now ∷ [])),
      omega (arith, length-append es (fresh_entry ip now ∷ [])),
      All-append IsEntry es (fresh_entry ip now ∷ []) each (fresh_entry-IsEntry ip now, tt),
    )
    | inr full ↦
        let oldest = oldest_entry_lem es (fresh_entry ip now) (omega arith) in
        rw (find_or_create_evict ip now es missing full) (
          omega (arith, length-set es (oldest_entry es) (fresh_entry ip now), oldest.0),
          omega (arith, length-set es (oldest_entry es) (fresh_entry ip now)),
          All-set IsEntry es (oldest_entry es) (fresh_entry ip now) each
              (fresh_entry-IsEntry ip now),
        )
  ]
]

-- A check keeps the table within its 1024 entries, every entry with six buckets, and no bucket
-- over its limit, whatever address and type are asked for and whatever the two clock reads are.
pub ratelimit_check-IsLimiter :
    (l : Limiter) (ip : List ℕ) (t now later : ℕ)
    → IsLimiter l
    → IsLimiter (ratelimit_check l ip t now later).1
unfolding ratelimit_check
ratelimit_check-IsLimiter l ip t now later v = elim (Bool-cases l.ready) [
  | inr off ↦ simp off v
  | inl on ↦ elim (Bool-cases (leb num_types t)) [
    | inl bad ↦ simp (on, bad) v
    | inr good ↦
        let (lt, size, each) = find_or_create-IsLimiter ip now l.entries v.size v.each in
        let (i, es) = find_or_create ip now l.entries in
        let e = (spend t (refill_elapsed t later (get_or es i (fresh_entry ip now)))).1 in
        simp (on, good)
          (record {
            size = omega (arith, length-set es i e, size);
            each = All-set IsEntry es i e each (
                spend-IsEntry t _ (
                  refill_elapsed-IsEntry t later _
                    (All-get_or IsEntry es i (fresh_entry ip now) each lt)));
          })
  ]
]

length-refill_tokens : (t : ℕ) (tokens : List ℕ) → length (refill_tokens t tokens) ≡ length tokens
unfolding refill_tokens
length-refill_tokens t [] = refl
length-refill_tokens t (x ∷ xs) = omega (arith, length-refill_tokens (t + 1) xs)

refill_tokens_bound :
    (t : ℕ) (tokens : List ℕ) (k j : ℕ)
    → j ≡ t + k
    → get_or (refill_tokens t tokens) k 0 ≤ limit_of j
unfolding refill_tokens
refill_tokens_bound t [] k j e = omega arith
refill_tokens_bound t (x ∷ xs) zero j e =
    let same : j ≡ t = omega arith in rw same (top_up_bound t _ x)
refill_tokens_bound t (x ∷ xs) (suc k) j e = refill_tokens_bound (t + 1) xs k j (omega arith)

-- The tick keeps the same bounds.
pub ratelimit_refill-IsLimiter : (l : Limiter) → IsLimiter l → IsLimiter (ratelimit_refill l)
unfolding ratelimit_refill refill_entry
ratelimit_refill-IsLimiter l v = elim (Bool-cases l.ready) [
  | inr off ↦ simp off v
  | inl on ↦ simp on (record {
    size = omega (arith, length-map refill_entry l.entries, v.size);
    each =
        All-map IsEntry IsEntry refill_entry l.entries
          (λ e w. record {
            buckets = length-refill_tokens 0 e.tokens ∙ w.buckets;
            bounded = λ t. refill_tokens_bound 0 e.tokens t t (omega arith);
            address = w.address;
          })
          v.each;
  })
]
