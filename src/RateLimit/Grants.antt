-- ===== src/RateLimit/Grants.antt =====
-- How many requests of one address `moor_ratelimit_check` lets through, and whom they concern.
use moor_pq.Base.{
  ℕ, zero, suc, ◌-◌, ◌≤◌, ◌<◌, ◌≡◌, ◌∙◌, ap, refl, true, none, some, List, [], ◌∷◌, ◌++◌, length,
  get_or, get_or-set_self, get_or-append, get_or_default, length-append, length-set, set, take_all,
  ltb, if◌then◌else◌, arith, lt_or_le, min, Option-cases, inl, inr, All-get_or, All,
}
use moor_pq.RateLimit.{
  Entry, Limiter, num_types, max_ips, limit_of, find_entry, find_or_create, fresh_entry,
  refill_elapsed, spend, ratelimit_check, same_string, oldest_entry,
}
use moor_pq.RateLimit.Entries.{
  find_entry_lem, oldest_entry_lem, find_entry-set, find_entry-open, find_entry-append,
  find_or_create_found, find_or_create_append, find_or_create_evict, same_string_refl,
}
use moor_pq.RateLimit.Table.{
  IsEntry, IsLimiter, find_or_create-IsLimiter, ratelimit_check-IsLimiter,
}

-- The tokens that an address has left, a full bucket if it is not in the table.
unfoldable pub available_in : List Entry → List ℕ → ℕ → ℕ
available_in es ip t = elim (find_entry ip es) [
  | none ↦ limit_of t
  | some i ↦ get_or (get_or es i (fresh_entry ip 0)).tokens t 0
]

abbrev pub available : Limiter → List ℕ → ℕ → ℕ
available l ip t = available_in l.entries ip t

pub available_at :
    (es : List Entry) (ip : List ℕ) (t i : ℕ)
    → find_entry ip es ≡ some i
    → available_in es ip t ≡ get_or (get_or es i (fresh_entry ip 0)).tokens t 0
unfolding available_in
available_at es ip t i found = ground arith

pub available_absent :
    (es : List Entry) (ip : List ℕ) (t : ℕ)
    → find_entry ip es ≡ none
    → available_in es ip t ≡ limit_of t
unfolding available_in
available_absent es ip t missing = ground arith

-- Where `find_or_create` has put the address.
pub record Found (ip : List ℕ) (now : ℕ) (es : List Entry) (r : ℕ × List Entry) : Type 0 where
  pub found : find_entry ip r.1 ≡ some r.0
  pub inside : r.0 < length r.1
  pub seen : (d : Entry) → (get_or r.1 r.0 d).last_seen ≡ now
  pub address : (d : Entry) → (get_or r.1 r.0 d).ip ≡ ip
  pub tokens : (d : Entry) (t : ℕ) → get_or (get_or r.1 r.0 d).tokens t 0 ≡ available_in es ip t

pub find_or_create-Found :
    (ip : List ℕ) (now : ℕ) (es : List Entry)
    → length ip ≤ 63
    → Found ip now es (find_or_create ip now es)
unfolding fresh_entry
find_or_create-Found ip now es short = elim (Option-cases (find_entry ip es)) [
  | inr (i, found) ↦
      let e : Entry = record (get_or es i (fresh_entry ip now)) { last_seen = now } in
      let hit = find_entry_lem ip es i (fresh_entry ip now) found in
      rw (find_or_create_found ip now es i found) (record {
        found = find_entry-set ip es i e found (rw hit.1 (same_string_refl ip));
        inside = omega (arith, length-set es i e, hit.0);
        seen = λ d. rw (get_or-set_self es i e d hit.0) refl;
        address = λ d. rw (get_or-set_self es i e d hit.0) hit.1;
        tokens = λ d t.
            rw (get_or-set_self es i e d hit.0, available_at es ip t i found)
              (ap (λ x. get_or x.tokens t 0)
                (get_or_default es i (fresh_entry ip now) (fresh_entry ip 0) hit.0));
      })
  | inl missing ↦ elim (lt_or_le (length es) max_ips) [
    | inl room ↦ rw (find_or_create_append ip now es missing room) (record {
      found = find_entry-append ip es (fresh_entry ip now) missing kept;
      inside = omega (arith, length-append es (fresh_entry ip now ∷ []));
      seen = λ d. rw (last d) refl;
      address = λ d. rw (last d) whole;
      tokens = λ d t. rw (last d, available_absent es ip t missing) refl;
    })
    | inr full ↦
        let oldest = oldest_entry_lem es (fresh_entry ip now) (omega arith) in
        rw (find_or_create_evict ip now es missing full) (record {
          found =
              find_entry-open ip es (oldest_entry es) (fresh_entry ip now) missing oldest.0 kept;
          inside = omega (arith, length-set es (oldest_entry es) (fresh_entry ip now), oldest.0);
          seen =
              λ d. rw (get_or-set_self es (oldest_entry es) (fresh_entry ip now) d oldest.0) refl;
          address =
              λ d. rw (get_or-set_self es (oldest_entry es) (fresh_entry ip now) d oldest.0) whole;
          tokens = λ d t.
              rw
                (
                  get_or-set_self es (oldest_entry es) (fresh_entry ip now) d oldest.0,
                  available_absent es ip t missing,
                )
                refl;
        })
  ]
]
  where
    whole : (fresh_entry ip now).ip ≡ ip
    whole = unfold fresh_entry in take_all 63 ip short

    kept : same_string (fresh_entry ip now).ip ip ≡ true
    kept = rw whole (same_string_refl ip)

    last : (d : Entry) → get_or (es ++ (fresh_entry ip now ∷ [])) (length es) d ≡ fresh_entry ip now
    last d = get_or-append es (fresh_entry ip now ∷ []) 0 (length es) d (omega arith)

refill_elapsed_now : (t now : ℕ) (e : Entry) → e.last_seen ≡ now → refill_elapsed t now e ≡ e
unfolding refill_elapsed
refill_elapsed_now t now e h = ground arith

spend_lem :
    (t : ℕ) (e : Entry)
    → t < length e.tokens
    → ((spend t e).0 ≡ ltb 0 (get_or e.tokens t 0))
      × (get_or (spend t e).1.tokens t 0 ≡ get_or e.tokens t 0 - 1)
      × ((spend t e).1.ip ≡ e.ip)
unfolding spend
spend_lem t e h = ground (arith, get_or-set_self e.tokens t (get_or e.tokens t 0 - 1) 0 h)

pub check_split :
    (l : Limiter) (ip : List ℕ) (t now later : ℕ)
    → l.ready ≡ true
    → t < num_types
    → let (i, es) = find_or_create ip now l.entries in
      let (allowed, e) = spend t (refill_elapsed t later (get_or es i (fresh_entry ip now))) in
      ratelimit_check l ip t now later ≡ (allowed, record l { entries = set es i e })
unfolding ratelimit_check
check_split l ip t now later on valid = ground arith

-- One request, when the two clock reads of the call agree.
check_once :
    (l : Limiter) (ip : List ℕ) (t now : ℕ)
    → IsLimiter l
    → l.ready ≡ true
    → t < num_types
    → length ip ≤ 63
    → let (allowed, l') = ratelimit_check l ip t now now in
      (allowed ≡ ltb 0 (available l ip t))
      × (available l' ip t ≡ available l ip t - 1)
      × (l'.ready ≡ true)
check_once l ip t now v on valid short =
    rw
      (
        check_split l ip t now now on valid,
        refill_elapsed_now t now e (f.seen (fresh_entry ip now)),
      )
      (rw (spent.0, f.tokens (fresh_entry ip now) t) refl, left, on)
  where
    es : List Entry
    es = (find_or_create ip now l.entries).1

    i : ℕ
    i = (find_or_create ip now l.entries).0

    e : Entry
    e = get_or es i (fresh_entry ip now)

    f : Found ip now l.entries (find_or_create ip now l.entries)
    f = find_or_create-Found ip now l.entries short

    w : (i < length es) × (length es ≤ max_ips) × All IsEntry es
    w = find_or_create-IsLimiter ip now l.entries v.size v.each

    spent :
        ((spend t e).0 ≡ ltb 0 (get_or e.tokens t 0))
        × (get_or (spend t e).1.tokens t 0 ≡ get_or e.tokens t 0 - 1)
        × ((spend t e).1.ip ≡ e.ip)
    spent =
        spend_lem t e
          (omega (arith, (All-get_or IsEntry es i (fresh_entry ip now) w.2 w.0).buckets, valid))

    left : available_in (set es i (spend t e).1) ip t ≡ available_in l.entries ip t - 1
    left =
        available_at (set es i (spend t e).1) ip t i (
          find_entry-set ip es i (spend t e).1 f.found
            (rw (spent.2 ∙ f.address (fresh_entry ip now)) (same_string_refl ip)))
        ∙ rw (get_or-set_self es i (spend t e).1 (fresh_entry ip 0) f.inside)
            (spent.1 ∙ ap (λ n. n - 1) (f.tokens (fresh_entry ip now) t))

-- How many of `n` requests in a row are let through, the first at `clock (n - 1)` and the last at
-- `clock 0`.
pub grants : (ℕ → ℕ) → Limiter → List ℕ → ℕ → ℕ → ℕ
grants clock l ip t zero = 0
grants clock l ip t (suc n) =
    let (allowed, l') = ratelimit_check l ip t (clock n) (clock n) in
    let rest = grants clock l' ip t n in if allowed then suc rest else rest

-- Of `n` requests in a row of one address, as many are let through as it had tokens, and all of
-- them if it had enough: a full bucket's worth for an address that is not in the table. That
-- holds at whatever times they come, as long as the two clock reads of a call agree: the refill
-- inside the check then never adds a token.
pub grants_lem :
    (clock : ℕ → ℕ) (l : Limiter) (ip : List ℕ) (t n : ℕ)
    → IsLimiter l
    → l.ready ≡ true
    → t < num_types
    → length ip ≤ 63
    → grants clock l ip t n ≡ min n (available l ip t)
unfolding grants
grants_lem clock l ip t zero v on valid short = omega arith
grants_lem clock l ip t (suc n) v on valid short =
    let (allowed, left, on') = check_once l ip t (clock n) v on valid short in
    let ih =
      grants_lem clock (ratelimit_check l ip t (clock n) (clock n)).1 ip t n
        (ratelimit_check-IsLimiter l ip t (clock n) (clock n) v) on' valid short in
    rw (allowed, ih, left) (ground arith)
