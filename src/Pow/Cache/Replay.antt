-- ===== src/Pow/Cache/Replay.antt =====
-- A solution that a replay cache of src/pow.c has taken is refused when it is shown again.
use moor_pq.Base.{
  ℕ, zero, suc, ◌+◌, ◌%◌, ◌≤◌, ◌<◌, ◌≡◌, ◌≢◌, ◌⊎◌, ◌∙◌, refl, sym, ap, true, false, List, length,
  get_or, get_or-set_self, get_or-set_cases, set, ltb, u64, ◌*◌, bit_xor, ==_refl, arith,
  Bool-cases, inl, inr,
}
use moor_pq.Pow.Cache.{
  Entry, Key, Probe, fresh, seen, crowded, blank_entry, cache_size, slot_at, evict, probe_loop,
  oldest_loop, check_and_insert, relay_key, relay_slot, nonce_cache_check_and_insert, hs_key,
  hs_context, hs_nonce_cache_check_and_insert,
}
use moor_pq.Pow.Cache.Probing.{length-probe_loop, slot_bound}
use moor_pq.Pow.Cache.Seeing.{Sees, sees→seen, fresh→sees, crowded→full, full→sees}

-- The entry to replace is one of the eight.
oldest_loop_lem :
    (cache : List Entry) (slot n probe idx time p : ℕ)
    → probe + n ≤ 8
    → p < 8
    → idx ≡ slot_at slot p
    → (k : ℕ) × (k < 8) × (oldest_loop cache slot n probe idx time ≡ slot_at slot k)
unfolding oldest_loop
oldest_loop_lem cache slot zero probe idx time p small lt e = (p, lt, e)
oldest_loop_lem cache slot (suc n) probe idx time p small lt e =
    elim (Bool-cases (ltb (get_or cache (slot_at slot probe) blank_entry).insert_time time)) [
      | inl older ↦
          rw older
            (oldest_loop_lem cache slot n (probe + 1) _ _ probe (omega arith) (omega arith) refl)
      | inr newer ↦
          rw newer (oldest_loop_lem cache slot n (probe + 1) idx time p (omega arith) lt e)
    ]

pub Probe-cases : (a : Probe) → (a ≡ fresh) ⊎ ((a ≡ seen) ⊎ (a ≡ crowded))
Probe-cases fresh = inl refl
Probe-cases seen = inr (inl refl)
Probe-cases crowded = inr (inr refl)

module _ (key : Key) (slot : ℕ) (cache : List Entry) where
  abbrev probed : List Entry
  probed = (probe_loop key slot 8 0 cache).1

  -- The three ways of a call.
  pub check_fresh :
      (probe_loop key slot 8 0 cache).0 ≡ fresh → check_and_insert key slot cache ≡ (false, probed)
  unfolding check_and_insert
  check_fresh e = ground arith

  pub check_seen :
      (probe_loop key slot 8 0 cache).0 ≡ seen → check_and_insert key slot cache ≡ (true, probed)
  unfolding check_and_insert
  check_seen e = ground arith

  abbrev oldest : ℕ
  oldest = oldest_loop probed slot 7 1 slot (get_or probed slot blank_entry).insert_time

  check_crowded :
      (probe_loop key slot 8 0 cache).0 ≡ crowded
      → check_and_insert key slot cache
        ≡ (false, set probed oldest (key.fill (get_or probed oldest blank_entry)))
  unfolding check_and_insert
  check_crowded e = ground arith

  -- Replacing one of eight entries in use.
  replaced→sees :
      slot < cache_size
      → ((e : Entry) → ((key.fill e).insert_time ≢ 0) × (key.matches (key.fill e) ≡ true))
      → length cache ≡ cache_size
      → (probe_loop key slot 8 0 cache).0 ≡ crowded
      → Sees key slot (set probed oldest (key.fill (get_or probed oldest blank_entry))) 8 0
  replaced→sees h sound size full =
      let entry = key.fill (get_or probed oldest blank_entry) in
      let (k, small, at_k) =
        oldest_loop_lem probed slot 7 1 slot (get_or probed slot blank_entry).insert_time 0
          (omega arith) (omega arith) (omega arith) in
      full→sees key slot h sound 8 0 k (set probed oldest entry)
        (λ j p lt at_j. elim (get_or-set_cases probed oldest (slot_at slot p) entry blank_entry) [
          | inl same ↦
              rw same (crowded→full key slot h sound 8 0 j p cache size (omega arith) full lt at_j)
          | inr (e, new) ↦ rw new (sound (get_or probed oldest blank_entry)).0
        ])
        small
        (ap (λ i. key.matches (get_or (set probed oldest entry) i blank_entry))
            {x = slot_at slot (0 + k)} {y = oldest} (omega (arith, at_k))
          ∙ ap key.matches (
              get_or-set_self probed oldest entry blank_entry (
                omega (arith, at_k, slot_bound slot k, length-probe_loop key slot 8 0 cache, size)))
          ∙ (sound (get_or probed oldest blank_entry)).1)

  -- After a call that says "new", the search sees the entry.
  pub new→sees :
      slot < cache_size
      → ((e : Entry) → ((key.fill e).insert_time ≢ 0) × (key.matches (key.fill e) ≡ true))
      → length cache ≡ cache_size
      → (check_and_insert key slot cache).0 ≡ false
      → Sees key slot (check_and_insert key slot cache).1 8 0
  new→sees h sound size new = elim (Probe-cases (probe_loop key slot 8 0 cache).0) [
    | inl free ↦
        rw (check_fresh free) (fresh→sees key slot h sound 8 0 cache size (omega arith) free)
    | inr (inl found) ↦ absurd (ground (arith, check_seen found))
    | inr (inr full) ↦ rw (check_crowded full) (replaced→sees h sound size full)
  ]

-- What is seen by one key is seen by a key that matches the same entries.
pub Sees-key :
    (key key' : Key) (slot n probe : ℕ) (cache : List Entry)
    → ((e : Entry) → key.matches e ≡ key'.matches e)
    → Sees key slot cache n probe
    → Sees key' slot cache n probe
unfolding Sees
Sees-key key key' slot zero probe cache same s = s
Sees-key key key' slot (suc n) probe cache same (taken, inl m) = (taken, inl (sym (same _) ∙ m))
Sees-key key key' slot (suc n) probe cache same (taken, inr s) =
    (taken, inr (Sees-key key key' slot n (probe + 1) cache same s))

-- No entry of the cache runs out for a key.
abbrev pub Quiet : Key → List Entry → Type 0
Quiet key cache = (k : ℕ) → evict key (get_or cache k blank_entry) ≡ get_or cache k blank_entry

replayed :
    (key key' : Key) (slot : ℕ) (cache : List Entry)
    → slot < cache_size
    → ((e : Entry) → ((key.fill e).insert_time ≢ 0) × (key.matches (key.fill e) ≡ true))
    → ((e : Entry) → key.matches e ≡ key'.matches e)
    → length cache ≡ cache_size
    → (check_and_insert key slot cache).0 ≡ false
    → Quiet key' (check_and_insert key slot cache).1
    → (check_and_insert key' slot (check_and_insert key slot cache).1).0 ≡ true
replayed key key' slot cache h sound same size new quiet =
    ap (λ r. r.0)
      (check_seen key' slot (check_and_insert key slot cache).1 (
        sees→seen key' slot 8 0 (check_and_insert key slot cache).1 quiet (
          Sees-key key key' slot 8 0 (check_and_insert key slot cache).1 same
            (new→sees key slot cache h sound size new))))

-- A solution that the relay cache has called new is called seen when it is shown again, at any time
-- at which no entry of the cache has run out since. (The clock does not stand at 0.)
pub nonce_cache_replay :
    (secret : List ℕ) (cache : List Entry) (nonce timestamp ctx now later : ℕ)
    → length cache ≡ cache_size
    → now ≢ 0
    → let (before, cache') = nonce_cache_check_and_insert secret cache nonce timestamp ctx now in
      before ≡ false
      → Quiet (relay_key nonce timestamp ctx later) cache'
      → (nonce_cache_check_and_insert secret cache' nonce timestamp ctx later).0 ≡ true
unfolding nonce_cache_check_and_insert
nonce_cache_replay secret cache nonce timestamp ctx now later size started new quiet =
    replayed (relay_key nonce timestamp ctx now) (relay_key nonce timestamp ctx later)
      (relay_slot secret nonce timestamp ctx) cache (omega arith)
      (λ e. (started, simp (==_refl nonce, ==_refl timestamp, ==_refl ctx) refl)) (λ e. refl) size
      new quiet

-- So does the cache of the hidden services, for a nonce of the same seed and service.
pub hs_nonce_cache_replay :
    (cache : List Entry) (nonce seed_hash service_hash now later : ℕ)
    → length cache ≡ cache_size
    → now ≢ 0
    → let (before, cache') =
        hs_nonce_cache_check_and_insert cache nonce seed_hash service_hash now in
      before ≡ false
      → Quiet (hs_key nonce (hs_context seed_hash service_hash) later) cache'
      → (hs_nonce_cache_check_and_insert cache' nonce seed_hash service_hash later).0 ≡ true
unfolding hs_nonce_cache_check_and_insert
hs_nonce_cache_replay cache nonce seed_hash service_hash now later size started new quiet =
    let ctx = hs_context seed_hash service_hash in
    replayed (hs_key nonce ctx now) (hs_key nonce ctx later)
      (bit_xor nonce (u64 (ctx * 2654435761)) % cache_size) cache (omega arith)
      (λ e. (started, simp (==_refl nonce, ==_refl ctx) refl)) (λ e. refl) size new quiet
