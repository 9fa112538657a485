-- ===== src/Pow/Cache/Seeing.antt =====
-- When a search of a replay cache of src/pow.c says that a nonce was seen.
use moor_pq.Base.{
  ℕ, zero, suc, ◌+◌, ◌≤◌, ◌<◌, ◌≡◌, ◌≢◌, ◌⊎◌, ◌∙◌, refl, sym, ap, true, false, List, length,
  length-set, get_or, get_or-set_self, set, ◌==◌, arith, Bool-cases, inl, inr,
}
use moor_pq.Pow.Cache.{
  Entry, Key, fresh, seen, crowded, blank_entry, cache_size, slot_at, evict, probe_loop,
}
use moor_pq.Pow.Cache.Probing.{
  here, one, probe_end, probe_free, probe_match, probe_next, probe_frame, set-get_or, slot_bound,
}

-- A search from `probe` on comes to an entry that matches before it comes to a free one.
unfoldable pub Sees : Key → ℕ → List Entry → ℕ → ℕ → Type 0
Sees key slot cache zero probe = ⊥
Sees key slot cache (suc n) probe =
    let e = get_or cache (slot_at slot probe) blank_entry in
    (e.insert_time ≢ 0) × ((key.matches e ≡ true) ⊎ Sees key slot cache n (probe + 1))

Sees-cons :
    (key : Key) (slot n probe : ℕ) (cache : List Entry) (e : Entry)
    → get_or cache (slot_at slot probe) blank_entry ≡ e
    → e.insert_time ≢ 0
    → (key.matches e ≡ true) ⊎ Sees key slot cache n (probe + 1)
    → Sees key slot cache (suc n) probe
unfolding Sees
Sees-cons key slot n probe cache e same taken found = rw same (taken, found)

-- Such a search says so, when no entry runs out at its time.
pub sees→seen :
    (key : Key) (slot n probe : ℕ) (cache : List Entry)
    → ((k : ℕ) → evict key (get_or cache k blank_entry) ≡ get_or cache k blank_entry)
    → Sees key slot cache n probe
    → (probe_loop key slot n probe cache).0 ≡ seen
unfolding Sees
sees→seen key slot zero probe cache quiet s = absurd s
sees→seen key slot (suc n) probe cache quiet (taken, found) =
    let still = quiet (slot_at slot probe) in
    let same = ap (set cache (slot_at slot probe)) still ∙ set-get_or cache (slot_at slot probe) in
    elim (Bool-cases (key.matches (here key slot probe cache))) [
      | inl m ↦ rw (probe_match key slot n probe cache (rw still taken) (rw still m)) refl
      | inr m ↦
          rw (probe_next key slot n probe cache (rw still taken) (rw still m), same)
            (sees→seen key slot n (probe + 1) cache quiet (later m found))
    ]
  where
    later :
        key.matches (here key slot probe cache) ≡ false
        → (key.matches (here key slot probe cache) ≡ true) ⊎ Sees key slot cache n (probe + 1)
        → Sees key slot cache n (probe + 1)
    later m (inl yes_match) = absurd (ground (arith, m, yes_match))
    later m (inr s) = s

module _ (key : Key) (slot : ℕ) (h : slot < cache_size)
    (sound : (e : Entry) → ((key.fill e).insert_time ≢ 0) × (key.matches (key.fill e) ≡ true)) where
  -- Going on past an entry, the search leaves it as it has found it.
  passed_entry :
      (n probe : ℕ) (cache : List Entry)
      → length cache ≡ cache_size
      → probe + suc n ≤ 8
      → here key slot probe (probe_loop key slot n (probe + 1) (one key slot probe cache)).1
        ≡ evict key (here key slot probe cache)
  passed_entry n probe cache size small =
      probe_frame key slot n (probe + 1) probe (one key slot probe cache) h (omega arith)
        (omega arith)
      ∙ get_or-set_self cache (slot_at slot probe) (evict key (here key slot probe cache))
          blank_entry (omega (arith, slot_bound slot probe, size))

  length-one : (probe : ℕ) (cache : List Entry) → length (one key slot probe cache) ≡ length cache
  length-one probe cache =
      length-set cache (slot_at slot probe) (evict key (here key slot probe cache))

  -- A search that found a free place leaves an entry that the same search sees.
  pub fresh→sees :
      (n probe : ℕ) (cache : List Entry)
      → length cache ≡ cache_size
      → probe + n ≤ 8
      → (probe_loop key slot n probe cache).0 ≡ fresh
      → Sees key slot (probe_loop key slot n probe cache).1 n probe
  fresh→sees zero probe cache size small e = absurd (ground (arith, probe_end key slot probe cache))
  fresh→sees (suc n) probe cache size small e =
      let entry = evict key (here key slot probe cache) in
      elim (Bool-cases (entry.insert_time == 0)) [
        | inl free ↦ rw (probe_free key slot n probe cache (ground arith)) (
            Sees-cons key slot n probe _ (key.fill entry)
              (get_or-set_self (one key slot probe cache) (slot_at slot probe) (key.fill entry)
                blank_entry (omega (arith, slot_bound slot probe, size, length-one probe cache)))
              (sound entry).0 (inl (sound entry).1))
        | inr taken ↦ elim (Bool-cases (key.matches entry)) [
          | inl m ↦ absurd (ground (arith, probe_match key slot n probe cache))
          | inr m ↦
              let next = probe_next key slot n probe cache (ground arith) m in
              rw next (
                Sees-cons key slot n probe _ entry (passed_entry n probe cache size small)
                  (ground arith)
                  (inr (
                    fresh→sees n (probe + 1) (one key slot probe cache)
                      (length-one probe cache ∙ size) (omega arith)
                      (ap (λ r. r.0) (sym next) ∙ e))))
        ]
      ]

  -- A search that found no place leaves eight entries in use.
  pub crowded→full :
      (n probe k p : ℕ) (cache : List Entry)
      → length cache ≡ cache_size
      → probe + n ≤ 8
      → (probe_loop key slot n probe cache).0 ≡ crowded
      → k < n
      → p ≡ probe + k
      → (here key slot p (probe_loop key slot n probe cache).1).insert_time ≢ 0
  crowded→full zero probe k p cache size small e lt at_k = absurd (omega arith)
  crowded→full (suc n) probe k p cache size small e lt at_k =
      let entry = evict key (here key slot probe cache) in
      elim (Bool-cases (entry.insert_time == 0)) [
        | inl free ↦ absurd (ground (arith, probe_free key slot n probe cache))
        | inr taken ↦ elim (Bool-cases (key.matches entry)) [
          | inl m ↦ absurd (ground (arith, probe_match key slot n probe cache))
          | inr m ↦
              let next = probe_next key slot n probe cache (ground arith) m in
              rw next (
                later k lt at_k next
                  (λ j small_j at_j.
                    crowded→full n (probe + 1) j p (one key slot probe cache)
                      (length-one probe cache ∙ size) (omega arith) (ap (λ r. r.0) (sym next) ∙ e)
                      small_j at_j)
                  (ground arith))
        ]
      ]
    where
      later :
          (k : ℕ)
          → k < suc n
          → p ≡ probe + k
          → probe_loop key slot (suc n) probe cache
            ≡ probe_loop key slot n (probe + 1) (one key slot probe cache)
          → ((j : ℕ)
              → j < n
              → p ≡ probe + 1 + j
              → (here key slot p
                  (probe_loop key slot n (probe + 1) (one key slot probe cache)).1).insert_time
                ≢ 0)
          → (evict key (here key slot probe cache)).insert_time ≢ 0
          → (here key slot p
              (probe_loop key slot n (probe + 1) (one key slot probe cache)).1).insert_time
            ≢ 0
      later zero lt at_k next rest taken =
          let first : p ≡ probe = omega arith in
          rw (first, passed_entry n probe cache size small) taken
      later (suc j) lt at_k next rest taken = rest j (omega arith) (omega arith)

  -- Eight entries in use, one of which matches.
  pub full→sees :
      (n probe k : ℕ) (cache : List Entry)
      → ((j p : ℕ) → j < n → p ≡ probe + j → (here key slot p cache).insert_time ≢ 0)
      → k < n
      → key.matches (here key slot (probe + k) cache) ≡ true
      → Sees key slot cache n probe
  full→sees zero probe k cache full lt m = absurd (omega arith)
  full→sees (suc n) probe zero cache full lt m =
      Sees-cons key slot n probe cache (here key slot probe cache) refl
        (full 0 probe (omega arith) (omega arith))
        (inl (
          ap (λ p. key.matches (here key slot p cache)) {x = probe} {y = probe + 0} (omega arith)
          ∙ m))
  full→sees (suc n) probe (suc k) cache full lt m =
      Sees-cons key slot n probe cache (here key slot probe cache) refl
        (full 0 probe (omega arith) (omega arith))
        (inr (
          full→sees n (probe + 1) k cache
            (λ j p small at_j. full (suc j) p (omega arith) (omega arith)) (omega arith)
            (ap (λ p. key.matches (here key slot p cache)) {x = probe + 1 + k} {y = probe + suc k}
                (omega arith)
              ∙ m)))
