-- ===== src/Pow/Cache/Probing.antt =====
-- How a probing loop of src/pow.c goes on, and what it leaves alone.
use moor_pq.Base.{
  ℕ, zero, suc, ◌+◌, ◌≤◌, ◌<◌, ◌≡◌, ◌≢◌, ◌∙◌, refl, sym, ap, true, false, List, [], ◌∷◌, length,
  length-set, get_or, get_or-set_ne, set, ◌==◌, arith, Bool-cases, inl, inr,
}
use moor_pq.Pow.Cache.{
  Entry, Key, fresh, seen, crowded, blank_entry, cache_size, slot_at, evict, probe_loop,
}

pub set-get_or : (cache : List Entry) (i : ℕ) → set cache i (get_or cache i blank_entry) ≡ cache
set-get_or [] i = refl
set-get_or (e ∷ cache) zero = refl
set-get_or (e ∷ cache) (suc i) = ap (λ c. e ∷ c) (set-get_or cache i)

-- The eight places that a slot gives are different, and in the cache.
pub slots_apart :
    (slot p q : ℕ) → slot < cache_size → p < q → q < 8 → slot_at slot p ≢ slot_at slot q
slots_apart slot p q h lt small e = absurd (omega arith)

pub slot_bound : (slot p : ℕ) → slot_at slot p < cache_size
slot_bound slot p = omega arith

module _ (key : Key) (slot : ℕ) where
  abbrev pub here : ℕ → List Entry → Entry
  here probe cache = get_or cache (slot_at slot probe) blank_entry

  -- The four ways of one probe.
  abbrev pub one : ℕ → List Entry → List Entry
  one probe cache = set cache (slot_at slot probe) (evict key (here probe cache))

  pub probe_end :
      (probe : ℕ) (cache : List Entry) → probe_loop key slot 0 probe cache ≡ (crowded, cache)
  unfolding probe_loop
  probe_end probe cache = refl

  pub probe_free :
      (n probe : ℕ) (cache : List Entry)
      → (evict key (here probe cache)).insert_time ≡ 0
      → probe_loop key slot (suc n) probe cache ≡ (
        fresh,
        set (one probe cache) (slot_at slot probe) (key.fill (evict key (here probe cache))),
      )
  unfolding probe_loop
  probe_free n probe cache e = ground arith

  pub probe_match :
      (n probe : ℕ) (cache : List Entry)
      → (evict key (here probe cache)).insert_time ≢ 0
      → key.matches (evict key (here probe cache)) ≡ true
      → probe_loop key slot (suc n) probe cache ≡ (seen, one probe cache)
  unfolding probe_loop
  probe_match n probe cache e m = ground arith

  pub probe_next :
      (n probe : ℕ) (cache : List Entry)
      → (evict key (here probe cache)).insert_time ≢ 0
      → key.matches (evict key (here probe cache)) ≡ false
      → probe_loop key slot (suc n) probe cache
        ≡ probe_loop key slot n (probe + 1) (one probe cache)
  unfolding probe_loop
  probe_next n probe cache e m = ground arith

  -- Probing leaves every place before its own alone, and the size of the cache.
  pub probe_frame :
      (n probe p : ℕ) (cache : List Entry)
      → slot < cache_size
      → p < probe
      → probe + n ≤ 8
      → here p (probe_loop key slot n probe cache).1 ≡ here p cache
  unfolding probe_loop
  probe_frame zero probe p cache h lt small = refl
  probe_frame (suc n) probe p cache h lt small =
      let apart : slot_at slot probe ≢ slot_at slot p =
        λ e. slots_apart slot p probe h lt (omega arith) (sym e) in
      let kept =
        get_or-set_ne cache (slot_at slot probe) (slot_at slot p) (evict key (here probe cache))
          blank_entry apart in
      elim (Bool-cases ((evict key (here probe cache)).insert_time == 0)) [
        | inl free ↦ rw (probe_free n probe cache (ground arith)) (
            get_or-set_ne (one probe cache) (slot_at slot probe) (slot_at slot p)
              (key.fill (evict key (here probe cache))) blank_entry apart
            ∙ kept)
        | inr taken ↦ elim (Bool-cases (key.matches (evict key (here probe cache)))) [
          | inl m ↦ rw (probe_match n probe cache (ground arith) m) kept
          | inr m ↦
              rw (probe_next n probe cache (ground arith) m)
                (probe_frame n (probe + 1) p (one probe cache) h (omega arith) (omega arith) ∙ kept)
        ]
      ]

  pub length-probe_loop :
      (n probe : ℕ) (cache : List Entry)
      → length (probe_loop key slot n probe cache).1 ≡ length cache
  unfolding probe_loop
  length-probe_loop zero probe cache = refl
  length-probe_loop (suc n) probe cache = ground (
    arith,
    length-set cache (slot_at slot probe) (evict key (here probe cache)),
    length-set (one probe cache) (slot_at slot probe) (key.fill (evict key (here probe cache))),
    length-probe_loop n (probe + 1) (one probe cache),
  )
