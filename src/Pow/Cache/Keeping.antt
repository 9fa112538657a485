-- ===== src/Pow/Cache/Keeping.antt =====
-- What the replay caches of src/pow.c keep while other solutions come in.
use moor_pq.Base.{
  ℕ, zero, suc, ◌+◌, ◌≡◌, ◌≢◌, ◌∙◌, sym, ap, List, get_or, get_or-set_cases, set, ◌==◌, arith,
  Bool-cases, inl, inr,
}
use moor_pq.Pow.Cache.{
  Entry, Key, crowded, blank_entry, slot_at, evict, probe_loop, check_and_insert,
}
use moor_pq.Pow.Cache.Probing.{
  here, one, probe_end, probe_free, probe_match, probe_next, set-get_or,
}
use moor_pq.Pow.Cache.Seeing.{Sees}
use moor_pq.Pow.Cache.Replay.{Quiet, Probe-cases, check_fresh, check_seen}

-- The entries in use are still there.
abbrev pub Extends : List Entry → List Entry → Type 0
Extends cache cache' =
    (k : ℕ)
    → (get_or cache k blank_entry).insert_time ≢ 0
    → get_or cache' k blank_entry ≡ get_or cache k blank_entry

pub Extends-trans : (a b c : List Entry) → Extends a b → Extends b c → Extends a c
Extends-trans a b c first second k used =
    second k (λ free. used (sym (ap (λ e. e.insert_time) (first k used)) ∙ free)) ∙ first k used

-- What a search sees it sees still.
pub Sees-Extends :
    (key : Key) (slot n probe : ℕ) (cache cache' : List Entry)
    → Extends cache cache'
    → Sees key slot cache n probe
    → Sees key slot cache' n probe
unfolding Sees
Sees-Extends key slot zero probe cache cache' more s = s
Sees-Extends key slot (suc n) probe cache cache' more (taken, found) =
    let same = more (slot_at slot probe) taken in
    rw same (
      taken,
      elim found [
        | inl m ↦ inl m
        | inr s ↦ inr (Sees-Extends key slot n (probe + 1) cache cache' more s)
      ],
    )

module _ (key : Key) (slot : ℕ) where
  probe_loop-Extends :
      (n probe : ℕ) (cache : List Entry)
      → Quiet key cache
      → Extends cache (probe_loop key slot n probe cache).1
  probe_loop-Extends zero probe cache quiet k used =
      ap (λ r. get_or r.1 k blank_entry) (probe_end key slot probe cache)
  probe_loop-Extends (suc n) probe cache quiet k used =
      let still = quiet (slot_at slot probe) in
      let same : one key slot probe cache ≡ cache =
        ap (set cache (slot_at slot probe)) still ∙ set-get_or cache (slot_at slot probe) in
      let entry = evict key (here key slot probe cache) in
      elim (Bool-cases (entry.insert_time == 0)) [
        | inl free ↦
            let unused : (here key slot probe cache).insert_time ≡ 0 =
              sym (ap (λ e. e.insert_time) still) ∙ ground (arith, free) in
            ap (λ r. get_or r.1 k blank_entry) (probe_free key slot n probe cache (ground arith))
            ∙ ap (λ c. get_or (set c (slot_at slot probe) (key.fill entry)) k blank_entry) same
            ∙ elim (get_or-set_cases cache (slot_at slot probe) k (key.fill entry) blank_entry) [
              | inl kept ↦ kept
              | inr (here_too, new) ↦
                  absurd
                    (used (ap (λ i. (get_or cache i blank_entry).insert_time) (here_too) ∙ unused))
            ]
        | inr taken ↦ elim (Bool-cases (key.matches entry)) [
          | inl m ↦
              ap (λ r. get_or r.1 k blank_entry)
                (probe_match key slot n probe cache (ground arith) m)
              ∙ ap (λ c. get_or c k blank_entry) same
          | inr m ↦
              ap (λ r. get_or r.1 k blank_entry)
                (probe_next key slot n probe cache (ground arith) m)
              ∙ ap (λ c. get_or (probe_loop key slot n (probe + 1) c).1 k blank_entry) same
              ∙ probe_loop-Extends n (probe + 1) cache quiet k used
        ]
      ]

  -- A call at which no entry runs out and that finds a place keeps the entries in use.
  pub check_and_insert-Extends :
      (cache : List Entry)
      → Quiet key cache
      → (probe_loop key slot 8 0 cache).0 ≢ crowded
      → Extends cache (check_and_insert key slot cache).1
  check_and_insert-Extends cache quiet room k used =
      let kept = probe_loop-Extends 8 0 cache quiet k used in
      elim (Probe-cases (probe_loop key slot 8 0 cache).0) [
        | inl e ↦ ap (λ r. get_or r.1 k blank_entry) (check_fresh key slot cache e) ∙ kept
        | inr (inl e) ↦ ap (λ r. get_or r.1 k blank_entry) (check_seen key slot cache e) ∙ kept
        | inr (inr e) ↦ absurd (room e)
      ]
