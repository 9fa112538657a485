-- ===== src/Conflux/Legs/Choice.antt =====
-- Which leg a conflux set sends on.
use moor_pq.Base.{
  ℕ, zero, suc, ◌+◌, ◌≤◌, ◌<◌, ◌≡◌, ◌∙◌, ◌⊎◌, refl, ap, Bool, true, false, ◌&&◌, Option, none, some,
  List, [], ◌∷◌, length, get_or, ltb, if◌then◌else◌, arith, Bool-cases, inl, inr,
}
use moor_pq.Conflux.{Leg, ConfluxSet, uint64_max}
use moor_pq.Conflux.Legs.{Doubles, usable, best_by_rtt, best_by_ratio, conflux_select_leg}

-- A leg with a measured round trip.
abbrev pub IsMeasured : Leg → Type 0
IsMeasured l = (usable l ≡ true) × (l.rtt_initialized ≡ true)

-- No measured leg is faster than `v`.
abbrev pub Least : ℕ → List Leg → Leg → Type 0
Least v legs d =
    (k : ℕ) → k < length legs → IsMeasured (get_or legs k d) → v ≤ (get_or legs k d).srtt_us

Least-cons :
    (v : ℕ) (l : Leg) (legs : List Leg) (d : Leg)
    → (IsMeasured l → v ≤ l.srtt_us)
    → Least v legs d
    → Least v (l ∷ legs) d
Least-cons v l legs d head tail zero lt m = head m
Least-cons v l legs d head tail (suc k) lt m = tail k (omega arith) m

-- A measured leg at `j`, faster than `best_rtt` and than all others.
record Wins (legs : List Leg) (best_rtt j : ℕ) (d : Leg) : Type 0 where
  inside : j < length legs
  measured : IsMeasured (get_or legs j d)
  faster : (get_or legs j d).srtt_us < best_rtt
  least : Least (get_or legs j d).srtt_us legs d

-- What the first loop finds, from index `i` on: what it came with, or a leg that wins.
abbrev Kept : List Leg → ℕ → ℕ → Option ℕ → Bool → Option ℕ × Bool → Leg → Type 0
Kept legs i best_rtt best any_rtt r d =
    ((r.0 ≡ best) × (any_rtt ≡ true → r.1 ≡ true) × Least best_rtt legs d)
    ⊎ ((j : ℕ) × (r.0 ≡ some (i + j)) × (r.1 ≡ true) × Wins legs best_rtt j d)

module _ (l : Leg) (legs : List Leg) (i best_rtt : ℕ) (best : Option ℕ) (r : Option ℕ × Bool)
    (d : Leg) where
  pass_by :
      (any any' : Bool)
      → (any ≡ true → any' ≡ true)
      → (IsMeasured l → best_rtt ≤ l.srtt_us)
      → Kept legs (i + 1) best_rtt best any' r d
      → Kept (l ∷ legs) i best_rtt best any r d
  pass_by any any' more slow (inl (same, seen, least)) =
      inl (same, λ e. seen (more e), Least-cons best_rtt l legs d slow least)
  pass_by any any' more slow (inr (j, found, seen, w)) = inr (
    suc j,
    found ∙ ap some (omega arith),
    seen,
    record {
      inside = omega (arith, w.inside);
      measured = w.measured;
      faster = w.faster;
      least = Least-cons _ l legs d (λ m. omega (arith, slow m, w.faster)) w.least;
    },
  )

  pick :
      (any : Bool)
      → IsMeasured l
      → l.srtt_us < best_rtt
      → Kept legs (i + 1) l.srtt_us (some i) true r d
      → Kept (l ∷ legs) i best_rtt best any r d
  pick any m fast (inl (same, seen, least)) = inr (
    0,
    same ∙ ap some (omega arith),
    seen refl,
    record {
      inside = omega arith;
      measured = m;
      faster = fast;
      least = Least-cons l.srtt_us l legs d (λ n. omega arith) least;
    },
  )
  pick any m fast (inr (j, found, seen, w)) = inr (
    suc j,
    found ∙ ap some (omega arith),
    seen,
    record {
      inside = omega (arith, w.inside);
      measured = w.measured;
      faster = omega (arith, w.faster, fast);
      least = Least-cons _ l legs d (λ n. omega (arith, w.faster)) w.least;
    },
  )

best_by_rtt-Kept :
    (legs : List Leg) (i best_rtt : ℕ) (best : Option ℕ) (any_rtt : Bool) (d : Leg)
    → Kept legs i best_rtt best any_rtt (best_by_rtt legs i best_rtt best any_rtt) d
unfolding best_by_rtt
best_by_rtt-Kept [] i best_rtt best any_rtt d = inl (refl, λ e. e, λ k lt. absurd (omega arith))
best_by_rtt-Kept (l ∷ legs) i best_rtt best any_rtt d =
    elim (Bool-cases (usable l && l.rtt_initialized)) [
      | inr unmeasured ↦ rw unmeasured (
          pass_by l legs i best_rtt best _ d any_rtt any_rtt (λ e. e) (λ m. absurd (ground arith))
            (best_by_rtt-Kept legs (i + 1) best_rtt best any_rtt d))
      | inl measured ↦ elim (Bool-cases (ltb l.srtt_us best_rtt)) [
        | inl fast ↦
            rw (measured, fast)
              (pick l legs i best_rtt best _ d any_rtt (ground arith) (ground arith)
                (best_by_rtt-Kept legs (i + 1) l.srtt_us (some i) true d))
        | inr slow ↦
            rw (measured, slow)
              (pass_by l legs i best_rtt best _ d any_rtt true (λ e. refl) (λ m. ground arith)
                (best_by_rtt-Kept legs (i + 1) best_rtt best true d))
      ]
    ]

-- What the second loop ends with: what it came with, or a usable leg.
abbrev Found : List Leg → ℕ → Option ℕ → Option ℕ → Leg → Type 0
Found legs i best r d =
    (r ≡ best)
    ⊎ ((j : ℕ) × (r ≡ some (i + j)) × (j < length legs) × (usable (get_or legs j d) ≡ true))

Found-cons :
    (l : Leg) (legs : List Leg) (i : ℕ) (best r : Option ℕ) (d : Leg)
    → Found legs (i + 1) best r d
    → Found (l ∷ legs) i best r d
Found-cons l legs i best r d (inl same) = inl same
Found-cons l legs i best r d (inr (j, e, lt, u)) =
    inr (suc j, e ∙ ap some (omega arith), omega arith, u)

Found-pick :
    (l : Leg) (legs : List Leg) (i : ℕ) (best r : Option ℕ) (d : Leg)
    → usable l ≡ true
    → Found legs (i + 1) (some i) r d
    → Found (l ∷ legs) i best r d
Found-pick l legs i best r d u (inl same) = inr (0, same ∙ ap some (omega arith), omega arith, u)
Found-pick l legs i best r d u (inr (j, e, lt, v)) =
    inr (suc j, e ∙ ap some (omega arith), omega arith, v)

best_by_ratio_lem :
    (fp : Doubles) (legs : List Leg) (i : ℕ) (best_ratio : fp.Double) (best : Option ℕ) (d : Leg)
    → Found legs i best (best_by_ratio fp legs i best_ratio best) d
unfolding best_by_ratio
best_by_ratio_lem fp [] i best_ratio best d = inl refl
best_by_ratio_lem fp (l ∷ legs) i best_ratio best d =
    let ratio = fp.ratio l.sent_count (if ltb 0 l.weight then l.weight else 1) in
    elim (Bool-cases (usable l && fp.less ratio best_ratio)) [
      | inl better ↦ rw better (
          Found-pick l legs i best _ d (ground arith)
            (best_by_ratio_lem fp legs (i + 1) ratio (some i) d))
      | inr worse ↦
          rw worse
            (Found-cons l legs i best _ d (best_by_ratio_lem fp legs (i + 1) best_ratio best d))
    ]

module _ (fp : Doubles) (cset : ConfluxSet) (d : Leg) where
  abbrev first_loop : Option ℕ × Bool
  first_loop = best_by_rtt cset.legs 0 uint64_max none false

  select_first :
      (j : ℕ) → first_loop.0 ≡ some j → first_loop.1 ≡ true → conflux_select_leg fp cset ≡ some j
  unfolding conflux_select_leg
  select_first j e seen = rw (seen, e) refl

  select_second :
      first_loop.0 ≡ none → conflux_select_leg fp cset ≡ best_by_ratio fp cset.legs 0 fp.huge none
  unfolding conflux_select_leg
  select_second e = rw e (ground arith)

  -- When some leg that is in use has a measured round trip, the leg that is chosen is one that is
  -- in use and measured, and no other such leg is faster. (A round trip is below 2^64 - 1.)
  pub conflux_select_leg-Least :
      (k : ℕ)
      → k < length cset.legs
      → IsMeasured (get_or cset.legs k d)
      → (get_or cset.legs k d).srtt_us < uint64_max
      → (j : ℕ) × (conflux_select_leg fp cset ≡ some j)
        × (j < length cset.legs)
        × IsMeasured (get_or cset.legs j d)
        × Least (get_or cset.legs j d).srtt_us cset.legs d
  conflux_select_leg-Least k lt m small =
      elim (best_by_rtt-Kept cset.legs 0 uint64_max none false d) [
        | inl (same, seen, least) ↦ absurd (omega (arith, least k lt m))
        | inr (j, found, seen, w) ↦
            (j, select_first j (found ∙ ap some (omega arith)) seen, w.inside, w.measured, w.least)
      ]

  -- Whatever leg is chosen is one of the set's, active and with a circuit, however doubles compare.
  pub conflux_select_leg-usable :
      (j : ℕ)
      → conflux_select_leg fp cset ≡ some j
      → (j < length cset.legs) × (usable (get_or cset.legs j d) ≡ true)
  conflux_select_leg-usable j chosen = elim (best_by_rtt-Kept cset.legs 0 uint64_max none false d) [
    | inr (n, found, seen, w) ↦
        let same : j ≡ n = ground (arith, select_first (0 + n) found seen) in
        rw same (w.inside, w.measured.0)
    | inl (same, seen, least) ↦ elim (best_by_ratio_lem fp cset.legs 0 fp.huge none d) [
      | inl nobody ↦ absurd (ground (arith, select_second same))
      | inr (n, found, lt, u) ↦ let eq : j ≡ n = ground (arith, select_second same) in rw eq (lt, u)
    ]
  ]
