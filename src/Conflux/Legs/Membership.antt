-- ===== src/Conflux/Legs/Membership.antt =====
-- How many legs a conflux set has, and what a failure takes away.
use moor_pq.Base.{
  ℕ, zero, suc, ◌≤◌, ◌<◌, ◌≡◌, refl, true, false, not, none, some, List, [], ◌∷◌, ◌++◌, length,
  length-append, length-set, set, ◌==◌, if◌then◌else◌, arith, lt_or_le, Option-cases, inl, inr,
}
use moor_pq.Conflux.{Leg, Circuit, ConfluxSet, max_legs, new_leg, same_circuit}
use moor_pq.Conflux.Legs.{find_inactive, conflux_add_leg, cut_leg, count_active, conflux_leg_failed}
use moor_pq.Conflux.Reorder.{leg_found}

count_active-le : (legs : List Leg) → count_active legs ≤ length legs
unfolding count_active
count_active-le [] = omega arith
count_active-le (x ∷ legs) = let ih = count_active-le legs in ground arith

count_active-set :
    (legs : List Leg) (i : ℕ) (l : Leg)
    → find_inactive legs ≡ some i
    → l.active ≡ true
    → (count_active (set legs i l) ≡ suc (count_active legs)) × (count_active legs < length legs)
unfolding find_inactive count_active
count_active-set [] i l h on = absurd (ground arith)
count_active-set (x ∷ legs) zero l h on =
    ground (arith, count_active-le legs, Option-cases (find_inactive legs))
count_active-set (x ∷ legs) (suc i) l h on =
    let ih = count_active-set legs i l (ground (arith, Option-cases (find_inactive legs))) on in
    ground arith

count_active_full : (legs : List Leg) → find_inactive legs ≡ none → count_active legs ≡ length legs
unfolding find_inactive count_active
count_active_full [] h = refl
count_active_full (x ∷ legs) h =
    let ih = count_active_full legs (ground (arith, Option-cases (find_inactive legs))) in
    ground arith

count_active-append :
    (legs : List Leg) (l : Leg)
    → l.active ≡ true
    → count_active (legs ++ (l ∷ [])) ≡ suc (count_active legs)
unfolding count_active
count_active-append [] l on = ground arith
count_active-append (x ∷ legs) l on = let ih = count_active-append legs l on in ground arith

-- The ways of `conflux_add_leg`.
module _ (cset : ConfluxSet) (circuit : Circuit) where
  add_leg_reuse :
      (i : ℕ)
      → find_inactive cset.legs ≡ some i
      → conflux_add_leg cset circuit
        ≡ (true, record cset { legs = set cset.legs i (new_leg circuit) })
  unfolding conflux_add_leg
  add_leg_reuse i found = ground arith

  add_leg_full :
      find_inactive cset.legs ≡ none
      → max_legs ≤ length cset.legs
      → conflux_add_leg cset circuit ≡ (false, cset)
  unfolding conflux_add_leg
  add_leg_full full four = ground arith

  add_leg_append :
      find_inactive cset.legs ≡ none
      → length cset.legs < max_legs
      → conflux_add_leg cset circuit
        ≡ (true, record cset { legs = cset.legs ++ (new_leg circuit ∷ []) })
  unfolding conflux_add_leg
  add_leg_append full room = ground arith

-- A leg is refused when four are active, and only then, and the set stays as it was; else the set
-- has one active leg more. There are never more than four.
pub conflux_add_leg_lem :
    (cset : ConfluxSet) (circuit : Circuit)
    → length cset.legs ≤ max_legs
    → let (added, cset') = conflux_add_leg cset circuit in
      (length cset'.legs ≤ max_legs)
      × (added ≡ true → count_active cset'.legs ≡ suc (count_active cset.legs))
      × (added ≡ false → (cset' ≡ cset) × (count_active cset.legs ≡ max_legs))
conflux_add_leg_lem cset circuit small = elim (Option-cases (find_inactive cset.legs)) [
  | inr (i, found) ↦
      let v = count_active-set cset.legs i (new_leg circuit) found refl in
      rw (add_leg_reuse cset circuit i found) (
        omega (arith, length-set cset.legs i (new_leg circuit)),
        λ e. v.0,
        λ e. absurd (ground arith),
      )
  | inl full ↦ elim (lt_or_le (length cset.legs) max_legs) [
    | inr four ↦
        let all_active = count_active_full cset.legs full in
        rw (add_leg_full cset circuit full four)
          (small, λ e. absurd (ground arith), λ e. (refl, omega (arith, all_active)))
    | inl room ↦ rw (add_leg_append cset circuit full room) (
      omega (arith, length-append cset.legs (new_leg circuit ∷ [])),
      λ e. count_active-append cset.legs (new_leg circuit) refl,
      λ e. absurd (ground arith),
    )
  ]
]

-- How many legs run over a circuit.
unfoldable pub legs_over : ℕ → List Leg → ℕ
legs_over c [] = 0
legs_over c (l ∷ legs) =
    if same_circuit l.circuit c then suc (legs_over c legs) else legs_over c legs

leg_found_none : (c : ℕ) (legs : List Leg) → legs_over c legs ≡ 0 → leg_found c legs ≡ false
unfolding legs_over leg_found
leg_found_none c [] h = refl
leg_found_none c (l ∷ legs) h = let ih = leg_found_none c legs in ground arith

legs_over-cut_leg :
    (c : ℕ) (legs : List Leg) → legs_over c legs ≤ 1 → legs_over c (cut_leg c legs) ≡ 0
unfolding legs_over cut_leg
legs_over-cut_leg c [] h = refl
legs_over-cut_leg c (l ∷ legs) h = let ih = legs_over-cut_leg c legs in ground arith

count_active-cut_leg :
    (c : ℕ) (legs : List Leg)
    → leg_found c legs ≡ true
    → legs_over c legs ≤ 1
    → count_active legs ≡ suc (count_active (cut_leg c legs))
unfolding leg_found cut_leg count_active legs_over
count_active-cut_leg c [] h one = absurd (ground arith)
count_active-cut_leg c (l ∷ legs) h one =
    let ih = count_active-cut_leg c legs in ground (arith, leg_found_none c legs)

-- When the circuit of one active leg fails, the set has one active leg less, reports whether one
-- is left, and takes no more cells from that circuit.
pub conflux_leg_failed_lem :
    (cset : ConfluxSet) (failed : ℕ)
    → leg_found failed cset.legs ≡ true
    → legs_over failed cset.legs ≡ 1
    → let (alive, cset') = conflux_leg_failed cset failed in
      (count_active cset.legs ≡ suc (count_active cset'.legs))
      × (alive ≡ not (count_active cset.legs == 1))
      × (leg_found failed cset'.legs ≡ false)
unfolding conflux_leg_failed
conflux_leg_failed_lem cset failed found one = ground (
  arith,
  count_active-cut_leg failed cset.legs found (omega arith),
  legs_over-cut_leg failed cset.legs (omega arith),
  leg_found_none failed (cut_leg failed cset.legs),
)
