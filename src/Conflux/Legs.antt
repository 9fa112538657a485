-- ===== src/Conflux/Legs.antt =====
-- The legs of a conflux set in src/conflux.c: added, timed, chosen and cut off.
pub mod Membership
pub mod Choice
use moor_pq.Base.{
  ℕ, zero, suc, ◌+◌, ◌-◌, ◌*◌, ◌/◌, ◌%◌, ◌^◌, Bool, true, false, not, ◌&&◌, ◌||◌, Option, none,
  some, List, [], ◌∷◌, ◌++◌, map, length, get_or, set, take, zeros, write_at, replicate, ltb, leb,
  ◌==◌, if◌then◌else◌, u64, sub_u64,
}
use mathlib.Core.Option
use moor_pq.Conflux.{Leg, Circuit, ConfluxSet, max_legs, uint64_max, new_leg, same_circuit}

pub find_inactive : List Leg → Option ℕ
find_inactive [] = none
find_inactive (l ∷ legs) = if l.active then Option.map suc (find_inactive legs) else some 0

-- `moor_conflux_add_leg`; `false` stands for -1.
pub conflux_add_leg : ConfluxSet → Circuit → Bool × ConfluxSet
conflux_add_leg cset circuit = elim (find_inactive cset.legs) [
  | some i ↦ (true, record cset { legs = set cset.legs i (new_leg circuit) })
  | none ↦
      if leb max_legs (length cset.legs)
      then (false, cset)
      else (true, record cset { legs = cset.legs ++ (new_leg circuit ∷ []) })
]

-- `moor_conflux_update_rtt`; `leg_idx` is the bit pattern of an int.
pub conflux_update_rtt : ConfluxSet → ℕ → ℕ → ConfluxSet
conflux_update_rtt cset leg_idx rtt_us =
    if leb (length cset.legs) leg_idx
    then cset
    else let leg =
        get_or cset.legs leg_idx (new_leg (record { address = 0; circ_package_window = 0 })) in
      let leg' : Leg =
        if not leg.rtt_initialized
        then record leg { srtt_us = rtt_us; min_rtt_us = rtt_us; rtt_initialized = true }
        else record leg {
          srtt_us = u64 (leg.srtt_us * 7 + rtt_us) / 8;
          min_rtt_us = if ltb rtt_us leg.min_rtt_us then rtt_us else leg.min_rtt_us;
        } in
      record cset { legs = set cset.legs leg_idx leg' }

-- A pointer that is not null.
abbrev pub present : Option ℕ → Bool
present none = false
present (some a) = true

-- A leg that can be chosen.
abbrev pub usable : Leg → Bool
usable l = l.active && present l.circuit

-- The first loop of `moor_conflux_select_leg`, standing at `i`: `best_rtt`, `best` and `any_rtt`.
unfoldable pub best_by_rtt : List Leg → ℕ → ℕ → Option ℕ → Bool → Option ℕ × Bool
best_by_rtt [] i best_rtt best any_rtt = (best, any_rtt)
best_by_rtt (l ∷ legs) i best_rtt best any_rtt =
    if usable l && l.rtt_initialized
    then if ltb l.srtt_us best_rtt
      then best_by_rtt legs (i + 1) l.srtt_us (some i) true
      else best_by_rtt legs (i + 1) best_rtt best true
    else best_by_rtt legs (i + 1) best_rtt best any_rtt

-- The doubles of C, where the program uses them.
pub record Doubles : Type 1 where
  pub Double : Type 0
  -- `(double)a / (double)b`
  pub ratio : ℕ → ℕ → Double
  pub less : Double → Double → Bool
  -- `1e18`
  pub huge : Double

module _ (fp : Doubles) where
  open fp use {Double, ratio, less, huge}

  -- The second loop: the leg with the least `sent_count` for its weight.
  unfoldable pub best_by_ratio : List Leg → ℕ → Double → Option ℕ → Option ℕ
  best_by_ratio [] i best_ratio best = best
  best_by_ratio (l ∷ legs) i best_ratio best =
      let r = ratio l.sent_count (if ltb 0 l.weight then l.weight else 1) in
      if usable l && less r best_ratio
      then best_by_ratio legs (i + 1) r (some i)
      else best_by_ratio legs (i + 1) best_ratio best

  -- `moor_conflux_select_leg`; `none` stands for -1.
  unfoldable pub conflux_select_leg : ConfluxSet → Option ℕ
  unfolding best_by_rtt best_by_ratio
  conflux_select_leg cset =
      let (best, any_rtt) = best_by_rtt cset.legs 0 uint64_max none false in
      if any_rtt && present best then best else best_by_ratio cset.legs 0 huge best

-- The leg of a failed circuit, cut off; the first one only.
pub cut_leg : ℕ → List Leg → List Leg
cut_leg failed [] = []
cut_leg failed (l ∷ legs) =
    if same_circuit l.circuit failed
    then (record l { active = false; circuit = none }) ∷ legs
    else l ∷ cut_leg failed legs

pub count_active : List Leg → ℕ
count_active [] = 0
count_active (l ∷ legs) = if l.active then suc (count_active legs) else count_active legs

-- `moor_conflux_leg_failed`; `false` stands for -1.
pub conflux_leg_failed : ConfluxSet → ℕ → Bool × ConfluxSet
unfolding cut_leg count_active
conflux_leg_failed cset failed =
    let legs' = cut_leg failed cset.legs in
    (not (count_active legs' == 0), record cset { legs = legs' })
