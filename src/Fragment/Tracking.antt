-- ===== src/Fragment/Tracking.antt =====
-- A fragment stream keeps its slot: the search finds it again after writes and expiry.
use moor_pq.Base.{
  ℕ, zero, suc, ◌<◌, ◌≡◌, ◌≢◌, false, none, some, [], ◌∷◌, map, length, get_or, set, ◌&&◌, ◌==◌,
  arith, Option-cases,
}
use moor_pq.Fragment.{Slot, State, blank_slot, expire_slot, find_active}
use moor_pq.Fragment.Slots.{Serves, find_active_lem}

Serves-head :
    (frag_id : ℕ) (s : Slot) (slots : State)
    → Serves frag_id s
    → find_active frag_id (s ∷ slots) ≡ some 0
unfolding find_active
Serves-head frag_id s slots h = ground arith

-- The search passes over a head that it does not take.
passes :
    (frag_id : ℕ) (s : Slot) (slots : State) (j : ℕ)
    → find_active frag_id (s ∷ slots) ≡ some (suc j)
    → ((s.active && s.fragment_id == frag_id) ≡ false) × (find_active frag_id slots ≡ some j)
unfolding find_active
passes frag_id s slots j h = ground (arith, Option-cases (find_active frag_id slots))

passed :
    (frag_id : ℕ) (s : Slot) (slots : State) (j : ℕ)
    → (s.active && s.fragment_id == frag_id) ≡ false
    → find_active frag_id slots ≡ some j
    → find_active frag_id (s ∷ slots) ≡ some (suc j)
unfolding find_active
passed frag_id s slots j skip h = simp (skip, h)

missed :
    (frag_id : ℕ) (s : Slot) (slots : State)
    → find_active frag_id (s ∷ slots) ≡ none
    → ((s.active && s.fragment_id == frag_id) ≡ false) × (find_active frag_id slots ≡ none)
unfolding find_active
missed frag_id s slots h = ground (arith, Option-cases (find_active frag_id slots))

nothing_found : (frag_id i : ℕ) → find_active frag_id [] ≢ some i
unfolding find_active
nothing_found frag_id i h = cc

pub find_active-set :
    (frag_id : ℕ) (slots : State) (i : ℕ) (s : Slot)
    → find_active frag_id slots ≡ some i
    → Serves frag_id s
    → find_active frag_id (set slots i s) ≡ some i
find_active-set frag_id [] i s h v = absurd (nothing_found frag_id i h)
find_active-set frag_id (x ∷ slots) zero s h v = Serves-head frag_id s slots v
find_active-set frag_id (x ∷ slots) (suc j) s h v =
    let (skip, rest) = passes frag_id x slots j h in
    passed frag_id x (set slots j s) j skip (find_active-set frag_id slots j s rest v)

pub find_active-open :
    (frag_id : ℕ) (slots : State) (i : ℕ) (s : Slot)
    → find_active frag_id slots ≡ none
    → i < length slots
    → Serves frag_id s
    → find_active frag_id (set slots i s) ≡ some i
find_active-open frag_id [] i s h lt v = absurd (omega arith)
find_active-open frag_id (x ∷ slots) zero s h lt v = Serves-head frag_id s slots v
find_active-open frag_id (x ∷ slots) (suc j) s h lt v =
    let (skip, rest) = missed frag_id x slots h in
    passed frag_id x (set slots j s) j skip
      (find_active-open frag_id slots j s rest (omega arith) v)

Serves-found :
    (frag_id : ℕ) (s : Slot) (slots : State)
    → find_active frag_id (s ∷ slots) ≡ some 0
    → Serves frag_id s
Serves-found frag_id s slots h =
    let found = rw h at (find_active_lem frag_id (s ∷ slots)) in found.1

expire_skipped :
    (frag_id now : ℕ) (s : Slot)
    → (s.active && s.fragment_id == frag_id) ≡ false
    → ((expire_slot now s).active && (expire_slot now s).fragment_id == frag_id) ≡ false
unfolding expire_slot
expire_skipped frag_id now s h = ground arith

pub find_active-expire :
    (frag_id now : ℕ) (slots : State) (i : ℕ)
    → find_active frag_id slots ≡ some i
    → expire_slot now (get_or slots i blank_slot) ≡ get_or slots i blank_slot
    → find_active frag_id (map (expire_slot now) slots) ≡ some i
find_active-expire frag_id now [] i h e = absurd (nothing_found frag_id i h)
find_active-expire frag_id now (x ∷ slots) zero h e =
    rw e (Serves-head frag_id x (map (expire_slot now) slots) (Serves-found frag_id x slots h))
find_active-expire frag_id now (x ∷ slots) (suc j) h e =
    let (skip, rest) = passes frag_id x slots j h in
    passed frag_id (expire_slot now x) (map (expire_slot now) slots) j
      (expire_skipped frag_id now x skip) (find_active-expire frag_id now slots j rest e)
