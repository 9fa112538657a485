-- ===== src/Mix/Scans.antt =====
-- The scans of the pool in src/mix.c: the earliest entry, the latest time of a circuit, a free place.
use moor_pq.Base.{
  ℕ, zero, suc, ◌+◌, ◌≡◌, ◌<◌, ◌≤◌, ◌∙◌, refl, ap, Bool, true, false, ◌&&◌, Option, none, some,
  List, [], ◌∷◌, length, get_or, ltb, ◌==◌, if◌then◌else◌, arith, ltb→lt, ltb→le, Bool-cases, inl,
  inr, ◌⊎◌,
}
use moor_pq.Mix.{
  MixEntry, unused_entry, of_circuit, latest_fire, pick_from, pick, uint64_max, find_unused,
}

abbrev pub at_slot : List MixEntry → ℕ → MixEntry
at_slot entries i = get_or entries i unused_entry

pub and_true : (a b : Bool) → (a && b) ≡ true → (a ≡ true) × (b ≡ true)
and_true true b h = (refl, h)
and_true false b h = absurd (ground (arith, h))

-- An entry that is in use stands inside the pool.
pub active_inside :
    (entries : List MixEntry) (i : ℕ) → (at_slot entries i).active ≡ true → i < length entries
active_inside [] zero h = absurd (ground (arith, h))
active_inside [] (suc i) h = absurd (ground (arith, h))
active_inside (e ∷ entries) zero h = omega arith
active_inside (e ∷ entries) (suc i) h = omega (arith, active_inside entries i h)

-- What a scan for the earliest finds: the best so far, if no entry that passes is earlier, or the place
-- of one that passes and is as early as all of them.
abbrev pub Least : (MixEntry → Bool) → List MixEntry → ℕ → Type 0
Least test entries time =
    (j : ℕ)
    → j < length entries
    → test (at_slot entries j) ≡ true
    → time ≤ (at_slot entries j).fire_time

abbrev Picked : (MixEntry → Bool) → ℕ → Option ℕ → ℕ → List MixEntry → Option ℕ → Type 0
Picked test i best best_time entries found =
    (found ≡ best × Least test entries best_time)
    ⊎ ((k : ℕ) × found ≡ some (i + k)
        × k < length entries
        × test (at_slot entries k) ≡ true
        × (at_slot entries k).fire_time < best_time
        × Least test entries (at_slot entries k).fire_time)

module _ (test : MixEntry → Bool) where
  Least-cons :
      (e : MixEntry) (entries : List MixEntry) (time : ℕ)
      → (test e ≡ true → time ≤ e.fire_time)
      → Least test entries time
      → Least test (e ∷ entries) time
  Least-cons e entries time first rest zero low passes = first passes
  Least-cons e entries time first rest (suc j) low passes = rest j (omega arith) passes

  pick_from_lem :
      (i : ℕ) (best : Option ℕ) (best_time : ℕ) (entries : List MixEntry)
      → Picked test i best best_time entries (pick_from test i best best_time entries)
  unfolding pick_from
  pick_from_lem i best best_time [] = inl (refl, λ j low. absurd (omega arith))
  pick_from_lem i best best_time (e ∷ entries) = elim (Bool-cases (test e)) [
    | inr fails ↦ rw (fails) (elim (pick_from_lem (i + 1) best best_time entries) [
      | inl (none_better, least) ↦ inl (
        none_better,
        Least-cons e entries best_time (λ t. absurd (ground (arith, t, fails))) least,
      )
      | inr (k, at, low, passes, less, least) ↦ inr (
        suc k,
        at ∙ ap some {x = i + 1 + k} (omega arith),
        omega arith,
        passes,
        less,
        Least-cons e entries _ (λ t. absurd (ground (arith, t, fails))) least,
      )
    ])
    | inl passes_e ↦ elim (Bool-cases (ltb e.fire_time best_time)) [
      | inl earlier ↦
          rw (passes_e, earlier)
            (elim (pick_from_lem (i + 1) (some i) e.fire_time entries) [
              | inl (kept, least) ↦ inr (
                0,
                kept ∙ ap some {x = i} {y = i + 0} (omega arith),
                omega arith,
                passes_e,
                ltb→lt e.fire_time best_time earlier,
                Least-cons e entries e.fire_time (λ t. omega arith) least,
              )
              | inr (k, at, low, passes, less, least) ↦ inr (
                suc k,
                at ∙ ap some {x = i + 1 + k} (omega arith),
                omega arith,
                passes,
                omega (arith, ltb→lt e.fire_time best_time earlier),
                Least-cons e entries _ (λ t. omega arith) least,
              )
            ])
      | inr later ↦
          let more = ltb→le e.fire_time best_time later in
          rw (passes_e, later)
            (elim (pick_from_lem (i + 1) best best_time entries) [
              | inl (none_better, least) ↦
                  inl (none_better, Least-cons e entries best_time (λ t. more) least)
              | inr (k, at, low, passes, less, least) ↦ inr (
                suc k,
                at ∙ ap some {x = i + 1 + k} (omega arith),
                omega arith,
                passes,
                less,
                Least-cons e entries _ (λ t. omega arith) least,
              )
            ])
    ]
  ]

-- What `pick` finds: nothing, if every entry that passes has the last time there is, or the place of one
-- that passes, as early as all of them.
pub pick_lem :
    (test : MixEntry → Bool) (entries : List MixEntry)
    → (pick test entries ≡ none × Least test entries uint64_max)
      ⊎ ((k : ℕ) × pick test entries ≡ some k
          × k < length entries
          × test (at_slot entries k) ≡ true
          × Least test entries (at_slot entries k).fire_time)
pick_lem test entries = elim (pick_from_lem test 0 none uint64_max entries) [
  | inl (nothing, least) ↦ inl (nothing, least)
  | inr (k, at, low, passes, less, least) ↦
      inr (k, at ∙ ap some {x = 0 + k} (omega arith), low, passes, least)
]

pub of_circuit-active :
    (conn circuit_id : ℕ) (e : MixEntry) → of_circuit conn circuit_id e ≡ true → e.active ≡ true
of_circuit-active conn circuit_id e h =
    (and_true e.active (e.target_conn == conn)
      (and_true (e.active && (e.target_conn == conn)) (e.circuit_id == circuit_id) h).0).0

later_of :
    (b : Bool) (x y : ℕ)
    → x ≤ (if b && ltb x y then y else x) × (b ≡ true → y ≤ (if b && ltb x y then y else x))
later_of false x y = (omega arith, λ h. absurd (ground (arith, h)))
later_of true x y = elim (Bool-cases (ltb x y)) [
  | inl less ↦ let low = ltb→lt x y less in rw (less) (omega arith, λ h. omega arith)
  | inr more ↦ let high = ltb→le x y more in rw (more) (omega arith, λ h. high)
]

-- The latest time of a circuit is not before any of its entries.
pub latest_fire_lem :
    (conn circuit_id latest : ℕ) (entries : List MixEntry)
    → latest ≤ latest_fire conn circuit_id latest entries
      × ((j : ℕ)
          → of_circuit conn circuit_id (at_slot entries j) ≡ true
          → (at_slot entries j).fire_time ≤ latest_fire conn circuit_id latest entries)
unfolding latest_fire
latest_fire_lem conn circuit_id latest [] = (
  omega arith,
  λ j h.
      let none_there : j < 0 =
        active_inside [] j (of_circuit-active conn circuit_id (at_slot [] j) h) in
      absurd (omega arith),
)
latest_fire_lem conn circuit_id latest (e ∷ entries) =
    let test = of_circuit conn circuit_id e in
    let now = if test && ltb latest e.fire_time then e.fire_time else latest in
    let (grown, all) = latest_fire_lem conn circuit_id now entries in
    let up : latest ≤ now = (later_of test latest e.fire_time).0 in
    let up_e : test ≡ true → e.fire_time ≤ now = (later_of test latest e.fire_time).1 in
    (omega (arith, up, grown), go grown all up_e)
  where
    go :
        {now : ℕ}
        → now ≤ latest_fire conn circuit_id now entries
        → ((j : ℕ)
            → of_circuit conn circuit_id (at_slot entries j) ≡ true
            → (at_slot entries j).fire_time ≤ latest_fire conn circuit_id now entries)
        → (of_circuit conn circuit_id e ≡ true → e.fire_time ≤ now)
        → (j : ℕ) → of_circuit conn circuit_id (at_slot (e ∷ entries) j) ≡ true
        → (at_slot (e ∷ entries) j).fire_time ≤ latest_fire conn circuit_id now entries
    go grown all up_e zero h = omega (arith, up_e h, grown)
    go grown all up_e (suc j) h = all j h

-- A free place is inside the pool, and not in use.
pub find_unused_lem :
    (i : ℕ) (entries : List MixEntry)
    → (find_unused i entries ≡ none
        × ((j : ℕ) → j < length entries → (at_slot entries j).active ≡ true))
      ⊎ ((k : ℕ) × find_unused i entries ≡ some (i + k)
          × k < length entries
          × (at_slot entries k).active ≡ false)
unfolding find_unused
find_unused_lem i [] = inl (refl, λ j low. absurd (omega arith))
find_unused_lem i (e ∷ entries) = elim (Bool-cases e.active) [
  | inr free ↦ inr (0, rw (free) (ap some {x = i} {y = i + 0} (omega arith)), omega arith, free)
  | inl used ↦ elim (find_unused_lem (i + 1) entries) [
    | inl (nothing, all) ↦ inl (rw (used) nothing, go used all)
    | inr (k, at, low, free) ↦
        inr (suc k, rw (used) (at ∙ ap some {x = i + 1 + k} (omega arith)), omega arith, free)
  ]
]
  where
    go :
        e.active ≡ true
        → ((j : ℕ) → j < length entries → (at_slot entries j).active ≡ true)
        → (j : ℕ) → j < suc (length entries)
        → (at_slot (e ∷ entries) j).active ≡ true
    go used all zero low = used
    go used all (suc j) low = all j (omega arith)
