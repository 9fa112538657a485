-- ===== src/Mix/Pool.antt =====
-- The pool of src/mix.c: what every operation keeps, and what a new cell is in it.
use moor_pq.Base.{
  ℕ, zero, suc, ◌+◌, ◌≡◌, ◌≢◌, ◌<◌, ◌≤◌, ◌∙◌, refl, sym, ap, Bool, true, false, List, [], ◌∷◌,
  length, length-set, replicate, set, get_or-set_ne, arith, All, All-set, All-get_or, inl, inr, ltb,
  leb, ltb→le, Bool-cases, if◌then◌else◌, u64,
}
use moor_pq.Mix.{
  Fds, MixEntry, MixPool, unused_entry, of_circuit, latest_fire, filled, fire_after, wiped, release,
  mix_pool_size, uint64_max,
}
use moor_pq.Mix.Scans.{at_slot, active_inside, of_circuit-active, latest_fire_lem}

abbrev one_if : Bool → ℕ
one_if b = if b then 1 else 0

-- The number of cells in the pool.
pub active_count : List MixEntry → ℕ
active_count [] = 0
active_count (e ∷ entries) = (one_if e.active) + active_count entries

-- A cell of the pool has a time, which is not after `bound`.
abbrev pub HasTime : ℕ → MixEntry → Type 0
HasTime bound e = e.active ≡ true → (0 < e.fire_time) × (e.fire_time ≤ bound)

-- The pool has its places, counts its cells, and no time is after `bound`.
pub record IsPool (bound : ℕ) (pool : MixPool) : Type 0 where
  pub size : length pool.entries ≡ mix_pool_size
  pub counted : pool.count ≡ active_count pool.entries
  pub times : All (HasTime bound) pool.entries

active_count-set :
    (entries : List MixEntry) (i : ℕ) (e : MixEntry)
    → i < length entries
    → active_count (set entries i e) + (one_if (at_slot entries i).active)
      ≡ active_count entries + (one_if e.active)
unfolding active_count
active_count-set [] i e inside = absurd (omega arith)
active_count-set (x ∷ entries) zero e inside = omega arith
active_count-set (x ∷ entries) (suc i) e inside =
    omega (arith, active_count-set entries i e (omega arith))

pub active_count-taken :
    (entries : List MixEntry) (i : ℕ) (e : MixEntry)
    → (at_slot entries i).active ≡ true
    → e.active ≡ false
    → active_count (set entries i e) + 1 ≡ active_count entries
active_count-taken entries i e used free =
    let h = active_count-set entries i e (active_inside entries i used) in
    let (one, none_now) : ((one_if (at_slot entries i).active) ≡ 1) × ((one_if e.active) ≡ 0) =
      (rw (used) refl, rw (free) refl) in
    omega (arith, h, one, none_now)

pub active_none :
    (entries : List MixEntry) (j : ℕ)
    → active_count entries ≡ 0
    → (at_slot entries j).active ≡ false
active_none entries j nothing = elim (Bool-cases (at_slot entries j).active) [
  | inl used ↦ absurd (omega (arith, active_count-taken entries j unused_entry used refl, nothing))
  | inr free ↦ free
]

pub active_count-put :
    (entries : List MixEntry) (i : ℕ) (e : MixEntry)
    → i < length entries
    → (at_slot entries i).active ≡ false
    → e.active ≡ true
    → active_count (set entries i e) ≡ active_count entries + 1
active_count-put entries i e inside free used =
    let h = active_count-set entries i e inside in
    let (none_there, one) : ((one_if (at_slot entries i).active) ≡ 0) × ((one_if e.active) ≡ 1) =
      (rw (free) refl, rw (used) refl) in
    omega (arith, h, one, none_there)

pub active_count-kept :
    (entries : List MixEntry) (i : ℕ) (e : MixEntry)
    → (at_slot entries i).active ≡ true
    → e.active ≡ true
    → active_count (set entries i e) ≡ active_count entries
active_count-kept entries i e used used_too =
    let h = active_count-set entries i e (active_inside entries i used) in
    let (one, one_too) : ((one_if (at_slot entries i).active) ≡ 1) × ((one_if e.active) ≡ 1) =
      (rw (used) refl, rw (used_too) refl) in
    omega (arith, h, one, one_too)

pub active_count_bound : (entries : List MixEntry) → active_count entries ≤ length entries
unfolding active_count
active_count_bound [] = omega arith
active_count_bound (e ∷ entries) = elim (Bool-cases e.active) [
  | inl used ↦ rw (used) (omega (arith, active_count_bound entries))
  | inr free ↦ rw (free) (omega (arith, active_count_bound entries))
]

-- A cell is taken out.
pub release-IsPool :
    (bound i : ℕ) (pool : MixPool)
    → (at_slot pool.entries i).active ≡ true
    → IsPool bound pool
    → IsPool bound (release i pool)
release-IsPool bound i pool used v =
    let e = wiped (at_slot pool.entries i) in
    record {
      size = length-set pool.entries i e ∙ v.size;
      counted = omega (arith, v.counted, active_count-taken pool.entries i e used refl);
      times = All-set (HasTime bound) pool.entries i e v.times (λ h. absurd (ground (arith, h)));
    }

pub latest_fire_bound :
    (conn circuit_id latest bound : ℕ) (entries : List MixEntry)
    → latest ≤ bound
    → All (HasTime bound) entries
    → latest_fire conn circuit_id latest entries ≤ bound
unfolding latest_fire
latest_fire_bound conn circuit_id latest bound [] low all = low
latest_fire_bound conn circuit_id latest bound (e ∷ entries) low (h, all) =
    elim (Bool-cases (of_circuit conn circuit_id e)) [
      | inr other ↦ rw (other) (latest_fire_bound conn circuit_id latest bound entries low all)
      | inl mine ↦
          let (_, few) = h (of_circuit-active conn circuit_id e mine) in
          elim (Bool-cases (ltb latest e.fire_time)) [
            | inl less ↦
                rw (mine, less)
                  (latest_fire_bound conn circuit_id e.fire_time bound entries few all)
            | inr more ↦
                rw (mine, more) (latest_fire_bound conn circuit_id latest bound entries low all)
          ]
    ]

-- The new cell that `put_entry` writes.
abbrev pub new_entry : Fds → ℕ → ℕ → ℕ → List ℕ → ℕ → ℕ → ℕ → List MixEntry → MixEntry
new_entry fds conn circuit_id command payload clock delay i entries =
    let e = filled fds conn circuit_id command payload (at_slot entries i) in
    record e {
      fire_time =
          fire_after (u64 (clock + delay)) (latest_fire conn circuit_id 0 (set entries i e));
      active = true;
    }

-- The time of a new cell: not after the bound, or just after it, and after a time that is not after the
-- latest.
fire_after_lem :
    (desired prev bound : ℕ)
    → 0 < desired
    → desired ≤ bound
    → prev ≤ bound
    → bound + 1 < uint64_max
    → 0 < fire_after (u64 desired) prev
      × fire_after (u64 desired) prev ≤ bound + 1
      × ((time : ℕ) → 0 < time → time ≤ prev → time < fire_after (u64 desired) prev)
fire_after_lem desired prev bound some_time low few room =
    let small : u64 desired ≡ desired = omega arith in
    let small_next : u64 (prev + 1) ≡ prev + 1 = omega arith in
    elim (Bool-cases (ltb 0 prev)) [
      | inr nothing ↦
          rw (small, nothing)
            (
              some_time,
              omega arith,
              λ time late early. absurd (omega (arith, ltb→le 0 prev nothing)),
            )
      | inl before ↦ elim (Bool-cases (leb desired prev)) [
        | inl not_after ↦
            rw (small, before, not_after, small_next)
              (omega arith, omega arith, λ time late early. omega arith)
        | inr after ↦
            let less : prev < desired = ground (arith, after) in
            rw (small, before, after) (some_time, omega arith, λ time late early. omega arith)
      ]
    ]

module _ (fds : Fds) (conn circuit_id command : ℕ) (payload : List ℕ) (clock delay bound : ℕ)
    (some_time : 0 < clock) (soon : clock + delay ≤ bound) (room : bound + 1 < uint64_max) where
  -- The time of a new cell, against the bound and against the times of its circuit.
  pub new_entry_lem :
      (i : ℕ) (entries : List MixEntry)
      → All (HasTime bound) entries
      → HasTime (bound + 1) (new_entry fds conn circuit_id command payload clock delay i entries)
        × ((j : ℕ)
            → j ≢ i
            → of_circuit conn circuit_id (at_slot entries j) ≡ true
            → (at_slot entries j).fire_time
              < (new_entry fds conn circuit_id command payload clock delay i entries).fire_time)
  new_entry_lem i entries all =
      let e = filled fds conn circuit_id command payload (at_slot entries i) in
      let prev = latest_fire conn circuit_id 0 (set entries i e) in
      let few : prev ≤ bound =
        latest_fire_bound conn circuit_id 0 bound (set entries i e) (omega arith) (
          All-set (HasTime bound) entries i e all (λ h.
            All-get_or (HasTime bound) entries i unused_entry all (active_inside entries i h) h)) in
      let (positive, low, later) =
        fire_after_lem (clock + delay) prev bound (omega arith) soon few room in
      (
        λ h. (positive, low),
        λ j apart mine.
            let kept : at_slot (set entries i e) j ≡ at_slot entries j =
              get_or-set_ne entries i j e unused_entry (λ s. apart (sym s)) in
            let inside =
              active_inside entries j
                (of_circuit-active conn circuit_id (at_slot entries j) mine) in
            let (some_fire, _) =
              All-get_or (HasTime bound) entries j unused_entry all inside
                (of_circuit-active conn circuit_id (at_slot entries j) mine) in
            later (at_slot entries j).fire_time some_fire (
              omega (
                arith,
                (latest_fire_lem conn circuit_id 0 (set entries i e)).1 j
                    (ap (of_circuit conn circuit_id) kept ∙ mine),
                ap (λ x. x.fire_time) kept,
              )),
      )

pub no_cells : (n : ℕ) → active_count (replicate n unused_entry) ≡ 0
unfolding replicate active_count
no_cells zero = refl
no_cells (suc n) = omega (arith, no_cells n)
