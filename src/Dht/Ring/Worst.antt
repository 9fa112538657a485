-- ===== src/Dht/Ring/Worst.antt =====
-- `worst` in `moor_dht_find_responsible` of src/dht.c: the worst of the best so far.
use moor_pq.Base.{
  ℕ, suc, ◌+◌, ◌≡◌, ◌≢◌, ◌<◌, ◌≤◌, ◌∙◌, refl, sym, ap, true, false, List, [], ◌∷◌, length, get_or,
  ◌==◌, arith, All, Bool-cases, inl, inr, ◌⊎◌, All-get_or,
}
use moor_pq.Dht.Ring.{
  Sign, minus, nought, plus, is_minus, is_plus, dht_distance_cmp, Best, no_best, worst_from,
  other_best,
}
use moor_pq.Dht.Ring.Distance.{value, Bytes, Compares, dht_distance_cmp_lem}

-- A distance of 32 bytes.
pub record IsDistance (d : List ℕ) : Type 0 where
  pub size : length d ≡ 32
  pub bytes : Bytes d

abbrev pub far : Best → ℕ
far b = value b.dist

is_plus-cmp :
    (d1 d2 : List ℕ)
    → IsDistance d1
    → IsDistance d2
    → (is_plus (dht_distance_cmp d1 d2) ≡ true × value d2 < value d1)
      ⊎ (is_plus (dht_distance_cmp d1 d2) ≡ false × value d1 ≤ value d2)
is_plus-cmp d1 d2 v w =
    read (dht_distance_cmp d1 d2) (dht_distance_cmp_lem d1 d2 (v.size ∙ sym w.size) v.bytes w.bytes)
  where
    read :
        (s : Sign)
        → Compares s (value d1) (value d2)
        → (is_plus s ≡ true × value d2 < value d1) ⊎ (is_plus s ≡ false × value d1 ≤ value d2)
    read minus h = inr (refl, omega arith)
    read nought h = inr (refl, omega arith)
    read plus h = inl (refl, h)

pub is_minus-cmp :
    (d1 d2 : List ℕ)
    → IsDistance d1
    → IsDistance d2
    → (is_minus (dht_distance_cmp d1 d2) ≡ true × value d1 < value d2)
      ⊎ (is_minus (dht_distance_cmp d1 d2) ≡ false × value d2 ≤ value d1)
is_minus-cmp d1 d2 v w =
    read (dht_distance_cmp d1 d2) (dht_distance_cmp_lem d1 d2 (v.size ∙ sym w.size) v.bytes w.bytes)
  where
    read :
        (s : Sign)
        → Compares s (value d1) (value d2)
        → (is_minus s ≡ true × value d1 < value d2) ⊎ (is_minus s ≡ false × value d2 ≤ value d1)
    read minus h = inl (refl, h)
    read nought h = inr (refl, omega arith)
    read plus h = inr (refl, omega arith)

abbrev pub IsBest : Best → Type 0
IsBest b = IsDistance b.dist

-- A bound on the places before `j`, and on place `j`.
up_to :
    (best : List Best) (j limit : ℕ)
    → ((k : ℕ) → k < j → far (get_or best k no_best) ≤ limit)
    → far (get_or best j no_best) ≤ limit
    → (k : ℕ) → k < j + 1
    → far (get_or best k no_best) ≤ limit
up_to best j limit before at k low = elim (Bool-cases (k == j)) [
  | inl here ↦
      let same : k ≡ j = ground (arith, here) in
      omega (arith, ap (λ m. far (get_or best m no_best)) same, at)
  | inr there ↦ let apart : k ≢ j = ground (arith, there) in before k (omega arith)
]

-- The worst of the best is in the list, and none before place `j` or after it is farther.
worst_from_lem :
    (best : List Best) (worst j : ℕ) (rest : List Best)
    → All IsBest best
    → All IsBest rest
    → worst < length best
    → j + length rest ≡ length best
    → ((k : ℕ) → k < length rest → get_or rest k no_best ≡ get_or best (j + k) no_best)
    → ((k : ℕ) → k < j → far (get_or best k no_best) ≤ far (get_or best worst no_best))
    → worst_from best worst j rest < length best
      × ((k : ℕ)
          → k < length best
          → far (get_or best k no_best) ≤ far (get_or best (worst_from best worst j rest) no_best))
unfolding worst_from
worst_from_lem best worst j [] v w inside size same before =
    (inside, λ k low. before k (omega arith))
worst_from_lem best worst j (b ∷ rest) v (vb, w) inside size same before =
    let next : (k : ℕ) → k < length rest → get_or rest k no_best ≡ get_or best (j + 1 + k) no_best =
      λ k low.
        same (suc k) (omega arith)
        ∙ ap (λ m. get_or best m no_best) {x = j + suc k} (omega arith) in
    let here : b ≡ get_or best j no_best =
      same 0 (omega arith) ∙ ap (λ m. get_or best m no_best) {x = j + 0} (omega arith) in
    let moved : far b ≡ far (get_or best j no_best) = ap far here in
    elim (is_plus-cmp b.dist (get_or best worst no_best).dist vb
      (All-get_or IsBest best worst no_best v inside)) [
        | inl (farther, more) ↦ rw (farther) (
            worst_from_lem best j (j + 1) rest v w (omega arith) (omega arith) next (
              up_to best j (far (get_or best j no_best))
                (λ k low. omega (arith, before k low, moved)) (omega arith)))
        | inr (nearer, less) ↦ rw (nearer) (
            worst_from_lem best worst (j + 1) rest v w inside (omega arith) next
              (up_to best j (far (get_or best worst no_best)) before (omega (arith, moved, less))))
      ]

All-places :
    (P : Best → Type 0) (best : List Best)
    → ((k : ℕ) → k < length best → P (get_or best k no_best))
    → All P best
All-places P [] h = tt
All-places P (b ∷ best) h =
    (h 0 (omega arith), All-places P best (λ k low. h (suc k) (omega arith)))

pub worst_lem :
    (best : List Best)
    → All IsBest best
    → 0 < length best
    → worst_from best 0 1 (other_best best) < length best
      × All (λ b. far b ≤ far (get_or best (worst_from best 0 1 (other_best best)) no_best)) best
worst_lem [] v some_best = absurd (omega arith)
worst_lem (b ∷ rest) v some_best =
    let (inside, all) =
      worst_from_lem (b ∷ rest) 0 1 rest v v.1 (omega arith) (omega arith)
        (λ k low. ap (λ m. get_or (b ∷ rest) m no_best) {x = suc k} {y = 1 + k} (omega arith))
        (up_to (b ∷ rest) 0 (far b) (λ k low. absurd (omega arith)) (omega arith)) in
    (inside, All-places _ (b ∷ rest) all)
