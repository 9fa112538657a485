-- ===== src/Dht/Ring/Closest.antt =====
-- `moor_dht_find_responsible` of src/dht.c finds the three running relays that are closest.
use moor_pq.Base.{
  ℕ, ◌+◌, ◌≡◌, ◌≤◌, ◌∙◌, sym, true, false, some, List, [], ◌∷◌, length, map, arith, All, Bool-cases,
  inl, inr, ◌⊎◌, xor_bytes, bit_xor-lt, length-xor_bytes,
}
use mathlib.Core.Path.{subst}
use moor_pq.Sodium.{Sodium, crypto_hash}
use moor_pq.Dht.Ring.{
  Relay, is_running, Best, consider, closest_loop, count_running, dht_find_responsible,
  ring_distance,
}
use moor_pq.Dht.Ring.Distance.{Bytes}
use moor_pq.Dht.Ring.Worst.{IsDistance, IsBest}
use moor_pq.Dht.Ring.Among.{IsAmong, Seen, consider_lem}

-- A running relay of the consensus, from place `i` on, with its distance.
abbrev pub Candidate : (List ℕ → List ℕ) → ℕ → List Relay → Best → Type 0
Candidate distance i [] b = ⊥
Candidate distance i (r ∷ relays) b =
    (is_running r ≡ true × b ≡ record { idx = i; dist = distance r.identity_pk })
    ⊎ Candidate distance (i + 1) relays b

-- What the scan of the relays leaves.
record Scanned (distance : List ℕ → List ℕ) (i : ℕ) (relays : List Relay) (best after : List Best)
    : Type 0 where
  few : length after ≤ 3
  seen : (c : Best) → Candidate distance i relays c ⊎ Seen c best → Seen c after
  from : (c : Best) → IsAmong c after → Candidate distance i relays c ⊎ IsAmong c best

module _ (distance : List ℕ → List ℕ) (sound : (pk : List ℕ) → IsDistance (distance pk)) where
  closest_loop_lem :
      (i : ℕ) (relays : List Relay) (best : List Best)
      → length best ≤ 3
      → All IsBest best
      → Scanned distance i relays best (closest_loop distance i relays best)
  unfolding closest_loop
  closest_loop_lem i [] best few all = record {
    few = few;
    seen = λ c h. elim h [ inl nothing ↦ absurd nothing | inr s ↦ s ];
    from = λ c h. inr h;
  }
  closest_loop_lem i (r ∷ relays) best few all = elim (Bool-cases (is_running r)) [
    | inr down ↦
        let x = closest_loop_lem (i + 1) relays best few all in
        rw (down) (record {
          few = x.few;
          seen = λ c h. elim h [
            | inl (inl (up, e)) ↦ absurd (ground (arith, up, down))
            | inl (inr later) ↦ x.seen c (inl later)
            | inr s ↦ x.seen c (inr s)
          ];
          from = λ c h. elim (x.from c h) [ inl later ↦ inl (inr later) | inr among ↦ inr among ];
        })
    | inl running ↦
        let b : Best = record { idx = i; dist = distance r.identity_pk } in
        let y = consider_lem b best (sound r.identity_pk) few all in
        let x = closest_loop_lem (i + 1) relays (consider b best) y.few y.distances in
        rw (running) (record {
          few = x.few;
          seen = λ c h. elim h [
            | inl (inl (up, e)) ↦
                x.seen c (inr (subst (λ z. Seen z (consider b best)) (sym e) y.seen))
            | inl (inr later) ↦ x.seen c (inl later)
            | inr s ↦ x.seen c (inr (y.still_seen c s))
          ];
          from = λ c h. elim (x.from c h) [
            | inl later ↦ inl (inr later)
            | inr among ↦ elim (y.from c among) [
              | inl new ↦ inl (inl (running, new))
              | inr old ↦ inr old
            ]
          ];
        })
  ]

xor_bytes-Bytes : (a b : List ℕ) → Bytes a → Bytes b → Bytes (xor_bytes a b)
xor_bytes-Bytes [] b v w = tt
xor_bytes-Bytes (x ∷ a) [] v w = tt
xor_bytes-Bytes (x ∷ a) (y ∷ b) (few, v) (few', w) =
    (bit_xor-lt 8 x y few few', xor_bytes-Bytes a b v w)

ring_distance-IsDistance :
    (na : Sodium) (address_hash srv : List ℕ) (time_period : ℕ) (pk : List ℕ)
    → IsDistance (ring_distance na address_hash srv time_period pk)
unfolding ring_distance crypto_hash
ring_distance-IsDistance na address_hash srv time_period pk = record {
  size =
      length-xor_bytes _ _ (na.length-generichash 32 _ ∙ sym (na.length-generichash 32 _))
      ∙ na.length-generichash 32 _;
  bytes = xor_bytes-Bytes _ _ (na.generichash-bytes 32 _) (na.generichash-bytes 32 _);
}

-- In a consensus with six running relays or more, the relays that are found responsible are running,
-- at most three, and the closest: a running relay that is not among them is at least as far from the
-- descriptor, its distance read as a number, as each of three that are.
pub dht_find_responsible_closest :
    (na : Sodium) (address_hash : List ℕ) (relays : List Relay) (srv : List ℕ) (time_period : ℕ)
    → 6 ≤ count_running relays
    → (best : List Best) × dht_find_responsible na address_hash relays srv time_period
        ≡ some (record { relay_indices = map (λ b. b.idx) best; full_replication = false })
      × length best ≤ 3
      × ((c : Best)
          → IsAmong c best
          → Candidate (ring_distance na address_hash srv time_period) 0 relays c)
      × ((c : Best)
          → Candidate (ring_distance na address_hash srv time_period) 0 relays c
          → Seen c best)
unfolding dht_find_responsible
dht_find_responsible_closest na address_hash relays srv time_period six =
    let distance = ring_distance na address_hash srv time_period in
    let x =
      closest_loop_lem distance (ring_distance-IsDistance na address_hash srv time_period) 0 relays
        [] (omega arith) tt in
    (
      closest_loop distance 0 relays [],
      ground arith,
      x.few,
      λ c h. elim (x.from c h) [ inl found ↦ found | inr nothing ↦ absurd nothing ],
      λ c h. x.seen c (inl h),
    )
