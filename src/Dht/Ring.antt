-- ===== src/Dht/Ring.antt =====
-- src/dht.c, the ring: where relays and descriptors stand in an epoch, and which relays are
-- responsible for a descriptor.
pub mod Distance
pub mod Worst
pub mod Among
pub mod Closest
use moor_pq.Base.{
  ℕ, zero, suc, ◌+◌, ◌-◌, ◌*◌, ◌/◌, ◌%◌, ◌^◌, Bool, true, false, ◌&&◌, ◌||◌, Option, none, some,
  List, [], ◌∷◌, ◌++◌, map, length, get_or, set, take, ltb, leb, ◌==◌, if◌then◌else◌, u8, ◌>>>◌,
  xor_bytes,
}
use moor_pq.Sodium.{Sodium, crypto_hash}

abbrev pub dht_replicas : ℕ
dht_replicas = 3

abbrev pub dht_small_net_thresh : ℕ
dht_small_net_thresh = 6

-- What the ring reads of a relay's descriptor.
pub record Relay : Type 0 where
  pub identity_pk : List ℕ
  pub flags : ℕ

-- `flags & NODE_FLAG_RUNNING`, bit 4
abbrev pub is_running : Relay → Bool
is_running r = r.flags / 16 % 2 == 1

-- The text "moor-dht-epoch".
abbrev epoch_label : List ℕ
epoch_label = 109 ∷ 111 ∷ 111 ∷ 114 ∷ 45 ∷ 100 ∷ 104 ∷ 116 ∷ 45 ∷ 101 ∷ 112 ∷ 111 ∷ 99 ∷ 104 ∷ []

-- The eight bytes of a number, the highest first.
abbrev put64 : ℕ → List ℕ
put64 v =
    u8 (v >>> 56)
    ∷ u8 (v >>> 48)
    ∷ u8 (v >>> 40)
    ∷ u8 (v >>> 32)
    ∷ u8 (v >>> 24)
    ∷ u8 (v >>> 16)
    ∷ u8 (v >>> 8)
    ∷ u8 v
    ∷ []

-- `moor_dht_compute_epoch_nonce`
pub dht_compute_epoch_nonce : Sodium → List ℕ → ℕ → List ℕ
dht_compute_epoch_nonce na srv time_period =
    crypto_hash na (epoch_label ++ (srv ++ put64 time_period))

-- `moor_dht_relay_ring_pos`
pub dht_relay_ring_pos : Sodium → List ℕ → List ℕ → List ℕ
dht_relay_ring_pos na identity_pk epoch_nonce = crypto_hash na (identity_pk ++ epoch_nonce)

-- `moor_dht_desc_ring_pos`
pub dht_desc_ring_pos : Sodium → List ℕ → List ℕ → List ℕ
dht_desc_ring_pos na address_hash epoch_nonce = crypto_hash na (address_hash ++ epoch_nonce)

-- `moor_dht_xor_distance`
abbrev pub dht_xor_distance : List ℕ → List ℕ → List ℕ
dht_xor_distance a b = xor_bytes a b

-- What `moor_dht_distance_cmp` returns: -1, 0 or 1.
pub data Sign : Type 0 where
  minus nought plus : Sign

-- `moor_dht_distance_cmp`
pub dht_distance_cmp : List ℕ → List ℕ → Sign
dht_distance_cmp [] d2 = nought
dht_distance_cmp (x ∷ d1) [] = nought
dht_distance_cmp (x ∷ d1) (y ∷ d2) =
    let rest = dht_distance_cmp d1 d2 in if ltb x y then minus else if ltb y x then plus else rest

abbrev pub is_minus : Sign → Bool
is_minus minus = true
is_minus nought = false
is_minus plus = false

abbrev pub is_plus : Sign → Bool
is_plus minus = false
is_plus nought = false
is_plus plus = true

-- A relay among the closest: `best_idx` and `best_dist`.
pub record Best : Type 0 where
  pub idx : ℕ
  pub dist : List ℕ

abbrev pub no_best : Best
no_best = record { idx = 0; dist = [] }

-- The place of the worst of the best, from place `j` on; `rest` are those from `j` on.
pub worst_from : List Best → ℕ → ℕ → List Best → ℕ
worst_from best worst j [] = worst
worst_from best worst j (b ∷ rest) =
    worst_from best
      (if is_plus (dht_distance_cmp b.dist (get_or best worst no_best).dist) then j else worst)
      (j + 1) rest

abbrev pub other_best : List Best → List Best
other_best [] = []
other_best (b ∷ rest) = rest

-- The best, after one more running relay.
pub consider : Best → List Best → List Best
unfolding worst_from
consider b best =
    let worst = worst_from best 0 1 (other_best best) in
    if ltb (length best) dht_replicas
    then best ++ (b ∷ [])
    else if is_minus (dht_distance_cmp b.dist (get_or best worst no_best).dist)
    then set best worst b
    else best

-- The scan of the consensus from relay `i` on.
pub closest_loop : (List ℕ → List ℕ) → ℕ → List Relay → List Best → List Best
unfolding consider
closest_loop distance i [] best = best
closest_loop distance i (r ∷ relays) best = closest_loop distance (i + 1) relays (
    if is_running r
    then consider (record { idx = i; dist = distance r.identity_pk }) best
    else best)

unfoldable pub count_running : List Relay → ℕ
count_running [] = 0
count_running (r ∷ relays) = (if is_running r then 1 else 0) + count_running relays

-- The first running relays, of which `room` may still be taken.
pub first_running : ℕ → ℕ → List Relay → List ℕ
first_running room i [] = []
first_running room i (r ∷ relays) =
    let taken = i ∷ first_running (room - 1) (i + 1) relays in
    let passed = first_running room (i + 1) relays in
    if room == 0 then [] else if is_running r then taken else passed

-- `moor_dht_responsible_t`
pub record Responsible : Type 0 where
  pub relay_indices : List ℕ
  pub full_replication : Bool

-- The distance of a relay from the descriptor, in the ring of the epoch.
pub ring_distance : Sodium → List ℕ → List ℕ → ℕ → List ℕ → List ℕ
unfolding dht_relay_ring_pos dht_desc_ring_pos
ring_distance na address_hash srv time_period identity_pk =
    let epoch_nonce = dht_compute_epoch_nonce na srv time_period in
    dht_xor_distance (dht_desc_ring_pos na address_hash epoch_nonce)
      (dht_relay_ring_pos na identity_pk epoch_nonce)

-- `moor_dht_find_responsible`; `none` is -1.
pub dht_find_responsible : Sodium → List ℕ → List Relay → List ℕ → ℕ → Option Responsible
dht_find_responsible na address_hash relays srv time_period =
    let running_count = count_running relays in
    let found = closest_loop (ring_distance na address_hash srv time_period) 0 relays [] in
    if running_count == 0
    then none
    else if ltb running_count dht_small_net_thresh
    then some
        (record { relay_indices = first_running dht_replicas 0 relays; full_replication = true })
    else some (record { relay_indices = map (λ b. b.idx) found; full_replication = false })

-- Whether one of the relays has a key.
pub any_key : Sodium → List Relay → List ℕ → List ℕ → Bool
any_key na relays our_pk [] = false
any_key na relays our_pk (i ∷ relay_indices) =
    let rest = any_key na relays our_pk relay_indices in
    let r = get_or relays i (record { identity_pk = []; flags = 0 }) in
    if na.memcmp r.identity_pk our_pk then true else rest

-- `moor_dht_is_responsible`
pub dht_is_responsible : Sodium → List ℕ → List ℕ → List Relay → List ℕ → ℕ → Bool
unfolding dht_find_responsible any_key
dht_is_responsible na our_pk address_hash relays srv time_period =
    elim (dht_find_responsible na address_hash relays srv time_period) [
      | none ↦ false
      | some resp ↦ any_key na relays our_pk resp.relay_indices
    ]
