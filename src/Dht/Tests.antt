-- ===== src/Dht/Tests.antt =====
-- A store of one descriptor, a consensus of six relays, and instances of the theorems on the table.
use moor_pq.Base.{
  ℕ, ◌+◌, ◌≡◌, ◌≢◌, ◌≤◌, ◌⊎◌, ◌++◌, refl, false, none, some, List, [], ◌∷◌, All, map, arith, length,
  replicate, length-replicate, zeros, length-zeros, ltb, if◌then◌else◌,
}
use moor_pq.Sodium.Toy.{toy_sodium}
use moor_pq.Dht.Dpf.{Streams, dpf_gen}
use moor_pq.Dht.Dpf.Wire.{dpf_key_serialize, dpf_key_deserialize, deserialize-serialize}
use moor_pq.Dht.Dpf.Keys.{dpf_gen-IsKey}
use moor_pq.Dht.Pir.{DhtEntry, slot_of, dpf_answer, fetch_dpf, is_all_zero}
use moor_pq.Dht.Pir.Slots.{content, IsIn, IsStored}
use moor_pq.Dht.Pir.Fetch.{fetch_dpf_lem}
use moor_pq.Dht.Store.{Store, blank_entry, store_expire, is_old}
use moor_pq.Dht.Store.Expiry.{IsStore, Has, store_expire_lem}
use moor_pq.Dht.Ring.{Best, Relay, count_running, dht_find_responsible, ring_distance}
use moor_pq.Dht.Ring.Among.{IsAmong, Seen}
use moor_pq.Dht.Ring.Closest.{Candidate, dht_find_responsible_closest}

-- A key stream that tells seeds apart.
abbrev toy_streams : Streams
toy_streams = record {
  keyed_hash = λ n m key. m;
  chacha20 = λ n nonce key. replicate n (length key + 1);
  length-chacha20 = λ n nonce key. length-replicate n (length key + 1);
}

abbrev seed_a : List ℕ
seed_a = replicate 16 3

abbrev seed_b : List ℕ
seed_b = replicate 16 4

abbrev address : List ℕ
address = 5 ∷ 6 ∷ replicate 30 0

abbrev id1 : List ℕ
id1 = 1 ∷ 2 ∷ 3 ∷ 4 ∷ []

abbrev descriptor : DhtEntry
descriptor = record {
  address_hash = address;
  stored_data = 9 ∷ 8 ∷ zeros 32766;
  data_len = 2;
  received_bytes = 2;
  stored_at = 1000;
  epoch = 7;
}

descriptor-IsStored : IsStored descriptor
descriptor-IsStored = omega (arith, length-zeros 32766)

deserialize-serialize_example :
    length (dpf_key_serialize (dpf_gen toy_streams seed_a seed_b 3).0) ≡ 177
    × dpf_key_deserialize (dpf_key_serialize (dpf_gen toy_streams seed_a seed_b 3).0 ++ id1) 181
      ≡ (if ltb 181 177 then none else some (dpf_gen toy_streams seed_a seed_b 3).0)
deserialize-serialize_example =
    deserialize-serialize (dpf_gen toy_streams seed_a seed_b 3).0 id1 181
      (dpf_gen-IsKey toy_streams seed_a seed_b 3 (length-replicate 16 3) (length-replicate 16 4)).0

fetch_dpf_lem_example :
    All (λ x. slot_of x.address_hash ≢ slot_of address) (descriptor ∷ [])
      × fetch_dpf toy_streams
          (λ q. dpf_answer toy_streams (descriptor ∷ []) q (length q))
          (λ q. dpf_answer toy_streams (descriptor ∷ []) q (length q))
          3
          address
          (seed_a, seed_b)
          (id1, id1)
        ≡ none
    ⊎ (e : DhtEntry) × IsIn e (descriptor ∷ [])
      × slot_of e.address_hash ≡ slot_of address
      × All
          (λ x. slot_of x.address_hash ≡ slot_of address → x.stored_at ≤ e.stored_at)
          (descriptor ∷ [])
      × fetch_dpf toy_streams
          (λ q. dpf_answer toy_streams (descriptor ∷ []) q (length q))
          (λ q. dpf_answer toy_streams (descriptor ∷ []) q (length q))
          3
          address
          (seed_a, seed_b)
          (id1, id1)
        ≡ (if is_all_zero (content e).flat then none else some (content e).flat)
fetch_dpf_lem_example =
    fetch_dpf_lem toy_streams (descriptor ∷ []) 3 address seed_a seed_b id1 id1 (omega arith)
      (descriptor-IsStored, tt) (omega arith) (length-replicate 16 3) (length-replicate 16 4) refl
      refl

abbrev one_stored : Store
one_stored = record { entries = descriptor ∷ replicate 255 blank_entry; num_entries = 1 }

one_stored-IsStore : IsStore one_stored
one_stored-IsStore = record {
  size = omega (arith, length-replicate 255 blank_entry);
  used = omega arith;
}

store_expire_lem_example :
    IsStore (store_expire one_stored 900000)
    × ((e : DhtEntry)
        → (Has (store_expire one_stored 900000) e → Has one_stored e × is_old 900000 e ≡ false)
          × (Has one_stored e → is_old 900000 e ≡ false → Has (store_expire one_stored 900000) e))
store_expire_lem_example = store_expire_lem one_stored 900000 one_stored-IsStore

abbrev six_relays : List Relay
six_relays = replicate 6 (record { identity_pk = replicate 32 1; flags = 16 })

six_running : 6 ≤ count_running six_relays
unfolding replicate count_running
six_running = omega arith

dht_find_responsible_closest_example :
    (best : List Best) × dht_find_responsible toy_sodium address six_relays seed_a 20
      ≡ some (record { relay_indices = map (λ b. b.idx) best; full_replication = false })
    × length best ≤ 3
    × ((c : Best)
        → IsAmong c best
        → Candidate (ring_distance toy_sodium address seed_a 20) 0 six_relays c)
    × ((c : Best)
        → Candidate (ring_distance toy_sodium address seed_a 20) 0 six_relays c
        → Seen c best)
dht_find_responsible_closest_example =
    dht_find_responsible_closest toy_sodium address six_relays seed_a 20 six_running
