-- ===== src/Dht/Store/Lookup.antt =====
-- `moor_dht_store_put` and `moor_dht_store_get` of src/dht.c: what was put is got, and nothing older
-- takes its place.
use moor_pq.Base.{ℕ, ◌≡◌, ◌<◌, ◌≤◌, true, none, some, List, ◌||◌, take, ltb, ◌==◌}
use moor_pq.Sodium.{Sodium}
use moor_pq.Dht.Pir.{DhtEntry}
use moor_pq.Dht.Store.{Store, store_get}

-- What an entry says of the data that was put.
abbrev pub Carries : DhtEntry → List ℕ → List ℕ → ℕ → ℕ → ℕ → Type 0
Carries e address_hash payload data_len epoch now =
    e.address_hash ≡ address_hash
    × take data_len e.stored_data ≡ take data_len payload
    × e.data_len ≡ data_len
    × e.epoch ≡ epoch
    × e.stored_at ≡ now

-- Why data is not put: its length, an epoch before that of the entry that is there, or a full store.
pub data Refused (na : Sodium) (st : Store) (a : List ℕ) (data_len epoch : ℕ) : Type 0 where
  bad_length : (data_len == 0 || ltb 32768 data_len) ≡ true → Refused na st a data_len epoch
  older :
      (e : DhtEntry) → store_get na st a ≡ some e → epoch < e.epoch → Refused na st a data_len epoch
  full_store : store_get na st a ≡ none → 256 ≤ st.num_entries → Refused na st a data_len epoch
