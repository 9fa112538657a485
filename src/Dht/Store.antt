-- ===== src/Dht/Store.antt =====
-- src/dht.c, the store of a relay: `moor_dht_store_put`, `moor_dht_store_get` and
-- `moor_dht_store_expire`.
pub mod Search
pub mod Writes
pub mod Lookup
pub mod Expiry
use moor_pq.Base.{
  ℕ, zero, suc, ◌+◌, ◌-◌, Bool, true, false, ◌||◌, Option, none, some, List, [], ◌∷◌, length,
  get_or, set, take, zeros, replicate, write_at, ltb, leb, ◌==◌, if◌then◌else◌, sub_u64,
}
use mathlib.Core.Option
use moor_pq.Sodium.{Sodium}
use moor_pq.Dht.Pir.{DhtEntry, dht_max_desc_data}

abbrev pub dht_max_stored : ℕ
dht_max_stored = 256

abbrev pub dht_epoch_ttl : ℕ
dht_epoch_ttl = 172800

-- `moor_dht_store_t`: an array of 256 entries, of which the first `num_entries` are in use.
pub record Store : Type 0 where
  pub entries : List DhtEntry
  pub num_entries : ℕ

-- An entry of zeros.
abbrev pub blank_entry : DhtEntry
blank_entry = record {
  address_hash = zeros 32;
  stored_data = zeros dht_max_desc_data;
  data_len = 0;
  received_bytes = 0;
  stored_at = 0;
  epoch = 0;
}

-- `moor_dht_store_init`
pub store_init : Store
store_init = record { entries = replicate dht_max_stored blank_entry; num_entries = 0 }

-- The place of the first entry of an address.
pub find_address : Sodium → List ℕ → List DhtEntry → Option ℕ
find_address na address_hash [] = none
find_address na address_hash (e ∷ entries) =
    let rest = find_address na address_hash entries in
    if na.memcmp e.address_hash address_hash then some 0 else Option.map suc rest

-- An entry with new data; the bytes that were longer are zeroed.
abbrev pub updated : DhtEntry → List ℕ → ℕ → ℕ → ℕ → DhtEntry
updated e payload data_len epoch now =
    let copied = write_at 0 (take data_len payload) e.stored_data in
    record e {
      stored_data =
          if ltb data_len e.data_len
          then write_at data_len (zeros (e.data_len - data_len)) copied
          else copied;
      data_len = data_len;
      received_bytes = data_len;
      stored_at = now;
      epoch = epoch;
    }

-- What stood in the place of a new entry stays after the end of its data.
abbrev pub added_entry : DhtEntry → List ℕ → List ℕ → ℕ → ℕ → ℕ → DhtEntry
added_entry e address_hash payload data_len epoch now = record {
  address_hash = address_hash;
  stored_data = write_at 0 (take data_len payload) e.stored_data;
  data_len = data_len;
  received_bytes = data_len;
  stored_at = now;
  epoch = epoch;
}

-- `moor_dht_store_put`; `true` stands for 0 and `false` for -1.
pub store_put : Sodium → Store → List ℕ → List ℕ → ℕ → ℕ → ℕ → Bool × Store
store_put na st address_hash payload data_len epoch now =
    let at = find_address na address_hash (take st.num_entries st.entries) in
    if data_len == 0 || ltb dht_max_desc_data data_len then (false, st) else elim at [
      | some i ↦
          let e = get_or st.entries i blank_entry in
          if ltb epoch e.epoch then (false, st) else (
            true,
            record st { entries = set st.entries i (updated e payload data_len epoch now) },
          )
      | none ↦
          let idx = st.num_entries in
          let e = get_or st.entries idx blank_entry in
          if leb dht_max_stored idx then (false, st) else (
            true,
            record {
              entries = set st.entries idx (added_entry e address_hash payload data_len epoch now);
              num_entries = idx + 1;
            },
          )
    ]

-- `moor_dht_store_get`
pub store_get : Sodium → Store → List ℕ → Option DhtEntry
store_get na st address_hash =
    Option.map (λ i. get_or st.entries i blank_entry)
      (find_address na address_hash (take st.num_entries st.entries))

-- Whether an entry is older than two days; one that was stored in the future wraps around, and is so.
pub is_old : ℕ → DhtEntry → Bool
is_old now e = ltb dht_epoch_ttl (sub_u64 now e.stored_at)

-- The last entry goes into place `i`.
pub drop_entry : ℕ → Store → Store
drop_entry i st =
    let wiped = set st.entries i blank_entry in
    record {
      entries =
          if ltb i (st.num_entries - 1)
          then set wiped i (get_or wiped (st.num_entries - 1) blank_entry)
          else wiped;
      num_entries = st.num_entries - 1;
    }

-- The loop of `moor_dht_store_expire`, from place `i` on.
pub expire_loop : ℕ → ℕ → ℕ → Store → Store
expire_loop zero now i st = st
expire_loop (suc fuel) now i st =
    let dropped = expire_loop fuel now i (drop_entry i st) in
    let passed = expire_loop fuel now (i + 1) st in
    if ltb i st.num_entries
    then if is_old now (get_or st.entries i blank_entry) then dropped else passed
    else st

-- `moor_dht_store_expire`: every round drops an entry or passes one by.
pub store_expire : Store → ℕ → Store
unfolding expire_loop
store_expire st now = expire_loop (st.num_entries + 1) now 0 st
