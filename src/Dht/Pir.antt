-- ===== src/Dht/Pir.antt =====
-- src/dht.c, private retrieval: what `moor_dht_handle_dpf_query` and `moor_dht_handle_pir_query` make
-- of a relay's store, and what `dht_fetch_dpf` makes of two answers.
pub mod Select
pub mod Slots
pub mod Fetch
use moor_pq.Base.{
  ℕ, zero, suc, ◌+◌, ◌*◌, ◌-◌, ◌/◌, ◌%◌, ◌^◌, Bool, true, false, Option, none, some, List, [], ◌∷◌,
  ◌++◌, length, get_or, set, take, drop, zeros, replicate, ltb, leb, ◌==◌, if◌then◌else◌, bit_xor,
  xor_bytes,
}
use moor_pq.Dht.Dpf.{Streams, DpfKey, dpf_eval_full, dpf_gen}
use moor_pq.Dht.Dpf.Wire.{dpf_key_serialize, dpf_key_deserialize}

abbrev pub dht_max_desc_data : ℕ
dht_max_desc_data = 32768

-- `moor_dht_entry_t`; `stored_data` is the whole array.
pub record DhtEntry : Type 0 where
  pub address_hash : List ℕ
  pub stored_data : List ℕ
  pub data_len : ℕ
  pub received_bytes : ℕ
  pub stored_at : ℕ
  pub epoch : ℕ

-- A slot of the arrays `flat`, `flat_len` and `flat_time`.
pub record PirSlot : Type 0 where
  pub flat : List ℕ
  pub flat_len : ℕ
  pub flat_time : ℕ

abbrev pub empty_slot : PirSlot
empty_slot = record { flat = zeros dht_max_desc_data; flat_len = 0; flat_time = 0 }

-- The slot of an address hash.
abbrev pub slot_of : List ℕ → ℕ
slot_of address_hash = bit_xor (get_or address_hash 0 0) (get_or address_hash 1 0)

-- An entry goes into its slot, unless a later one is there.
pub place_entry : DhtEntry → List PirSlot → List PirSlot
place_entry e slots =
    let slot = slot_of e.address_hash in
    let dlen = if ltb dht_max_desc_data e.data_len then dht_max_desc_data else e.data_len in
    if leb (get_or slots slot empty_slot).flat_time e.stored_at
    then set slots slot (record {
      flat = take dlen e.stored_data ++ zeros (dht_max_desc_data - dlen);
      flat_len = dlen;
      flat_time = e.stored_at;
    })
    else slots

pub place_all : List DhtEntry → List PirSlot → List PirSlot
unfolding place_entry
place_all [] slots = slots
place_all (e ∷ entries) slots = place_all entries (place_entry e slots)

-- The flat arrays of a store.
pub flatten : List DhtEntry → List PirSlot
unfolding place_all
flatten entries = place_all entries (replicate 256 empty_slot)

-- The sum of the slots whose bit is set.
pub xor_selected : List ℕ → List PirSlot → List ℕ → List ℕ
xor_selected [] slots result = result
xor_selected (b ∷ bits) [] result = result
xor_selected (b ∷ bits) (s ∷ slots) result =
    xor_selected bits slots
      (if b == 0 then result else if s.flat_len == 0 then result else xor_bytes result s.flat)

-- What `moor_dht_handle_dpf_query` answers to a payload of `len` bytes; the same bytes go out in
-- cells of 490.
pub dpf_answer : Streams → List DhtEntry → List ℕ → ℕ → Option (List ℕ)
unfolding flatten xor_selected
dpf_answer g entries payload len =
    if ltb len (4 + 177) then none else elim (dpf_key_deserialize (drop 4 payload) (len - 4)) [
      | none ↦ none
      | some key ↦
          some (xor_selected (dpf_eval_full g key 256) (flatten entries) (zeros dht_max_desc_data))
    ]

-- The bits of a mask of 32 bytes, the lowest of a byte first, from bit `j` on.
pub mask_bits : ℕ → ℕ → List ℕ → List ℕ
mask_bits zero j bitmask = []
mask_bits (suc n) j bitmask =
    (get_or bitmask (j / 8) 0 / 2 ^ (j % 8) % 2) ∷ mask_bits n (j + 1) bitmask

-- What `moor_dht_handle_pir_query` answers.
pub pir_answer : List DhtEntry → List ℕ → ℕ → Option (List ℕ)
unfolding flatten xor_selected mask_bits
pir_answer entries payload len =
    if ltb len 36
    then none
    else some (
        xor_selected (mask_bits 256 0 (take 32 (drop 4 payload))) (flatten entries)
          (zeros dht_max_desc_data))

-- The query of `dht_fetch_dpf`: its id, and a key.
pub dpf_query : List ℕ → DpfKey → List ℕ
dpf_query query_id key = query_id ++ dpf_key_serialize key

pub is_all_zero : List ℕ → Bool
is_all_zero [] = true
is_all_zero (x ∷ xs) = let rest = is_all_zero xs in if x == 0 then rest else false

-- What `dht_fetch_dpf` makes of the answers of both replicas; `none` is -1.
pub combine_answers : List ℕ → List ℕ → Option (List ℕ)
unfolding is_all_zero
combine_answers r1 r2 =
    let result = xor_bytes r1 r2 in if is_all_zero result then none else some result

-- `dht_fetch_dpf`; `ask0` and `ask1` are the two replicas, which answer a query or do not.
pub fetch_dpf :
    Streams
    → (List ℕ → Option (List ℕ))
    → (List ℕ → Option (List ℕ))
    → ℕ
    → List ℕ
    → (List ℕ × List ℕ)
    → (List ℕ × List ℕ)
    → Option (List ℕ)
unfolding combine_answers
fetch_dpf g ask0 ask1 num_relays address_hash (seed_a, seed_b) (query_id1, query_id2) =
    let (dpf_a, dpf_b) = dpf_gen g seed_a seed_b (slot_of address_hash) in
    let answered : Option (List ℕ) = elim (ask0 (dpf_query query_id1 dpf_a)) [
      | none ↦ none
      | some r1 ↦ elim (ask1 (dpf_query query_id2 dpf_b)) [
        | none ↦ none
        | some r2 ↦ combine_answers r1 r2
      ]
    ] in
    if ltb num_relays 2 then none else answered
