-- ===== src/Dht/Pir/Fetch.antt =====
-- src/dht.c, from end to end: `dht_fetch_dpf` asks two replicas of one store for the slot of an
-- address.
use moor_pq.Base.{
  ℕ, zero, suc, ◌-◌, ◌≡◌, ◌≢◌, ◌<◌, ◌≤◌, ◌∙◌, refl, sym, ap, ap₂, true, false, Option, none, some,
  List, [], ◌∷◌, ◌++◌, length, get_or, take, ltb, ◌==◌, if◌then◌else◌, arith, All, Bool-cases, inl,
  inr, ◌⊎◌, zeros, replicate, length-zeros, bit_xor-zero_left, xor_bytes, drop-append,
  length-append, append-nil,
}
use moor_pq.Dht.Dpf.{Streams, DpfKey, dpf_gen, dpf_eval_full}
use moor_pq.Dht.Dpf.Points.{dpf_eval_full-Differ}
use moor_pq.Dht.Dpf.Wire.{IsKey, dpf_key_serialize, dpf_key_deserialize, deserialize-serialize}
use moor_pq.Dht.Dpf.Keys.{dpf_gen-IsKey, length-dpf_eval_full}
use moor_pq.Dht.Pir.{
  DhtEntry, empty_slot, slot_of, flatten, xor_selected, dpf_answer, dpf_query, is_all_zero,
  fetch_dpf,
}
use moor_pq.Dht.Pir.Select.{taken, xor_selected-Differ}
use moor_pq.Dht.Pir.Slots.{
  content, All-weaken, length-content, IsIn, IsStored, kept, latest, flatten-sizes, flatten-Latest,
}

-- A replica with a store answers a query for the slots that its key selects.
dpf_answer_lem :
    (g : Streams) (es : List DhtEntry) (query_id : List ℕ) (key : DpfKey)
    → length query_id ≡ 4
    → IsKey key
    → dpf_answer g es (dpf_query query_id key) (length (dpf_query query_id key))
      ≡ some (xor_selected (dpf_eval_full g key 256) (flatten es) (zeros 32768))
unfolding dpf_answer dpf_query
dpf_answer_lem g es query_id key four v =
    let wire = dpf_key_serialize key in
    let (long, _) = deserialize-serialize key [] 177 v in
    let len : length (query_id ++ wire) ≡ 181 =
      omega (arith, length-append query_id wire, four, long) in
    let read : dpf_key_deserialize wire 177 ≡ some key =
      ap (λ w. dpf_key_deserialize w 177) (sym (append-nil wire))
      ∙ (deserialize-serialize key [] 177 v).1 in
    rw (len, drop-append 4 query_id wire (sym four), read) refl

zeros-xor_bytes : (n : ℕ) (xs : List ℕ) → length xs ≡ n → xor_bytes (zeros n) xs ≡ xs
unfolding replicate
zeros-xor_bytes zero [] h = refl
zeros-xor_bytes zero (x ∷ xs) h = absurd (omega arith)
zeros-xor_bytes (suc n) [] h = absurd (omega arith)
zeros-xor_bytes (suc n) (x ∷ xs) h =
    ap₂ ◌∷◌ (bit_xor-zero_left x) (zeros-xor_bytes n xs (omega arith))

is_all_zero-zeros : (n : ℕ) → is_all_zero (zeros n) ≡ true
unfolding is_all_zero replicate
is_all_zero-zeros zero = refl
is_all_zero-zeros (suc n) = is_all_zero-zeros n

-- What is found: nothing, if it is zeros.
abbrev found : List ℕ → Option (List ℕ)
found r = if is_all_zero r then none else some r

-- Both replicas' answers make the slot.
fetch_slot :
    (g : Streams) (es : List DhtEntry) (num_relays : ℕ)
    (address_hash seed_a seed_b id1 id2 : List ℕ)
    → 2 ≤ num_relays
    → All IsStored es
    → slot_of address_hash < 256
    → length seed_a ≡ 16
    → length seed_b ≡ 16
    → length id1 ≡ 4
    → length id2 ≡ 4
    → fetch_dpf g
        (λ q. dpf_answer g es q (length q))
        (λ q. dpf_answer g es q (length q))
        num_relays
        address_hash
        (seed_a, seed_b)
        (id1, id2)
      ≡ found (taken (get_or (flatten es) (slot_of address_hash) empty_slot) (zeros 32768))
unfolding fetch_dpf
fetch_slot g es num_relays address_hash seed_a seed_b id1 id2 two stored few size_a size_b four1
      four2 =
    let slot = slot_of address_hash in
    let (key_a, key_b) = dpf_gen g seed_a seed_b slot in
    let (v_a, v_b) = dpf_gen-IsKey g seed_a seed_b slot size_a size_b in
    let (sizes, long) = flatten-sizes es stored in
    let bits_a = length-dpf_eval_full g key_a v_a.levels in
    let enough : ltb num_relays 2 ≡ false = ground arith in
    let sum =
      xor_selected-Differ 32768 slot (dpf_eval_full g key_a 256) (dpf_eval_full g key_b 256)
        (flatten es) (zeros 32768) (zeros 32768)
        (dpf_eval_full-Differ g seed_a seed_b slot 256 size_a size_b few) (omega (arith, bits_a))
        (bits_a ∙ sym long) sizes (length-zeros 32768) (length-zeros 32768)
      ∙ ap (taken (get_or (flatten es) slot empty_slot))
          (zeros-xor_bytes 32768 (zeros 32768) (length-zeros 32768)) in
    rw (enough, dpf_answer_lem g es id1 key_a four1 v_a, dpf_answer_lem g es id2 key_b four2 v_b)
      (ap found sum)

-- What `taken` makes of zeros is the array of the slot, when a slot of length 0 has zeros.
taken-content : (e : DhtEntry) → IsStored e → taken (content e) (zeros 32768) ≡ (content e).flat
taken-content e stored = elim (Bool-cases ((content e).flat_len == 0)) [
  | inl empty ↦
      let none_stored : (content e).flat_len ≡ 0 = ground (arith, empty) in
      rw (empty) (ap (λ d. take d e.stored_data ++ zeros (32768 - d)) (sym none_stored))
  | inr full ↦ rw (full) (zeros-xor_bytes 32768 (content e).flat (length-content e stored))
]

IsIn-IsStored : (e : DhtEntry) (es : List DhtEntry) → All IsStored es → IsIn e es → IsStored e
IsIn-IsStored e [] stored h = absurd h
IsIn-IsStored e (x ∷ es) (v, stored) (inl same) = ap (λ y. length y.stored_data) same ∙ v
IsIn-IsStored e (x ∷ es) (v, stored) (inr later) = IsIn-IsStored e es stored later

-- Two replicas that hold the same store, whose entries have their arrays, give a client that asks for
-- an address what the store has for it, though each of them sees only one of the two keys: of the
-- entries in the slot of the address the latest, its data followed by zeros, or nothing if no entry
-- stands in that slot, or if that data is all zeros.
pub fetch_dpf_lem :
    (g : Streams) (es : List DhtEntry) (num_relays : ℕ)
    (address_hash seed_a seed_b id1 id2 : List ℕ)
    → 2 ≤ num_relays
    → All IsStored es
    → slot_of address_hash < 256
    → length seed_a ≡ 16
    → length seed_b ≡ 16
    → length id1 ≡ 4
    → length id2 ≡ 4
    → All (λ x. slot_of x.address_hash ≢ slot_of address_hash) es
        × fetch_dpf g
            (λ q. dpf_answer g es q (length q))
            (λ q. dpf_answer g es q (length q))
            num_relays
            address_hash
            (seed_a, seed_b)
            (id1, id2)
          ≡ none
      ⊎ (e : DhtEntry) × IsIn e es
        × slot_of e.address_hash ≡ slot_of address_hash
        × All (λ x. slot_of x.address_hash ≡ slot_of address_hash → x.stored_at ≤ e.stored_at) es
        × fetch_dpf g
            (λ q. dpf_answer g es q (length q))
            (λ q. dpf_answer g es q (length q))
            num_relays
            address_hash
            (seed_a, seed_b)
            (id1, id2)
          ≡ (if is_all_zero (content e).flat then none else some (content e).flat)
fetch_dpf_lem g es num_relays address_hash seed_a seed_b id1 id2 two stored few size_a size_b four1
      four2 =
    let fetched =
      fetch_slot g es num_relays address_hash seed_a seed_b id1 id2 two stored few size_a size_b
        four1 four2 in
    elim (flatten-Latest (slot_of address_hash) es few) [
      | kept all same ↦ inl (
        All-weaken _ _ es (λ x early at. absurd (omega (arith, early at))) all,
        fetched ∙ ap (λ s. found (taken s (zeros 32768))) same ∙ rw (is_all_zero-zeros 32768) refl,
      )
      | latest e here at later all same ↦ inr (
        e,
        here,
        at,
        all,
        fetched
            ∙ ap (λ s. found (taken s (zeros 32768))) same
            ∙ ap found (taken-content e (IsIn-IsStored e es stored here)),
      )
    ]
