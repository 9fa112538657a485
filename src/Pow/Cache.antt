-- ===== src/Pow/Cache.antt =====
-- The two replay caches of src/pow.c: sets of 4096 slots, probed at eight places from a hash on.
pub mod Probing
pub mod Seeing
pub mod Replay
pub mod Keeping
use moor_pq.Base.{
  ℕ, zero, suc, ◌+◌, ◌-◌, ◌*◌, ◌/◌, ◌%◌, Bool, true, false, not, ◌&&◌, List, [], ◌∷◌, get_or, set,
  ltb, ◌==◌, if◌then◌else◌, u32, u64, ◌<<<◌, bit_xor, replicate,
}

abbrev pub cache_size : ℕ
cache_size = 4096

-- `pow_nonce_entry_t`
pub record Entry : Type 0 where
  pub nonce : ℕ
  pub timestamp : ℕ
  pub insert_time : ℕ
  pub context_hash : ℕ

abbrev pub blank_entry : Entry
blank_entry = record { nonce = 0; timestamp = 0; insert_time = 0; context_hash = 0 }

-- A cache after `memset`.
unfoldable pub empty_cache : List Entry
empty_cache = replicate cache_size blank_entry

-- `memcpy` of the first eight bytes into a uint64_t, on a little-endian host.
unfoldable pub word : List ℕ → ℕ
word s =
    get_or s 0 0
    + (get_or s 1 0 <<< 8)
    + (get_or s 2 0 <<< 16)
    + (get_or s 3 0 <<< 24)
    + (get_or s 4 0 <<< 32)
    + (get_or s 5 0 <<< 40)
    + (get_or s 6 0 <<< 48)
    + (get_or s 7 0 <<< 56)

-- What a probe of the cache says: a new solution, one that was seen, or no place within eight slots.
pub data Probe : Type 0 where
  fresh seen crowded : Probe

-- What the two caches differ in: when an entry runs out, which entry is the one that is looked for,
-- and what is written into a free one.
pub record Key : Type 0 where
  pub runs_out : Entry → Bool
  pub matches : Entry → Bool
  pub fill : Entry → Entry

abbrev pub slot_at : ℕ → ℕ → ℕ
slot_at slot probe = u32 (slot + probe) % cache_size

-- `if (e->insert_time != 0 && now > ...) e->insert_time = 0`
unfoldable pub evict : Key → Entry → Entry
evict key e = if not (e.insert_time == 0) && key.runs_out e then record e { insert_time = 0 } else e

-- The probing loop, with `n` probes to go from `probe` on.
unfoldable pub probe_loop : Key → ℕ → ℕ → ℕ → List Entry → Probe × List Entry
unfolding evict
probe_loop key slot zero probe cache = (crowded, cache)
probe_loop key slot (suc n) probe cache =
    let idx = slot_at slot probe in
    let e = evict key (get_or cache idx blank_entry) in
    let cache' = set cache idx e in
    let rest = probe_loop key slot n (probe + 1) cache' in
    if e.insert_time == 0
    then (fresh, set cache' idx (key.fill e))
    else if key.matches e
    then (seen, cache')
    else rest

-- The loop for the oldest of the eight entries.
pub oldest_loop : List Entry → ℕ → ℕ → ℕ → ℕ → ℕ → ℕ
oldest_loop cache slot zero probe oldest_idx oldest_time = oldest_idx
oldest_loop cache slot (suc n) probe oldest_idx oldest_time =
    let idx = slot_at slot probe in
    let e = get_or cache idx blank_entry in
    if ltb e.insert_time oldest_time
    then oldest_loop cache slot n (probe + 1) idx e.insert_time
    else oldest_loop cache slot n (probe + 1) oldest_idx oldest_time

-- The whole of both functions: probe, else replace the oldest. `true` stands for 1, seen before.
unfoldable pub check_and_insert : Key → ℕ → List Entry → Bool × List Entry
check_and_insert key slot cache =
    let (answer, cache') = probe_loop key slot 8 0 cache in
    elim answer [
      | fresh ↦ (false, cache')
      | seen ↦ (true, cache')
      | crowded ↦
          let oldest =
            oldest_loop cache' slot 7 1 slot (get_or cache' slot blank_entry).insert_time in
          (false, set cache' oldest (key.fill (get_or cache' oldest blank_entry)))
    ]

abbrev pub relay_key : ℕ → ℕ → ℕ → ℕ → Key
relay_key nonce timestamp ctx now = record {
  runs_out = λ e. ltb (u64 (e.insert_time + 300 + 60)) now;
  matches = λ e. e.nonce == nonce && e.timestamp == timestamp && e.context_hash == ctx;
  fill =
      λ e. record { nonce = nonce; timestamp = timestamp; insert_time = now; context_hash = ctx };
}

-- The slot of the relay cache; `secret` is the key that is drawn for it.
abbrev pub relay_slot : List ℕ → ℕ → ℕ → ℕ → ℕ
relay_slot secret nonce timestamp ctx =
    bit_xor
      (bit_xor (bit_xor nonce (u64 (timestamp * 2654435761))) (u64 (ctx * 11400714819323198485)))
      (word secret)
    % cache_size

-- `nonce_cache_check_and_insert`, once the cache and its secret are there.
unfoldable pub nonce_cache_check_and_insert :
    List ℕ → List Entry → ℕ → ℕ → ℕ → ℕ → Bool × List Entry
unfolding check_and_insert
nonce_cache_check_and_insert secret cache nonce timestamp ctx now =
    check_and_insert (relay_key nonce timestamp ctx now) (relay_slot secret nonce timestamp ctx)
      cache

abbrev pub hs_key : ℕ → ℕ → ℕ → Key
hs_key nonce ctx now = record {
  runs_out = λ e. ltb (u64 (e.insert_time + 3600)) now;
  matches = λ e. e.nonce == nonce && e.context_hash == ctx;
  fill = λ e. record e { nonce = nonce; context_hash = ctx; insert_time = now };
}

abbrev pub hs_context : ℕ → ℕ → ℕ
hs_context seed_hash service_hash = bit_xor seed_hash (u64 (service_hash * 11400714819323198485))

-- `hs_nonce_cache_check_and_insert`
unfoldable pub hs_nonce_cache_check_and_insert : List Entry → ℕ → ℕ → ℕ → ℕ → Bool × List Entry
unfolding check_and_insert
hs_nonce_cache_check_and_insert cache nonce seed_hash service_hash now =
    let ctx = hs_context seed_hash service_hash in
    check_and_insert (hs_key nonce ctx now) (bit_xor nonce (u64 (ctx * 2654435761)) % cache_size)
      cache
