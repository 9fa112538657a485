-- ===== src/Pow/Tests.antt =====
-- A small solver and a cache, and instances of the theorems on proof of work.
use moor_pq.Base.{
  sym, ◌≢◌, ℕ, zero, suc, ◌+◌, ◌*◌, ◌/◌, ◌^◌, ◌≡◌, ◌≤◌, ◌<◌, ◌↔◌, ◌∙◌, ap, refl, true, false, not,
  some, List, [], ◌∷◌, length, length-replicate, replicate, zeros, get_or, set, All, All-set,
  All-replicate, ◌==◌, if◌then◌else◌, arith,
}
use moor_pq.Sodium.Toy.{toy_sodium}
use moor_pq.Pow.{
  Argon, pow_solve, pow_verify, pow_timestamp_is_fresh, timestamp_window, has_leading_zeros,
  zero_bytes, epoch_hash, solve_loop,
}
use moor_pq.Pow.Cache.{
  crowded, Entry, Key, blank_entry, empty_cache, cache_size, slot_at, evict, word, relay_key,
  relay_slot, nonce_cache_check_and_insert, check_and_insert, probe_loop,
}
use moor_pq.Pow.Cache.Probing.{probe_free}
use moor_pq.Pow.Cache.Replay.{Quiet, Sees-key, check_fresh, nonce_cache_replay}
use moor_pq.Pow.Zeros.{value, has_leading_zeros_iff}
use moor_pq.Pow.Solve.{pow_verify-pow_solve}
use moor_pq.Pow.Refusal.{
  Request, verify, verify_all, AllCalm, nonce_cache-Sees, pow_verify_replay, verify_taken,
}
use moor_pq.Pow.Cache.Seeing.{Sees, sees→seen}
use mathlib.Core.Path.{subst}

length-empty_cache : length empty_cache ≡ cache_size
unfolding empty_cache
length-empty_cache = length-replicate cache_size blank_entry

get_or-replicate : (n i : ℕ) (e : Entry) → get_or (replicate n e) i e ≡ e
unfolding replicate
get_or-replicate zero i e = refl
get_or-replicate (suc n) zero e = refl
get_or-replicate (suc n) (suc i) e = get_or-replicate n i e

evict_blank : (key : Key) → evict key blank_entry ≡ blank_entry
unfolding evict
evict_blank key = refl

-- The first solution goes into the place that its hash gives.
first_shown :
    (key : Key) (slot : ℕ)
    → check_and_insert key slot empty_cache ≡ (
      false,
      set (set empty_cache (slot_at slot 0) blank_entry) (slot_at slot 0) (key.fill blank_entry),
    )
unfolding empty_cache
first_shown key slot =
    let blank = get_or-replicate cache_size (slot_at slot 0) blank_entry in
    let still = ap (evict key) blank ∙ evict_blank key in
    let loop = probe_free key slot 7 0 empty_cache (ap (λ e. e.insert_time) still) in
    check_fresh key slot empty_cache (ap (λ r. r.0) loop)
    ∙ ap (λ r. (false, r.1)) loop
    ∙ ap (λ e. (false, set (set empty_cache (slot_at slot 0) e) (slot_at slot 0) (key.fill e)))
        still

-- A cache of entries that were written between `low` and 2^63 does not change before `low + 360`.
abbrev Recent : ℕ → Entry → Type 0
Recent low e = (e.insert_time ≤ 2 ^ 63) × ((e.insert_time ≡ 0 → ⊥) → low ≤ e.insert_time)

quiet_entry :
    (e : Entry) (nonce timestamp ctx low later : ℕ)
    → Recent low e
    → later ≤ low + 360
    → evict (relay_key nonce timestamp ctx later) e ≡ e
unfolding evict
quiet_entry e nonce timestamp ctx low later v h = ground arith

Quiet-after_first :
    (slot nonce timestamp ctx now later : ℕ)
    → now ≤ 2 ^ 63
    → later ≤ now + 360
    → Quiet
        (relay_key nonce timestamp ctx later)
        (check_and_insert (relay_key nonce timestamp ctx now) slot empty_cache).1
unfolding empty_cache
Quiet-after_first slot nonce timestamp ctx now later small soon k =
    let key = relay_key nonce timestamp ctx now in
    let blank_recent : Recent now blank_entry = (omega arith, λ started. absurd (started refl)) in
    let all_recent =
      All-set (Recent now) (set (replicate cache_size blank_entry) (slot_at slot 0) blank_entry)
        (slot_at slot 0) (key.fill blank_entry)
        (All-set (Recent now) (replicate cache_size blank_entry) (slot_at slot 0) blank_entry
          (All-replicate (Recent now) cache_size blank_entry blank_recent) blank_recent)
        (small, λ started. omega arith) in
    rw (first_shown key slot)
      (quiet_entry _ nonce timestamp ctx now later (recent_at _ k all_recent) soon)
  where
    recent_at :
        (cache : List Entry) (k : ℕ)
        → All (Recent now) cache
        → Recent now (get_or cache k blank_entry)
    recent_at [] k v = (omega arith, λ started. absurd (started refl))
    recent_at (e ∷ cache) zero v = v.0
    recent_at (e ∷ cache) (suc k) v = recent_at cache k v.1

-- A hash function that likes the nonce 5.
abbrev toy_argon : Argon
toy_argon = record {
  pwhash =
      λ passwd salt memlimit. some (if get_or passwd 0 0 == 5 then zeros 32 else replicate 32 255);
}

abbrev pk_32 : List ℕ
pk_32 = replicate 32 1

abbrev secret_32 : List ℕ
secret_32 = replicate 32 8

solved : pow_solve toy_sodium toy_argon pk_32 8 0 1290 3 ≡ some (5, 1290)
unfolding pow_solve solve_loop has_leading_zeros zero_bytes replicate
solved = refl

abbrev ctx_5 : ℕ
ctx_5 = word (epoch_hash toy_sodium toy_argon pk_32 (1290 / timestamp_window))

relay_first_shown : (nonce_cache_check_and_insert secret_32 empty_cache 5 1290 ctx_5 1300).0 ≡ false
unfolding nonce_cache_check_and_insert
relay_first_shown =
    ap (λ r. r.0) (first_shown (relay_key 5 1290 ctx_5 1300) (relay_slot secret_32 5 1290 ctx_5))

relay-Quiet :
    Quiet
      (relay_key 5 1290 ctx_5 1500)
      (nonce_cache_check_and_insert secret_32 empty_cache 5 1290 ctx_5 1300).1
unfolding nonce_cache_check_and_insert
relay-Quiet =
    Quiet-after_first (relay_slot secret_32 5 1290 ctx_5) 5 1290 ctx_5 1300 1500 (omega arith)
      (omega arith)

pow_verify-pow_solve_example :
    let (seen, cache') = nonce_cache_check_and_insert secret_32 empty_cache 5 1290 ctx_5 1300 in
    pow_verify toy_sodium toy_argon secret_32 empty_cache pk_32 5 1290 8 0 1300 1300
    ≡ (not seen, cache')
pow_verify-pow_solve_example =
    pow_verify-pow_solve toy_sodium toy_argon secret_32 empty_cache pk_32 8 0 1290 3 5 1290 1300
      1300 solved (omega arith) (omega arith) (omega arith)

taken_once :
    (pow_verify toy_sodium toy_argon secret_32 empty_cache pk_32 5 1290 8 0 1300 1300).0 ≡ true
taken_once = ap (λ r. r.0) pow_verify-pow_solve_example_again ∙ ap not relay_first_shown
  where
    pow_verify-pow_solve_example_again :
        pow_verify toy_sodium toy_argon secret_32 empty_cache pk_32 5 1290 8 0 1300 1300 ≡ (
          not (nonce_cache_check_and_insert secret_32 empty_cache 5 1290 ctx_5 1300).0,
          (nonce_cache_check_and_insert secret_32 empty_cache 5 1290 ctx_5 1300).1,
        )
    pow_verify-pow_solve_example_again =
        pow_verify-pow_solve toy_sodium toy_argon secret_32 empty_cache pk_32 8 0 1290 3 5 1290 1300
          1300 solved (omega arith) (omega arith) (omega arith)

verify-Quiet :
    Quiet
      (relay_key 5 1290 ctx_5 1500)
      (pow_verify toy_sodium toy_argon secret_32 empty_cache pk_32 5 1290 8 0 1300 1300).1
verify-Quiet =
    rw
      ((verify_taken toy_sodium toy_argon secret_32 empty_cache pk_32 5 1290 8 0 1300 1300
        (omega arith) taken_once).2)
      relay-Quiet

-- The solution, as it comes in first, and once with a difficulty that is refused.
abbrev first_request : Request
first_request = record {
  identity_pk = pk_32;
  nonce = 5;
  timestamp = 1290;
  difficulty = 8;
  memlimit = 0;
  arrival = 1300;
  later = 1300;
}

abbrev hard_request : Request
hard_request = record first_request { difficulty = 100; arrival = 1500; later = 1500 }

abbrev cache_then : List Entry
cache_then = (verify toy_sodium toy_argon secret_32 empty_cache first_request).1

not_crowded :
    (probe_loop (relay_key 5 1290 ctx_5 1500) (relay_slot secret_32 5 1290 ctx_5) 8 0 cache_then).0
    ≢ crowded
unfolding nonce_cache_check_and_insert
not_crowded e =
    let found =
      sees→seen (relay_key 5 1290 ctx_5 1500) (relay_slot secret_32 5 1290 ctx_5) 8 0 cache_then
        verify-Quiet
        (Sees-key (relay_key 5 1290 ctx_5 1300) (relay_key 5 1290 ctx_5 1500)
          (relay_slot secret_32 5 1290 ctx_5) 8 0 cache_then (λ x. refl)
          (subst (λ c. Sees (relay_key 5 1290 ctx_5 1300) (relay_slot secret_32 5 1290 ctx_5) c 8 0)
            (sym
              (verify_taken toy_sodium toy_argon secret_32 empty_cache pk_32 5 1290 8 0 1300 1300
                (omega arith) taken_once).2)
            (nonce_cache-Sees toy_sodium toy_argon secret_32 empty_cache first_request
              length-empty_cache (λ h. absurd (omega arith)) relay_first_shown))) in
    absurd (ground (arith, e, found))

hard_left : (verify toy_sodium toy_argon secret_32 cache_then hard_request).1 ≡ cache_then
unfolding pow_verify
hard_left = refl

between_calm : AllCalm toy_sodium toy_argon secret_32 cache_then (hard_request ∷ [])
unfolding AllCalm
between_calm = ((verify-Quiet, not_crowded), tt)

between_left : verify_all toy_sodium toy_argon secret_32 cache_then (hard_request ∷ []) ≡ cache_then
unfolding verify_all
between_left = hard_left

pow_verify_replay_example :
    let after = verify_all toy_sodium toy_argon secret_32 cache_then (hard_request ∷ []) in
    (verify toy_sodium toy_argon secret_32 after
      (record first_request { arrival = 1500; later = 1500 })).0
    ≡ false
pow_verify_replay_example =
    pow_verify_replay toy_sodium toy_argon secret_32 empty_cache first_request (hard_request ∷ [])
      1500 1500 length-empty_cache (λ e. absurd (omega arith)) (omega arith) taken_once between_calm
      (subst (Quiet (relay_key 5 1290 ctx_5 1500)) (sym between_left) verify-Quiet)

nonce_cache_replay_example :
    let (before, cache') = nonce_cache_check_and_insert secret_32 empty_cache 5 1290 ctx_5 1300 in
    (nonce_cache_check_and_insert secret_32 cache' 5 1290 ctx_5 1500).0 ≡ true
nonce_cache_replay_example =
    nonce_cache_replay secret_32 empty_cache 5 1290 ctx_5 1300 1500 length-empty_cache
      (λ e. absurd (omega arith)) relay_first_shown relay-Quiet

-- Two entries whose place is slot 0. When the first runs out, the second is taken for new: a replay
-- within the 300 seconds for which its timestamp, 1290, is fresh.
abbrev crowded_slots : List Entry
crowded_slots =
    record { nonce = 1; timestamp = 1000; insert_time = 1000; context_hash = 3 }
    ∷ record { nonce = 7; timestamp = 1290; insert_time = 1300; context_hash = 9 }
    ∷ replicate 4094 blank_entry

abbrev slot_zero_secret : List ℕ
slot_zero_secret = 80 ∷ 9 ∷ replicate 30 0

replay_taken_for_new :
    ((nonce_cache_check_and_insert slot_zero_secret crowded_slots 7 1290 9 1301).0 ≡ true)
    × ((nonce_cache_check_and_insert slot_zero_secret crowded_slots 7 1290 9 1361).0 ≡ false)
    × (pow_timestamp_is_fresh 1290 1361 ≡ true)
unfolding nonce_cache_check_and_insert check_and_insert probe_loop evict replicate word
    pow_timestamp_is_fresh
replay_taken_for_new = (refl, refl, refl)

abbrev hash_3 : List ℕ
hash_3 = 0 ∷ 1 ∷ 200 ∷ []

has_leading_zeros_iff_example :
    (has_leading_zeros hash_3 15 ≡ true) ↔ (value hash_3 * 2 ^ 15 < 256 ^ length hash_3)
has_leading_zeros_iff_example =
    has_leading_zeros_iff hash_3 15 (omega arith, (omega arith, (omega arith, tt))) (omega arith)
