-- ===== src/Mix/Enqueue.antt =====
-- `moor_mix_enqueue` of src/mix.c: a new cell goes to the end of the queue of its circuit, and a cell that
-- makes place for it is the first of its own.
use moor_pq.Base.{
  ℕ, ◌+◌, ◌≡◌, ◌<◌, ◌≤◌, ◌∙◌, refl, sym, ap, ap₂, Bool, true, false, some, List, [], ◌∷◌, ◌++◌,
  length, length-set, set, arith, All, All-set, inl, inr, ◌==◌, ==_iff, Bool-cases, if◌then◌else◌,
}
use moor_pq.Mix.{
  Fds, Stays, Net, Leaving, leaving, send_entry, MixEntry, MixPool, of_circuit, is_due, put_entry,
  mix_enqueue, uint64_max,
}
use moor_pq.Mix.Scans.{at_slot, pick_lem, find_unused_lem, Least, and_true}
use moor_pq.Mix.Queue.{Queued}
use moor_pq.Mix.Pool.{
  IsPool, HasTime, active_count-put, active_count-kept, new_entry, new_entry_lem,
}
use moor_pq.Mix.Pending.{gone, sent_of_none, pending}
use moor_pq.Mix.Put.{HasFd, offered, Newest, Put-free, Carried, Carried-none, evicted}

pub HasTime-grow :
    (bound : ℕ) (entries : List MixEntry)
    → All (HasTime bound) entries
    → All (HasTime (bound + 1)) entries
HasTime-grow bound [] all = tt
HasTime-grow bound (e ∷ entries) (h, all) =
    (λ used. ((h used).0, omega (arith, (h used).1)), HasTime-grow bound entries all)

module _ (fds : Fds) (stays : Stays) (net : Net) (new_conn new_circuit command : ℕ)
    (payload : List ℕ) (now clock delay : ℕ) where
  abbrev enqueued : MixPool → Bool × MixPool × List Leaving × Net
  enqueued pool =
      mix_enqueue fds stays pool new_conn new_circuit command payload now clock delay net

  -- What `moor_mix_enqueue` does: it refuses, or puts the cell in a free place, or in that of the earliest
  -- cell that is due, which leaves the pool.
  pub data Outcome (pool : MixPool) : Type 0 where
    refused : enqueued pool ≡ (false, pool, [], net) → Outcome pool
    put_in :
        (i : ℕ)
        → i < length pool.entries
        → (at_slot pool.entries i).active ≡ false
        → enqueued pool ≡ (
          true,
          record pool {
            entries =
                set pool.entries i
                  (new_entry fds new_conn new_circuit command payload clock delay i pool.entries);
            count = pool.count + 1;
          },
          [],
          net,
        )
        → Outcome pool
    in_place_of :
        (i : ℕ)
        → i < length pool.entries
        → is_due now (at_slot pool.entries i) ≡ true
        → Least (is_due now) pool.entries (at_slot pool.entries i).fire_time
        → enqueued pool ≡ (
          true,
          record pool {
            entries =
                set pool.entries i
                  (new_entry fds new_conn new_circuit command payload clock delay i pool.entries);
          },
          leaving fds net (at_slot pool.entries i) ∷ [],
          send_entry fds stays (at_slot pool.entries i) net,
        )
        → Outcome pool

  pub outcome : (pool : MixPool) → Outcome pool
  unfolding mix_enqueue put_entry
  outcome pool = elim (Bool-cases (pool.lambda_ms == 0)) [
    | inl off ↦ refused (rw (off) refl)
    | inr on ↦ elim (find_unused_lem 0 pool.entries) [
      | inr (k, found, inside, free) ↦
          put_in k inside free (rw (on, found ∙ ap some {x = 0 + k} {y = k} (omega arith)) refl)
      | inl (full, _) ↦ elim (pick_lem (is_due now) pool.entries) [
        | inl (nothing, _) ↦ refused (rw (on, full, nothing) refl)
        | inr (k, found, inside, due, least) ↦
            in_place_of k inside due least (rw (on, full, found) refl)
      ]
    ]
  ]

  module _ (bound : ℕ) (some_time : 0 < clock) (soon : clock + delay ≤ bound)
      (room : bound + 1 < uint64_max) where
    new_times :
        (pool : MixPool) (i : ℕ)
        → IsPool bound pool
        → All (HasTime (bound + 1)) (
            set pool.entries i
              (new_entry fds new_conn new_circuit command payload clock delay i pool.entries))
    new_times pool i v =
        All-set (HasTime (bound + 1)) pool.entries i _ (HasTime-grow bound pool.entries v.times)
          (new_entry_lem fds new_conn new_circuit command payload clock delay bound some_time soon
            room i pool.entries v.times).0

    -- `moor_mix_enqueue` keeps the pool well-formed, on each of its ways: its 1024 places, the count of its
    -- cells, and that each cell has a time, not 0 and not after a bound, which a cell that the pool takes
    -- moves on by at most one, when the clock is not 0 and the delay ends by the bound.
    pub mix_enqueue-IsPool :
        (pool : MixPool) → IsPool bound pool → IsPool (bound + 1) (enqueued pool).1
    mix_enqueue-IsPool pool v = elim (outcome pool) [
      | refused same ↦ rw (same) (record {
        size = v.size;
        counted = v.counted;
        times = HasTime-grow bound pool.entries v.times;
      })
      | put_in i inside free same ↦
          let e = new_entry fds new_conn new_circuit command payload clock delay i pool.entries in
          rw (same) (record {
            size = length-set pool.entries i e ∙ v.size;
            counted = omega (arith, v.counted, active_count-put pool.entries i e inside free refl);
            times = new_times pool i v;
          })
      | in_place_of i inside due least same ↦
          let e = new_entry fds new_conn new_circuit command payload clock delay i pool.entries in
          rw (same) (record {
            size = length-set pool.entries i e ∙ v.size;
            counted = omega (
              arith,
              v.counted,
              active_count-kept pool.entries i e (and_true (at_slot pool.entries i).active _ due).0
                  refl,
            );
            times = new_times pool i v;
          })
    ]

    -- A new cell is later than all others of a circuit, if it is of that circuit.
    newest :
        (pool : MixPool) (i : ℕ)
        → IsPool bound pool
        → (conn circuit_id : ℕ)
        → Newest fds conn circuit_id pool.entries i
            (new_entry fds new_conn new_circuit command payload clock delay i pool.entries)
    newest pool i v conn circuit_id its_own j apart mine =
        let (to_conn, to_circuit) =
          and_true (new_conn == conn) (new_circuit == circuit_id) its_own in
        let same_conn = (==_iff new_conn conn).0 to_conn in
        let same_circuit = (==_iff new_circuit circuit_id).0 to_circuit in
        (new_entry_lem fds new_conn new_circuit command payload clock delay bound some_time soon
            room i pool.entries v.times).1
          j apart
          (ap₂ (λ a b. of_circuit a b (at_slot pool.entries j)) same_conn same_circuit ∙ mine)

    pub mix_enqueue-Carried :
        (pool : MixPool) (conn circuit_id : ℕ) (q : List ℕ)
        → IsPool bound pool
        → Queued conn circuit_id pool.entries q
        → All (λ j. HasFd fds (at_slot pool.entries j)) q
        → Carried fds conn circuit_id pool.entries q
            (enqueued pool).1.entries
            (if (enqueued pool).0 then offered new_conn new_circuit command payload else [])
            (gone (enqueued pool).2)
    unfolding gone
    mix_enqueue-Carried pool conn circuit_id q v queued kept = elim (outcome pool) [
      | refused same ↦ rw (same) (Carried-none fds conn circuit_id pool.entries q queued kept)
      | put_in i inside free same ↦
          let e = new_entry fds new_conn new_circuit command payload clock delay i pool.entries in
          let (rest, v', kept', sum) =
            Put-free fds conn circuit_id pool.entries q i e inside free refl refl
              (newest pool i v conn circuit_id) queued kept in
          rw (same) (
            rest,
            v',
            kept',
            sum
                ∙ ap (λ ss. ss ++ pending (set pool.entries i e) rest)
                    (sym (sent_of_none conn circuit_id)),
          )
      | in_place_of i inside due least same ↦
          let e = new_entry fds new_conn new_circuit command payload clock delay i pool.entries in
          let (rest, v', kept', sum) =
            evicted fds conn circuit_id pool.entries q now i e inside due least refl refl
              (newest pool i v conn circuit_id) queued kept in
          rw (same) (rest, v', kept', sum)
    ]
