-- ===== src/Mix/Run.antt =====
-- Runs of the operations of src/mix.c: the cells of a circuit leave the pool in the order in which they were
-- put in.
use moor_pq.Base.{
  ℕ, zero, suc, ◌+◌, ◌≡◌, ◌<◌, ◌≤◌, ◌∙◌, refl, sym, ap, List, [], ◌∷◌, ◌++◌, append_assoc, length,
  length-replicate, replicate, arith, All, All-replicate, if◌then◌else◌,
}
use moor_pq.Mix.{
  Fds, Stays, Net, Leaving, shut, MixPool, Sending, unused_entry, of_circuit, mix_init, mix_enqueue,
  mix_drain, mix_flush_circuit, uint64_max,
}
use moor_pq.Mix.Scans.{at_slot}
use moor_pq.Mix.Queue.{Queued}
use moor_pq.Mix.Pool.{no_cells, IsPool, HasTime}
use moor_pq.Mix.Pending.{gone, gone-append, pending, sent_of, sent_of-append}
use moor_pq.Mix.Put.{HasFd, offered, Carried, Carried-none}
use moor_pq.Mix.Drain.{
  mix_drain-Carried, mix_flush_circuit-Carried, mix_drain-none_due, mix_flush_circuit-IsPool,
}
use moor_pq.Mix.Enqueue.{mix_enqueue-IsPool, mix_enqueue-Carried, HasTime-grow}

-- An operation on the pool, with the clock and the delay that it meets; or the rest of the program gives a
-- connection up.
pub data Op : Type 0 where
  enqueue : (conn circuit_id command : ℕ) (payload : List ℕ) (now clock delay : ℕ) → Op
  drain : (now : ℕ) → Op
  flush : (conn circuit_id : ℕ) → Op
  give_up : (conn : ℕ) → Op

unfoldable pub apply : Fds → Stays → Op → MixPool → Net → MixPool × List Leaving × Net
apply fds stays (enqueue conn circuit_id command payload now clock delay) pool net =
    let (_, after, left, net') =
      mix_enqueue fds stays pool conn circuit_id command payload now clock delay net in
    (after, left, net')
apply fds stays (drain now) pool net = mix_drain fds stays pool now net
apply fds stays (flush conn circuit_id) pool net =
    mix_flush_circuit fds stays pool conn circuit_id net
apply fds stays (give_up conn) pool net = (pool, [], shut conn net)

-- The cell that an operation puts in the pool.
pub accepted : Fds → Stays → Op → MixPool → Net → List Sending
accepted fds stays (enqueue conn circuit_id command payload now clock delay) pool net =
    if (mix_enqueue fds stays pool conn circuit_id command payload now clock delay net).0
    then offered conn circuit_id command payload
    else []
accepted fds stays (drain now) pool net = []
accepted fds stays (flush conn circuit_id) pool net = []
accepted fds stays (give_up conn) pool net = []

-- The operations one after the other: the pool, all cells that leave it, and the connections.
unfoldable pub run : Fds → Stays → List Op → MixPool → Net → MixPool × List Leaving × Net
unfolding apply
run fds stays [] pool net = (pool, [], net)
run fds stays (op ∷ ops) pool net =
    let (after, left, net') = apply fds stays op pool net in
    let (last, later, net'') = run fds stays ops after net' in (last, left ++ later, net'')

pub all_accepted : Fds → Stays → List Op → MixPool → Net → List Sending
unfolding accepted
all_accepted fds stays [] pool net = []
all_accepted fds stays (op ∷ ops) pool net =
    let (after, _, net') = apply fds stays op pool net in
    accepted fds stays op pool net ++ all_accepted fds stays ops after net'

-- The clock of an operation is not 0, and no delay ends after `bound`.
abbrev pub IsTimely : ℕ → Op → Type 0
IsTimely bound (enqueue conn circuit_id command payload now clock delay) =
    (0 < clock) × (clock + delay ≤ bound)
IsTimely bound (drain now) = Unit
IsTimely bound (flush conn circuit_id) = Unit
IsTimely bound (give_up conn) = Unit

grown : (bound : ℕ) (pool : MixPool) → IsPool bound pool → IsPool (bound + 1) pool
grown bound pool v = record {
  size = v.size;
  counted = v.counted;
  times = HasTime-grow bound pool.entries v.times;
}

IsTimely-grow :
    (bound : ℕ) (ops : List Op) → All (IsTimely bound) ops → All (IsTimely (bound + 1)) ops
IsTimely-grow bound [] all = tt
IsTimely-grow bound (enqueue c i command payload now clock delay ∷ ops) ((some_time, soon), all) =
    ((some_time, omega arith), IsTimely-grow bound ops all)
IsTimely-grow bound (drain now ∷ ops) (timely, all) = (tt, IsTimely-grow bound ops all)
IsTimely-grow bound (flush c i ∷ ops) (timely, all) = (tt, IsTimely-grow bound ops all)
IsTimely-grow bound (give_up c ∷ ops) (timely, all) = (tt, IsTimely-grow bound ops all)

module _ (fds : Fds) (stays : Stays) (conn circuit_id : ℕ) where
  -- What a run does to the queue of a circuit.
  abbrev pub Conserved : List Op → MixPool → Net → List ℕ → Type 0
  Conserved ops pool net q =
      (rest : List ℕ) × Queued conn circuit_id (run fds stays ops pool net).0.entries rest
      × pending pool.entries q ++ sent_of conn circuit_id (all_accepted fds stays ops pool net)
        ≡ sent_of conn circuit_id (gone (run fds stays ops pool net).1)
          ++ pending (run fds stays ops pool net).0.entries rest

  apply-IsPool :
      (bound : ℕ) (op : Op) (pool : MixPool) (net : Net)
      → IsTimely bound op
      → bound + 1 < uint64_max
      → IsPool bound pool
      → IsPool (bound + 1) (apply fds stays op pool net).0
  unfolding apply
  apply-IsPool bound (enqueue c i command payload now clock delay) pool net (some_time, soon) room
        v =
      mix_enqueue-IsPool fds stays net c i command payload now clock delay bound some_time soon room
        pool v
  apply-IsPool bound (drain now) pool net timely room v =
      grown bound (mix_drain fds stays pool now net).0
        (mix_drain-none_due fds stays net bound now pool v (omega arith)).0
  apply-IsPool bound (flush c i) pool net timely room v =
      grown bound (mix_flush_circuit fds stays pool c i net).0
        (mix_flush_circuit-IsPool fds stays net bound c i pool v (omega arith)).0
  apply-IsPool bound (give_up c) pool net timely room v = grown bound pool v

  apply-Carried :
      (bound : ℕ) (op : Op) (pool : MixPool) (net : Net) (q : List ℕ)
      → IsTimely bound op
      → bound + 1 < uint64_max
      → IsPool bound pool
      → Queued conn circuit_id pool.entries q
      → All (λ j. HasFd fds (at_slot pool.entries j)) q
      → Carried fds conn circuit_id pool.entries q
          (apply fds stays op pool net).0.entries
          (accepted fds stays op pool net)
          (gone (apply fds stays op pool net).1)
  unfolding apply accepted gone
  apply-Carried bound (enqueue c i command payload now clock delay) pool net q (some_time, soon)
        room v queued kept =
      mix_enqueue-Carried fds stays net c i command payload now clock delay bound some_time soon
        room pool conn circuit_id q v queued kept
  apply-Carried bound (drain now) pool net q timely room v queued kept =
      mix_drain-Carried fds stays net pool conn circuit_id now q queued kept
  apply-Carried bound (flush c i) pool net q timely room v queued kept =
      mix_flush_circuit-Carried fds stays net pool conn circuit_id c i q queued kept
  apply-Carried bound (give_up c) pool net q timely room v queued kept =
      Carried-none fds conn circuit_id pool.entries q queued kept

  joined :
      (start xs ys : List Sending) (s t : List Leaving) (middle end : List Sending)
      → start ++ sent_of conn circuit_id xs ≡ sent_of conn circuit_id (gone s) ++ middle
      → middle ++ sent_of conn circuit_id ys ≡ sent_of conn circuit_id (gone t) ++ end
      → start ++ sent_of conn circuit_id (xs ++ ys) ≡ sent_of conn circuit_id (gone (s ++ t)) ++ end
  joined start xs ys s t middle end first second =
      let f = sent_of conn circuit_id in
      ap (λ ss. start ++ ss) (sent_of-append conn circuit_id xs ys)
      ∙ sym (append_assoc start (f xs) (f ys))
      ∙ ap (λ ss. ss ++ f ys) first
      ∙ append_assoc (f (gone s)) middle (f ys)
      ∙ ap (λ ss. f (gone s) ++ ss) second
      ∙ sym (append_assoc (f (gone s)) (f (gone t)) end)
      ∙ ap (λ ss. ss ++ end)
          (sym (ap f (gone-append s t) ∙ sent_of-append conn circuit_id (gone s) (gone t)))

  pub run-Conserved :
      (bound : ℕ) (ops : List Op) (pool : MixPool) (net : Net) (q : List ℕ)
      → All (IsTimely bound) ops
      → bound + length ops < uint64_max
      → IsPool bound pool
      → Queued conn circuit_id pool.entries q
      → All (λ j. HasFd fds (at_slot pool.entries j)) q
      → Conserved ops pool net q
  unfolding run all_accepted gone
  run-Conserved bound [] pool net q timely room v queued kept =
      let (rest, queued', _, sum) = Carried-none fds conn circuit_id pool.entries q queued kept in
      (rest, queued', sum)
  run-Conserved bound (op ∷ ops) pool net q (now, later) room v queued kept =
      let (after, sent, net') = apply fds stays op pool net in
      let (q', queued', kept', first) =
        apply-Carried bound op pool net q now (omega arith) v queued kept in
      let (rest, queued'', second) =
        run-Conserved (bound + 1) ops after net' q' (IsTimely-grow bound ops later) (omega arith)
          (apply-IsPool bound op pool net now (omega arith) v) queued' kept' in
      (
        rest,
        queued'',
        joined (pending pool.entries q) (accepted fds stays op pool net)
            (all_accepted fds stays ops after net') sent (run fds stays ops after net').1
            (pending after.entries q') (pending (run fds stays ops after net').0.entries rest) first
            second,
      )

all_unused : (n i : ℕ) → at_slot (replicate n unused_entry) i ≡ unused_entry
unfolding replicate
all_unused zero i = refl
all_unused (suc n) zero = refl
all_unused (suc n) (suc i) = all_unused n i

pub mix_init-IsPool : (bound lambda_ms : ℕ) → IsPool bound (mix_init lambda_ms)
unfolding mix_init
mix_init-IsPool bound lambda_ms = record {
  size = length-replicate 1024 unused_entry;
  counted = sym (no_cells 1024);
  times = All-replicate (HasTime bound) 1024 unused_entry (λ h. absurd (ground (arith, h)));
}

pub mix_init-Queued :
    (conn circuit_id lambda_ms : ℕ) → Queued conn circuit_id (mix_init lambda_ms).entries []
unfolding mix_init
mix_init-Queued conn circuit_id lambda_ms = record {
  ascends = tt;
  sound = tt;
  complete =
      λ i mine. absurd (ground (arith, mine, ap (of_circuit conn circuit_id) (all_unused 1024 i)));
}
