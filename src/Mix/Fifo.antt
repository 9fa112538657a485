-- ===== src/Mix/Fifo.antt =====
-- Runs of the operations of src/mix.c from an empty pool: what becomes of the cells of a circuit.
use moor_pq.Base.{
  ℕ, ◌+◌, ◌≡◌, ◌<◌, ◌∙◌, refl, sym, ap, Bool, true, List, [], ◌∷◌, ◌++◌, length, arith, All,
  All-append, All-get_or, All-replicate, All-set, All_weaken, inl, inr, Bool-cases, ◌==◌,
}
use moor_pq.Mix.{
  Fds, Stays, Net, Leaving, MixEntry, MixPool, unused_entry, is_due, is_flushed, mix_init,
  mix_drain, mix_flush_circuit, send_loop, send_entry, uint64_max,
}
use moor_pq.Mix.Scans.{at_slot, and_true}
use moor_pq.Mix.Queue.{Queued}
use moor_pq.Mix.Pool.{new_entry}
use moor_pq.Mix.Pending.{gone, pending, pending_none, sent_of}
use moor_pq.Mix.Put.{HasFd}
use moor_pq.Mix.Handed.{
  WasHanded, Closes, shut-Closes, send_entry-Closes, leaving-WasHanded, WasHanded-later,
  send_loop-Closes, send_loop-All, send_loop-WasHanded,
}
use moor_pq.Mix.Drain.{is_flushed-active}
use moor_pq.Mix.Enqueue.{outcome, refused, put_in, in_place_of}
use moor_pq.Mix.Run.{
  Op, enqueue, drain, flush, give_up, apply, run, all_accepted, IsTimely, run-Conserved,
  mix_init-IsPool, mix_init-Queued,
}

-- A cell in the pool was put in for the descriptor of its connection.
abbrev OwnFd : Fds → MixEntry → Type 0
OwnFd fds e = e.active ≡ true → HasFd fds e

module _ (fds : Fds) (stays : Stays) where
  -- What an operation or a run does to the connections and to the cells that leave.
  abbrev Hands : MixPool → Net → MixPool × List Leaving × Net → Type 0
  Hands pool net r = Closes net r.2 × All (OwnFd fds) r.0.entries × All (WasHanded r.2) r.1

  loop-Hands :
      (test : MixEntry → Bool) (uses : (e : MixEntry) → test e ≡ true → e.active ≡ true)
      (pool : MixPool) (net : Net)
      → All (OwnFd fds) pool.entries
      → Hands pool net (send_loop 1025 fds stays test pool net)
  loop-Hands test uses pool net own = (
    send_loop-Closes test uses fds stays 1025 pool net,
    send_loop-All test uses fds stays (OwnFd fds) (λ e h. absurd (ground (arith, h))) 1025 pool net
        own,
    send_loop-WasHanded test uses fds stays 1025 pool net (
        All_weaken (OwnFd fds) (λ e. test e ≡ true → HasFd fds e) (λ e h t. h (uses e t))
          pool.entries own),
  )

  apply-Hands :
      (op : Op) (pool : MixPool) (net : Net)
      → All (OwnFd fds) pool.entries
      → Hands pool net (apply fds stays op pool net)
  unfolding apply mix_drain mix_flush_circuit
  apply-Hands (enqueue conn circuit_id command payload now clock delay) pool net own =
      let e : ℕ → MixEntry =
        λ i. new_entry fds conn circuit_id command payload clock delay i pool.entries in
      elim (outcome fds stays net conn circuit_id command payload now clock delay pool) [
        | refused same ↦ rw (same) (λ c up. up, own, tt)
        | put_in i inside free same ↦
            rw (same) (λ c up. up, All-set (OwnFd fds) pool.entries i (e i) own (λ used. refl), tt)
        | in_place_of i inside due least same ↦
            let victim = at_slot pool.entries i in
            let used = (and_true victim.active _ due).0 in
            let fd = All-get_or (OwnFd fds) pool.entries i unused_entry own inside used in
            let closes = send_entry-Closes fds stays victim net in
            rw (same) (
              closes,
              All-set (OwnFd fds) pool.entries i (e i) own (λ used. refl),
              (leaving-WasHanded fds net (send_entry fds stays victim net) victim fd closes, tt),
            )
      ]
  apply-Hands (drain now) pool net own = elim (Bool-cases (pool.count == 0)) [
    | inl nothing ↦ rw (nothing) (λ c up. up, own, tt)
    | inr some_cells ↦
        rw (some_cells) (loop-Hands (is_due now) (λ e h. (and_true e.active _ h).0) pool net own)
  ]
  apply-Hands (flush conn circuit_id) pool net own =
      loop-Hands (is_flushed fds conn circuit_id) (is_flushed-active fds conn circuit_id) pool net
        own
  apply-Hands (give_up conn) pool net own = (shut-Closes conn net, own, tt)

  run-Hands :
      (ops : List Op) (pool : MixPool) (net : Net)
      → All (OwnFd fds) pool.entries
      → Hands pool net (run fds stays ops pool net)
  unfolding run
  run-Hands [] pool net own = (λ c up. up, own, tt)
  run-Hands (op ∷ ops) pool net own =
      let (after, left, net') = apply fds stays op pool net in
      let (closes, own', handed) = apply-Hands op pool net own in
      let (closes', own'', later) = run-Hands ops after net' own' in
      let (_, left', net'') = run fds stays ops after net' in
      (
        λ c up. closes c (closes' c up),
        own'',
        All-append (WasHanded net'') left left' (WasHanded-later net' net'' left closes' handed)
            later,
      )

init-OwnFd : (fds : Fds) (lambda_ms : ℕ) → All (OwnFd fds) (mix_init lambda_ms).entries
unfolding mix_init
init-OwnFd fds lambda_ms =
    All-replicate (OwnFd fds) 1024 unused_entry (λ h. absurd (ground (arith, h)))

-- After any run of enqueues, drains and flushes from an empty pool, in which no clock is 0, the delays end
-- well before the end of the clock and no connection changes its descriptor, while sends that fail and the
-- rest of the program give connections up: the cells of a circuit that left the pool, and then those that are
-- still in it, the earliest first, are the cells of the circuit that the pool took, in the order in which it
-- took them. Of all cells that left the pool, those whose connection is still open in the end were handed
-- to `moor_connection_send_cell`.
pub mix_fifo :
    (fds : Fds) (stays : Stays) (net : Net) (conn circuit_id lambda_ms bound : ℕ) (ops : List Op)
    → All (IsTimely bound) ops
    → bound + length ops < uint64_max
    → let (after, left, net') = run fds stays ops (mix_init lambda_ms) net in
      ((rest : List ℕ) × Queued conn circuit_id after.entries rest
        × sent_of conn circuit_id (all_accepted fds stays ops (mix_init lambda_ms) net)
          ≡ sent_of conn circuit_id (gone left) ++ pending after.entries rest)
      × All (WasHanded net') left
mix_fifo fds stays net conn circuit_id lambda_ms bound ops timely room =
    let pool = mix_init lambda_ms in
    let (rest, queued', sum) =
      run-Conserved fds stays conn circuit_id bound ops pool net [] timely room
        (mix_init-IsPool bound lambda_ms) (mix_init-Queued conn circuit_id lambda_ms) tt in
    (
      (
        rest,
        queued',
        ap (λ ss. ss ++ sent_of conn circuit_id (all_accepted fds stays ops pool net))
              (sym (pending_none pool.entries))
            ∙ sum,
      ),
      (run-Hands fds stays ops pool net (init-OwnFd fds lambda_ms)).2,
    )
