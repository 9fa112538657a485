-- ===== src/Mix/Loop.antt =====
-- The loops of `moor_mix_drain` and `moor_mix_flush_circuit` of src/mix.c: each circuit's cells leave in
-- their order, and none that passes the test is left.
use moor_pq.Base.{
  ℕ, zero, suc, ◌≡◌, ◌<◌, ◌≤◌, refl, sym, ap, Bool, true, none, some, List, [], ◌∷◌, ◌++◌, length,
  set, arith, All, All-get_or, inl, inr, Bool-cases, lt_or_le,
}
use mathlib.Core.Path.{subst}
use moor_pq.Mix.{
  Fds, Stays, Net, MixEntry, MixPool, Sending, unused_entry, of_circuit, pick, send_loop,
  send_entry, leaving, wiped, release, uint64_max,
}
use moor_pq.Mix.Scans.{at_slot, active_inside, of_circuit-active, pick_lem, Least}
use moor_pq.Mix.Queue.{
  All-Elem, Queued, Mine, Queued-other, Queued-tail, Queued-head, earlier_places, other_circuit,
}
use moor_pq.Mix.Pool.{IsPool, HasTime, active_count, active_count-taken, release-IsPool}
use moor_pq.Mix.Pending.{
  gone, leaves, pending, sent_of_none, Sent, All-Kept-set, Sent-other, Sent-first,
}

module _ (test : MixEntry → Bool) (uses : (e : MixEntry) → test e ≡ true → e.active ≡ true) where
  module _ (fds : Fds) (stays : Stays) where
    pub send_loop-stop :
        (fuel : ℕ) (pool : MixPool) (net : Net)
        → pick test pool.entries ≡ none
        → send_loop (suc fuel) fds stays test pool net ≡ (pool, [], net)
    unfolding send_loop
    send_loop-stop fuel pool net nothing = rw (nothing, send_loop) refl

    pub send_loop-step :
        (fuel : ℕ) (pool : MixPool) (net : Net) (k : ℕ)
        → pick test pool.entries ≡ some k
        → let e = at_slot pool.entries k in
          let r = send_loop fuel fds stays test (release k pool) (send_entry fds stays e net) in
          send_loop (suc fuel) fds stays test pool net ≡ (r.0, leaving fds net e ∷ r.1, r.2)
    unfolding send_loop
    send_loop-step fuel pool net k found = rw (found, send_loop) refl

    -- With the fuel that the loop has, no entry is left that passes the test.
    pub send_loop-none_left :
        (fuel bound : ℕ) (pool : MixPool) (net : Net)
        → IsPool bound pool
        → bound < uint64_max
        → active_count pool.entries < fuel
        → IsPool bound (send_loop fuel fds stays test pool net).0
          × (send_loop fuel fds stays test pool net).0.lambda_ms ≡ pool.lambda_ms
          × ((j : ℕ)
              → j < length (send_loop fuel fds stays test pool net).0.entries
              → test (at_slot (send_loop fuel fds stays test pool net).0.entries j) ≡ true
              → ⊥)
    send_loop-none_left zero bound pool net v low enough = absurd (omega arith)
    send_loop-none_left (suc fuel) bound pool net v low enough = elim (pick_lem test pool.entries) [
      | inl (nothing, least) ↦ rw (send_loop-stop fuel pool net nothing) (
        v,
        refl,
        λ j inside passes. absurd (
            omega (
              arith,
              least j inside passes,
              low,
              (All-get_or (HasTime bound) pool.entries j unused_entry v.times inside
                  (uses (at_slot pool.entries j) passes)).1,
            )),
      )
      | inr (k, found, inside, passes, least) ↦
          let used = uses (at_slot pool.entries k) passes in
          let fewer =
            active_count-taken pool.entries k (wiped (at_slot pool.entries k)) used refl in
          rw (send_loop-step fuel pool net k found) (
            send_loop-none_left fuel bound (release k pool)
              (send_entry fds stays (at_slot pool.entries k) net)
              (release-IsPool bound k pool used v) low (omega arith))
    ]

  module _ (conn circuit_id : ℕ) (Kept : MixEntry → Type 0)
      (closed : (e first : MixEntry)
        → of_circuit conn circuit_id e ≡ true
        → of_circuit conn circuit_id first ≡ true
        → Kept first
        → first.fire_time ≤ e.fire_time
        → test e ≡ true
        → test first ≡ true) where
    -- The least of those that pass the test is the least of its circuit.
    pub Least-Mine :
        (entries : List MixEntry) (q : List ℕ) (k : ℕ)
        → Queued conn circuit_id entries q
        → All (λ i. Kept (at_slot entries i)) q
        → Mine conn circuit_id entries k
        → test (at_slot entries k) ≡ true
        → Least test entries (at_slot entries k).fire_time
        → (j : ℕ) → Mine conn circuit_id entries j
        → (at_slot entries k).fire_time ≤ (at_slot entries j).fire_time
    Least-Mine entries q k v kept mine passes least j mine_too =
        elim (lt_or_le (at_slot entries j).fire_time (at_slot entries k).fire_time) [
          | inr more ↦ more
          | inl less ↦
              least j
                (active_inside entries j
                  (of_circuit-active conn circuit_id (at_slot entries j) mine_too))
                (closed (at_slot entries k) (at_slot entries j) mine mine_too
                  (All-Elem (λ i. Kept (at_slot entries i)) q j kept (v.complete j mine_too))
                  (omega arith) passes)
        ]

    -- The earliest entry that passes the test leaves, before those that leave then.
    pub take_least :
        (entries after : List MixEntry) (q : List ℕ) (k : ℕ) (sent : List Sending)
        → test (at_slot entries k) ≡ true
        → Least test entries (at_slot entries k).fire_time
        → Queued conn circuit_id entries q
        → All (λ i. Kept (at_slot entries i)) q
        → ((q' : List ℕ)
            → Queued conn circuit_id (set entries k (wiped (at_slot entries k))) q'
            → All (λ i. Kept (at_slot (set entries k (wiped (at_slot entries k))) i)) q'
            → Sent conn circuit_id Kept (set entries k (wiped (at_slot entries k))) q' after sent)
        → Sent conn circuit_id Kept entries q after (leaves (at_slot entries k) ++ sent)
    take_least entries after q k sent passes least v kept go_on =
        let w = wiped (at_slot entries k) in
        let used = uses (at_slot entries k) passes in
        elim (Bool-cases (of_circuit conn circuit_id (at_slot entries k))) [
          | inr other ↦
              let without = other_circuit conn circuit_id entries k q other v.sound in
              Sent-other conn circuit_id Kept entries after k q sent used other without (
                go_on q (Queued-other conn circuit_id entries k w q other refl v)
                  (All-Kept-set conn circuit_id Kept entries k w q without kept))
          | inl mine ↦
              let (rest, first) =
                Queued-head conn circuit_id entries k q mine
                  (Least-Mine entries q k v kept mine passes least) v in
              let v' = subst (Queued conn circuit_id entries) first v in
              let kept' = subst (All (λ i. Kept (at_slot entries i))) first kept in
              let without = earlier_places conn circuit_id entries k rest v'.ascends.0 in
              subst
                (λ q'.
                  Sent conn circuit_id Kept entries q' after (leaves (at_slot entries k) ++ sent))
                (sym first)
                (Sent-first conn circuit_id Kept entries after k rest sent used mine without (
                  go_on rest (Queued-tail conn circuit_id entries k w rest refl v')
                    (All-Kept-set conn circuit_id Kept entries k w rest without kept'.1)))
        ]

    -- The loop sends the first cells of a circuit's queue, in their order.
    pub send_loop-Queued :
        (fds : Fds) (stays : Stays) (fuel : ℕ) (pool : MixPool) (net : Net) (q : List ℕ)
        → Queued conn circuit_id pool.entries q
        → All (λ i. Kept (at_slot pool.entries i)) q
        → Sent conn circuit_id Kept pool.entries q
            (send_loop fuel fds stays test pool net).0.entries
            (gone (send_loop fuel fds stays test pool net).1)
    unfolding send_loop gone
    send_loop-Queued fds stays zero pool net q v kept =
        (q, v, kept, ap (λ ss. ss ++ pending pool.entries q) (sym (sent_of_none conn circuit_id)))
    send_loop-Queued fds stays (suc fuel) pool net q v kept = elim (pick_lem test pool.entries) [
      | inl (nothing, least) ↦
          rw (send_loop-stop fds stays fuel pool net nothing) (
            q,
            v,
            kept,
            ap (λ ss. ss ++ pending pool.entries q) (sym (sent_of_none conn circuit_id)),
          )
      | inr (k, found, inside, passes, least) ↦
          let net' = send_entry fds stays (at_slot pool.entries k) net in
          let (after, left, _) = send_loop fuel fds stays test (release k pool) net' in
          rw (send_loop-step fds stays fuel pool net k found) (
            take_least pool.entries after.entries q k (gone left) passes least v kept
              (send_loop-Queued fds stays fuel (release k pool) net'))
    ]
