-- ===== src/Mix/Put.antt =====
-- src/mix.c: a cell that is put in a place of the pool, free or that of a cell that leaves for it.
use moor_pq.Base.{
  ℕ, ◌≡◌, ◌≢◌, ◌<◌, ◌≤◌, ◌∙◌, refl, sym, ap, ap₂, true, false, List, [], ◌∷◌, ◌++◌, append-nil,
  append_assoc, length, length-set, set, set-set, get_or-set_ne, get_or-set_self, arith, All,
  All-append, inl, inr, leb, Bool-cases,
}
use mathlib.Core.Path.{subst}
use moor_pq.Mix.{Fds, MixEntry, Sending, unused_entry, of_circuit, is_due, wiped}
use moor_pq.Mix.Scans.{at_slot, of_circuit-active, Least, and_true}
use moor_pq.Mix.Queue.{Queued, Mine, Without, Queued-other, Queued-append, other_circuit}
use moor_pq.Mix.Loop.{take_least}
use moor_pq.Mix.Pending.{
  leaves, pending_one, sent_of_none, pending, pending-set, pending-append, sent_of, sent_of-leaves,
  All-Kept-set,
}

-- The cell was put in the pool for the descriptor that its connection has.
abbrev pub HasFd : Fds → MixEntry → Type 0
HasFd fds e = e.target_fd ≡ fds e.target_conn

-- A new cell.
abbrev pub offered : ℕ → ℕ → ℕ → List ℕ → List Sending
offered conn circuit_id command payload =
    record {
      target = conn;
      cell = record { circuit_id = circuit_id; command = command; payload = payload };
    }
    ∷ []

-- The entries that are due are those of a circuit up to a time.
pub due_closed :
    (now : ℕ) (e first : MixEntry)
    → first.active ≡ true
    → first.fire_time ≤ e.fire_time
    → is_due now e ≡ true
    → is_due now first ≡ true
due_closed now e first used early due =
    let (_, in_time) = and_true e.active (leb e.fire_time now) due in
    let soon : e.fire_time ≤ now = ground (arith, in_time) in
    rw (used) (let h : first.fire_time ≤ now = omega arith in ground (arith, h))

module _ (fds : Fds) (conn circuit_id : ℕ) where
  all_before :
      (entries : List MixEntry) (i time : ℕ) (q : List ℕ)
      → ((j : ℕ) → j ≢ i → Mine conn circuit_id entries j → (at_slot entries j).fire_time < time)
      → Without i q
      → All (Mine conn circuit_id entries) q
      → All (λ j. (at_slot entries j).fire_time < time) q
  all_before entries i time [] last without sound = tt
  all_before entries i time (j ∷ q) last (apart, without) (mine, sound) =
      (last j (λ same. apart (sym same)) mine, all_before entries i time q last without sound)

  -- A cell is put in a free place.
  abbrev Put : List MixEntry → List ℕ → ℕ → MixEntry → Type 0
  Put entries q i e =
      (rest : List ℕ) × Queued conn circuit_id (set entries i e) rest
      × All (λ j. HasFd fds (at_slot (set entries i e) j)) rest
      × pending entries q ++ sent_of conn circuit_id (leaves e) ≡ pending (set entries i e) rest

  -- A cell of the circuit is later than the others of it.
  abbrev pub Newest : List MixEntry → ℕ → MixEntry → Type 0
  Newest entries i e =
      of_circuit conn circuit_id e ≡ true
      → (j : ℕ) → j ≢ i
      → Mine conn circuit_id entries j
      → (at_slot entries j).fire_time < e.fire_time

  pub Put-free :
      (entries : List MixEntry) (q : List ℕ) (i : ℕ) (e : MixEntry)
      → i < length entries
      → (at_slot entries i).active ≡ false
      → e.active ≡ true
      → HasFd fds e
      → Newest entries i e
      → Queued conn circuit_id entries q
      → All (λ j. HasFd fds (at_slot entries j)) q
      → Put entries q i e
  Put-free entries q i e inside free used fd last v kept =
      let other : of_circuit conn circuit_id (at_slot entries i) ≡ false = rw (free) refl in
      let without = other_circuit conn circuit_id entries i q other v.sound in
      let kept' = All-Kept-set conn circuit_id (HasFd fds) entries i e q without kept in
      elim (Bool-cases (of_circuit conn circuit_id e)) [
        | inr not_mine ↦
            let nothing = sent_of-leaves conn circuit_id e used ∙ rw (not_mine) refl in
            (
              q,
              Queued-other conn circuit_id entries i e q other not_mine v,
              kept',
              ap (λ ss. pending entries q ++ ss) nothing
                  ∙ append-nil (pending entries q)
                  ∙ sym (pending-set entries i e q without),
            )
        | inl mine ↦
            let after = set entries i e in
            let own = sent_of-leaves conn circuit_id e used ∙ rw (mine) refl in
            let written_at : at_slot after i ≡ e =
              get_or-set_self entries i e unused_entry inside in
            (
              q ++ (i ∷ []),
              Queued-append conn circuit_id entries i e q inside other mine
                  (all_before entries i e.fire_time q (last mine) without v.sound) v,
              All-append (λ j. HasFd fds (at_slot after j)) q (i ∷ []) kept'
                  (subst (HasFd fds) (sym written_at) fd, tt),
              ap₂ ◌++◌ (sym (pending-set entries i e q without))
                    (own ∙ ap leaves (sym written_at) ∙ sym (pending_one after i))
                  ∙ sym (pending-append after q (i ∷ [])),
            )
      ]

  -- What an operation does to the queue of a circuit: `accepted` is the cell that it puts at the end, and
  -- `sent` are those that leave the pool.
  abbrev pub Carried : List MixEntry → List ℕ → List MixEntry → List Sending → List Sending → Type 0
  Carried entries q after accepted sent =
      (rest : List ℕ) × Queued conn circuit_id after rest
      × All (λ j. HasFd fds (at_slot after j)) rest
      × pending entries q ++ sent_of conn circuit_id accepted
        ≡ sent_of conn circuit_id sent ++ pending after rest

  -- Nothing happens.
  pub Carried-none :
      (entries : List MixEntry) (q : List ℕ)
      → Queued conn circuit_id entries q
      → All (λ j. HasFd fds (at_slot entries j)) q
      → Carried entries q entries [] []
  Carried-none entries q v kept = (
    q,
    v,
    kept,
    ap (λ ss. pending entries q ++ ss) (sent_of_none conn circuit_id)
        ∙ append-nil (pending entries q)
        ∙ ap (λ ss. ss ++ pending entries q) (sym (sent_of_none conn circuit_id)),
  )

  -- A cell leaves, and a new one is put in its place.
  pub evicted :
      (entries : List MixEntry) (q : List ℕ) (now k : ℕ) (e : MixEntry)
      → k < length entries
      → is_due now (at_slot entries k) ≡ true
      → Least (is_due now) entries (at_slot entries k).fire_time
      → e.active ≡ true
      → HasFd fds e
      → Newest entries k e
      → Queued conn circuit_id entries q
      → All (λ j. HasFd fds (at_slot entries j)) q
      → Carried entries q (set entries k e) (leaves e) (leaves (at_slot entries k))
  evicted entries q now k e inside due least used fd last v kept =
      let w = wiped (at_slot entries k) in
      let es1 = set entries k w in
      let (q1, v1, kept1, sum1) =
        take_least (is_due now) (λ x h. (and_true x.active _ h).0) conn circuit_id (HasFd fds)
          (λ x first _ mine _ early h.
            due_closed now x first (of_circuit-active conn circuit_id first mine) early h)
          entries es1 q k [] due least v kept
          (λ q' v' kept'. (
            q',
            v',
            kept',
            ap (λ ss. ss ++ pending es1 q') (sym (sent_of_none conn circuit_id)),
          )) in
      let here = get_or-set_self entries k w unused_entry inside in
      let (rest, v2, kept2, sum2) =
        Put-free es1 q1 k e (omega (arith, inside, length-set entries k w))
          (ap (λ x. x.active) here) used fd
          (λ its_own j apart mine.
            let same : at_slot es1 j ≡ at_slot entries j =
              get_or-set_ne entries k j w unused_entry (λ s. apart (sym s)) in
            omega (
              arith,
              last its_own j apart (ap (of_circuit conn circuit_id) (sym same) ∙ mine),
              ap (λ x. x.fire_time) same,
            ))
          v1 kept1 in
      let accepted = sent_of conn circuit_id (leaves e) in
      let sent = sent_of conn circuit_id (leaves (at_slot entries k)) in
      subst (λ after. Carried entries q after (leaves e) (leaves (at_slot entries k)))
        (set-set entries k w e)
        (
          rest,
          v2,
          kept2,
          ap (λ ss. ss ++ accepted)
                (sum1
                  ∙ ap (λ xs. sent_of conn circuit_id xs ++ pending es1 q1)
                      (append-nil (leaves (at_slot entries k))))
              ∙ append_assoc sent (pending es1 q1) accepted
              ∙ ap (λ ss. sent ++ ss) sum2,
        )
