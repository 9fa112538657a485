-- ===== src/Mix/Drain.antt =====
-- `moor_mix_drain` and `moor_mix_flush_circuit` of src/mix.c: which cells of each circuit leave the pool, and what they
-- leave.
use moor_pq.Base.{
  ℕ, ◌≡◌, ◌<◌, ◌∙◌, refl, sym, ap, ap₂, true, false, ◌&&◌, List, [], ◌++◌, append-nil, arith, All,
  inl, inr, ◌==◌, ==_iff, Bool-cases,
}
use moor_pq.Mix.{
  Fds, Stays, Net, MixEntry, MixPool, Sending, of_circuit, is_due, is_flushed, send_loop, mix_drain,
  mix_flush_circuit, uint64_max, mix_pool_size,
}
use moor_pq.Mix.Scans.{at_slot, of_circuit-active, and_true}
use moor_pq.Mix.Queue.{Queued}
use moor_pq.Mix.Pool.{active_none, IsPool, active_count_bound}
use moor_pq.Mix.Pending.{gone, Sent, pending, sent_of_none}
use moor_pq.Mix.Loop.{send_loop-Queued, send_loop-none_left}
use moor_pq.Mix.Put.{HasFd, due_closed, Carried, Carried-none}

pub flushed_circuit :
    (fds : Fds) (conn circuit_id : ℕ) (e : MixEntry)
    → of_circuit conn circuit_id e ≡ true
    → HasFd fds e
    → is_flushed fds conn circuit_id e ≡ true
flushed_circuit fds conn circuit_id e mine fd =
    let to_conn =
      (==_iff e.target_conn conn).0
        (and_true e.active (e.target_conn == conn)
          (and_true (e.active && (e.target_conn == conn)) (e.circuit_id == circuit_id) mine).0).1 in
    rw (mine) ((==_iff e.target_fd (fds conn)).1 (fd ∙ ap fds to_conn))

pub is_flushed-active :
    (fds : Fds) (conn circuit_id : ℕ) (e : MixEntry)
    → is_flushed fds conn circuit_id e ≡ true
    → e.active ≡ true
is_flushed-active fds conn circuit_id e h =
    of_circuit-active conn circuit_id e (and_true (of_circuit conn circuit_id e) _ h).0

pub of_both :
    (conn circuit_id : ℕ) (e : MixEntry)
    → of_circuit conn circuit_id e ≡ true
    → (e.target_conn ≡ conn) × (e.circuit_id ≡ circuit_id)
of_both conn circuit_id e mine =
    let (first_two, to_circuit) =
      and_true (e.active && (e.target_conn == conn)) (e.circuit_id == circuit_id) mine in
    (
      (==_iff e.target_conn conn).0 (and_true e.active (e.target_conn == conn) first_two).1,
      (==_iff e.circuit_id circuit_id).0 to_circuit,
    )

-- The circuit of an entry is one circuit.
same_circuit :
    (conn circuit_id conn' circuit_id' : ℕ) (e first : MixEntry)
    → of_circuit conn circuit_id e ≡ true
    → of_circuit conn' circuit_id' e ≡ true
    → of_circuit conn circuit_id first ≡ true
    → of_circuit conn' circuit_id' first ≡ true
same_circuit conn circuit_id conn' circuit_id' e first mine flushed mine_too =
    let (c, i) = of_both conn circuit_id e mine in
    let (c', i') = of_both conn' circuit_id' e flushed in
    sym (ap₂ (λ a b. of_circuit a b first) (sym c ∙ c') (sym i ∙ i')) ∙ mine_too

module _ (fds : Fds) (stays : Stays) (net : Net) where
  Carried-sent :
      (entries after : List MixEntry) (conn circuit_id : ℕ) (q : List ℕ) (sent : List Sending)
      → Sent conn circuit_id (HasFd fds) entries q after sent
      → Carried fds conn circuit_id entries q after [] sent
  Carried-sent entries after conn circuit_id q sent (rest, v, kept, sum) = (
    rest,
    v,
    kept,
    ap (λ ss. pending entries q ++ ss) (sent_of_none conn circuit_id)
        ∙ append-nil (pending entries q)
        ∙ sum,
  )

  pub mix_drain-Carried :
      (pool : MixPool) (conn circuit_id now : ℕ) (q : List ℕ)
      → Queued conn circuit_id pool.entries q
      → All (λ j. HasFd fds (at_slot pool.entries j)) q
      → Carried fds conn circuit_id pool.entries q
          (mix_drain fds stays pool now net).0.entries
          []
          (gone (mix_drain fds stays pool now net).1)
  unfolding mix_drain gone
  mix_drain-Carried pool conn circuit_id now q v kept = elim (Bool-cases (pool.count == 0)) [
    | inl nothing ↦ rw (nothing) (Carried-none fds conn circuit_id pool.entries q v kept)
    | inr some_cells ↦ rw (some_cells) (
        Carried-sent pool.entries (send_loop 1025 fds stays (is_due now) pool net).0.entries conn
          circuit_id q (gone (send_loop 1025 fds stays (is_due now) pool net).1)
          (send_loop-Queued (is_due now) (λ e h. (and_true e.active _ h).0) conn circuit_id
            (HasFd fds)
            (λ e first _ mine _ early h.
              due_closed now e first (of_circuit-active conn circuit_id first mine) early h)
            fds stays 1025 pool net q v kept))
  ]

  pub mix_flush_circuit-Carried :
      (pool : MixPool) (conn circuit_id conn' circuit_id' : ℕ) (q : List ℕ)
      → Queued conn circuit_id pool.entries q
      → All (λ j. HasFd fds (at_slot pool.entries j)) q
      → Carried fds conn circuit_id pool.entries q
          (mix_flush_circuit fds stays pool conn' circuit_id' net).0.entries
          []
          (gone (mix_flush_circuit fds stays pool conn' circuit_id' net).1)
  unfolding mix_flush_circuit
  mix_flush_circuit-Carried pool conn circuit_id conn' circuit_id' q v kept =
      let test = is_flushed fds conn' circuit_id' in
      Carried-sent pool.entries (send_loop 1025 fds stays test pool net).0.entries conn circuit_id q
        (gone (send_loop 1025 fds stays test pool net).1)
        (send_loop-Queued test (is_flushed-active fds conn' circuit_id') conn circuit_id (HasFd fds)
          (λ e first mine mine_too fd early h.
            flushed_circuit fds conn' circuit_id' first
              (same_circuit conn circuit_id conn' circuit_id' e first mine
                (and_true (of_circuit conn' circuit_id' e) _ h).0 mine_too)
              fd)
          fds stays 1025 pool net q v kept)

-- `moor_mix_drain` keeps a well-formed pool whose times are all before the last of the clock well-formed, and
-- leaves no cell in it whose time has come.
pub mix_drain-none_due :
    (fds : Fds) (stays : Stays) (net : Net) (bound now : ℕ) (pool : MixPool)
    → IsPool bound pool
    → bound < uint64_max
    → IsPool bound (mix_drain fds stays pool now net).0
      × ((j : ℕ)
          → j < mix_pool_size
          → is_due now (at_slot (mix_drain fds stays pool now net).0.entries j) ≡ false)
unfolding mix_drain
mix_drain-none_due fds stays net bound now pool v low = elim (Bool-cases (pool.count == 0)) [
  | inl nothing ↦ rw (nothing) (
    v,
    λ j inside.
        let count_zero : pool.count ≡ 0 = ground (arith, nothing) in
        rw (active_none pool.entries j (omega (arith, v.counted, count_zero))) refl,
  )
  | inr some_cells ↦
      let (v', _, none_left) =
        send_loop-none_left (is_due now) (λ e h. (and_true e.active _ h).0) fds stays 1025 bound
          pool net v low (omega (arith, active_count_bound pool.entries, v.size)) in
      rw (some_cells) (
        v',
        λ j inside.
            elim (Bool-cases
              (is_due now (at_slot (send_loop 1025 fds stays (is_due now) pool net).0.entries j))) [
                | inl due ↦ absurd (none_left j (omega (arith, v'.size, inside)) due)
                | inr later ↦ later
              ],
      )
]

-- `moor_mix_flush_circuit` keeps the pool well-formed, and leaves no cell of the circuit in it that was put
-- in for the descriptor of the connection.
pub mix_flush_circuit-IsPool :
    (fds : Fds) (stays : Stays) (net : Net) (bound conn circuit_id : ℕ) (pool : MixPool)
    → IsPool bound pool
    → bound < uint64_max
    → IsPool bound (mix_flush_circuit fds stays pool conn circuit_id net).0
      × ((j : ℕ)
          → j < mix_pool_size
          → is_flushed fds conn circuit_id
              (at_slot (mix_flush_circuit fds stays pool conn circuit_id net).0.entries j)
            ≡ false)
unfolding mix_flush_circuit
mix_flush_circuit-IsPool fds stays net bound conn circuit_id pool v low =
    let test = is_flushed fds conn circuit_id in
    let (v', _, none_left) =
      send_loop-none_left test (is_flushed-active fds conn circuit_id) fds stays 1025 bound pool net
        v low (omega (arith, active_count_bound pool.entries, v.size)) in
    (
      v',
      λ j inside.
          elim (Bool-cases (test (at_slot (send_loop 1025 fds stays test pool net).0.entries j))) [
            | inl found ↦ absurd (none_left j (omega (arith, v'.size, inside)) found)
            | inr gone ↦ gone
          ],
    )
