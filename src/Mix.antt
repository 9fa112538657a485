-- ===== src/Mix.antt =====
-- src/mix.c: the pool in which the cells of a relay wait for a random time. A connection is a number;
-- `Fds` has its descriptor, and `Net` the state that a call of `moor_connection_send_cell` may change. The
-- clock and `sample_delay`, which takes a logarithm, are arguments.
pub mod Scans
pub mod Queue
pub mod Pool
pub mod Pending
pub mod Loop
pub mod Put
pub mod Handed
pub mod Enqueue
pub mod Drain
pub mod Flush
pub mod Purge
pub mod Run
pub mod Fifo
mod Tests
use moor_pq.Base.{
  ℕ, zero, suc, ◌+◌, ◌-◌, Bool, true, false, not, ◌&&◌, Option, none, some, List, [], ◌∷◌, ◌++◌,
  length, get_or, set, map, replicate, zeros, ltb, leb, ◌==◌, if◌then◌else◌, u64,
}
use moor_pq.Cell.{Cell}

abbrev pub mix_pool_size : ℕ
mix_pool_size = 1024

abbrev pub uint64_max : ℕ
uint64_max = 18446744073709551615

-- The descriptors of the connections, `conn->fd`.
abbrev pub Fds : Type 0
Fds = ℕ → ℕ

-- Whether the state of each connection is CONN_STATE_OPEN, and how many cells were handed to
-- `moor_connection_send_cell` so far.
pub record Net : Type 0 where
  pub is_open : ℕ → Bool
  pub calls : ℕ

-- Whether the connection of the n-th call of `moor_connection_send_cell` is still open after it: a send that
-- fails sets its state to CONN_STATE_NONE.
abbrev pub Stays : Type 0
Stays = ℕ → Bool

-- A connection is given up.
abbrev pub shut : ℕ → Net → Net
shut conn net = record net { is_open = λ c. net.is_open c && not (c == conn) }

-- What a call of `moor_connection_send_cell` does to the connections.
abbrev pub call_send_cell : Stays → ℕ → Net → Net
call_send_cell stays conn net =
    let called = record net { calls = net.calls + 1 } in
    if stays net.calls then called else shut conn called

-- `moor_mix_entry_t`
pub record MixEntry : Type 0 where
  pub payload : List ℕ
  pub circuit_id : ℕ
  pub command : ℕ
  pub target_conn : ℕ
  pub target_fd : ℕ
  pub fire_time : ℕ
  pub active : Bool

-- `moor_mix_pool_t`
pub record MixPool : Type 0 where
  pub entries : List MixEntry
  pub count : ℕ
  pub lambda_ms : ℕ

abbrev pub unused_entry : MixEntry
unused_entry = record {
  payload = zeros 509;
  circuit_id = 0;
  command = 0;
  target_conn = 0;
  target_fd = 0;
  fire_time = 0;
  active = false;
}

-- A cell, with its connection.
pub record Sending : Type 0 where
  pub target : ℕ
  pub cell : Cell

-- A cell that leaves the pool, and whether it is handed to `moor_connection_send_cell`.
pub record Leaving : Type 0 where
  pub sending : Sending
  pub handed : Bool

-- `moor_mix_init`
pub mix_init : ℕ → MixPool
mix_init lambda_ms = record {
  entries = replicate mix_pool_size unused_entry;
  count = 0;
  lambda_ms = lambda_ms;
}

-- `moor_mix_cleanup`
pub mix_cleanup : MixPool
unfolding mix_init
mix_cleanup = mix_init 0

-- `moor_mix_enabled`
pub mix_enabled : MixPool → Bool
mix_enabled pool = ltb 0 pool.lambda_ms

-- An entry of a circuit of a connection.
abbrev pub of_circuit : ℕ → ℕ → MixEntry → Bool
of_circuit conn circuit_id e = e.active && (e.target_conn == conn) && (e.circuit_id == circuit_id)

-- `latest_fire_for_circuit`
pub latest_fire : ℕ → ℕ → ℕ → List MixEntry → ℕ
latest_fire conn circuit_id latest [] = latest
latest_fire conn circuit_id latest (e ∷ entries) =
    latest_fire conn circuit_id
      (if of_circuit conn circuit_id e && ltb latest e.fire_time then e.fire_time else latest)
      entries

-- The earliest of the entries that pass a test, from place `i` on; `best` is the one so far.
pub pick_from : (MixEntry → Bool) → ℕ → Option ℕ → ℕ → List MixEntry → Option ℕ
pick_from test i best best_time [] = best
pick_from test i best best_time (e ∷ entries) =
    let better = test e && ltb e.fire_time best_time in
    pick_from test (i + 1) (if better then some i else best)
      (if better then e.fire_time else best_time) entries

abbrev pub pick : (MixEntry → Bool) → List MixEntry → Option ℕ
pick test entries = pick_from test 0 none uint64_max entries

-- An entry whose time has come.
abbrev pub is_due : ℕ → MixEntry → Bool
is_due now e = e.active && leb e.fire_time now

-- The first free place, from place `i` on.
pub find_unused : ℕ → List MixEntry → Option ℕ
find_unused i [] = none
find_unused i (e ∷ entries) =
    let rest = find_unused (i + 1) entries in if e.active then rest else some i

-- Whether an entry may still be sent.
abbrev pub is_live : Fds → Net → MixEntry → Bool
is_live fds net e = net.is_open e.target_conn && (fds e.target_conn == e.target_fd)

-- The cell of an entry.
abbrev pub sending_of : MixEntry → Sending
sending_of e = record {
  target = e.target_conn;
  cell = record { circuit_id = e.circuit_id; command = e.command; payload = e.payload };
}

-- An entry leaves the pool.
abbrev pub leaving : Fds → Net → MixEntry → Leaving
leaving fds net e = record { sending = sending_of e; handed = is_live fds net e }

-- The connections after an entry has left, which is sent if it still may be.
abbrev pub send_entry : Fds → Stays → MixEntry → Net → Net
send_entry fds stays e net =
    if is_live fds net e then call_send_cell stays e.target_conn net else net

-- A new cell in the place of an entry, before it has its time.
abbrev pub filled : Fds → ℕ → ℕ → ℕ → List ℕ → MixEntry → MixEntry
filled fds conn circuit_id command payload e = record e {
  payload = payload;
  circuit_id = circuit_id;
  command = command;
  target_conn = conn;
  target_fd = fds conn;
}

-- The time of a new cell: after all of its circuit.
abbrev pub fire_after : ℕ → ℕ → ℕ
fire_after desired prev = if ltb 0 prev && leb desired prev then u64 (prev + 1) else desired

-- A new cell in place `i`, at the time `clock`.
pub put_entry : Fds → ℕ → ℕ → ℕ → List ℕ → ℕ → ℕ → ℕ → List MixEntry → List MixEntry
unfolding latest_fire
put_entry fds conn circuit_id command payload clock delay i entries =
    let e = filled fds conn circuit_id command payload (get_or entries i unused_entry) in
    let prev = latest_fire conn circuit_id 0 (set entries i e) in
    set entries i (record e { fire_time = fire_after (u64 (clock + delay)) prev; active = true })

-- `moor_mix_enqueue`; `now` is the clock when a due cell is looked for, `clock` when the new one gets its
-- time, and `delay` the result of `sample_delay`. `false` stands for -1.
pub mix_enqueue :
    Fds
    → Stays
    → MixPool
    → ℕ
    → ℕ
    → ℕ
    → List ℕ
    → ℕ
    → ℕ
    → ℕ
    → Net
    → Bool × MixPool × List Leaving × Net
unfolding find_unused put_entry pick_from
mix_enqueue fds stays pool conn circuit_id command payload now clock delay net =
    if pool.lambda_ms == 0 then (false, pool, [], net) else elim (find_unused 0 pool.entries) [
      | some i ↦ (
        true,
        record pool {
          entries = put_entry fds conn circuit_id command payload clock delay i pool.entries;
          count = pool.count + 1;
        },
        [],
        net,
      )
      | none ↦ elim (pick (is_due now) pool.entries) [
        | none ↦ (false, pool, [], net)
        | some i ↦
            let victim = get_or pool.entries i unused_entry in
            (
              true,
              record pool {
                entries = put_entry fds conn circuit_id command payload clock delay i pool.entries;
              },
              leaving fds net victim ∷ [],
              send_entry fds stays victim net,
            )
      ]
    ]

-- An entry that is wiped and free.
abbrev pub wiped : MixEntry → MixEntry
wiped e = record e { payload = zeros 509; active = false }

abbrev pub release : ℕ → MixPool → MixPool
release i pool = record pool {
  entries = set pool.entries i (wiped (get_or pool.entries i unused_entry));
  count = pool.count - 1;
}

-- The loops of `moor_mix_drain` and `moor_mix_flush_circuit`: the entries that pass a test leave, the
-- earliest first. Every round frees a place.
pub send_loop : ℕ → Fds → Stays → (MixEntry → Bool) → MixPool → Net → MixPool × List Leaving × Net
unfolding pick_from
send_loop zero fds stays test pool net = (pool, [], net)
send_loop (suc fuel) fds stays test pool net = elim (pick test pool.entries) [
  | none ↦ (pool, [], net)
  | some i ↦
      let e = get_or pool.entries i unused_entry in
      let (pool', left, net') =
        send_loop fuel fds stays test (release i pool) (send_entry fds stays e net) in
      (pool', leaving fds net e ∷ left, net')
]

-- `moor_mix_drain`, which returns the number of cells handed over.
pub mix_drain : Fds → Stays → MixPool → ℕ → Net → MixPool × List Leaving × Net
unfolding send_loop
mix_drain fds stays pool now net =
    let drained = send_loop (mix_pool_size + 1) fds stays (is_due now) pool net in
    if pool.count == 0 then (pool, [], net) else drained

-- The entries that `moor_mix_flush_circuit` looks for.
abbrev pub is_flushed : Fds → ℕ → ℕ → MixEntry → Bool
is_flushed fds conn circuit_id e = of_circuit conn circuit_id e && (e.target_fd == fds conn)

-- `moor_mix_flush_circuit`
pub mix_flush_circuit : Fds → Stays → MixPool → ℕ → ℕ → Net → MixPool × List Leaving × Net
unfolding send_loop
mix_flush_circuit fds stays pool conn circuit_id net =
    send_loop (mix_pool_size + 1) fds stays (is_flushed fds conn circuit_id) pool net

-- `moor_mix_purge_conn`, from place `i` on, of `k` places.
pub purge_loop : ℕ → ℕ → ℕ → MixPool → MixPool
purge_loop zero i conn pool = pool
purge_loop (suc k) i conn pool =
    let e = get_or pool.entries i unused_entry in
    purge_loop k (i + 1) conn (if e.active && (e.target_conn == conn) then release i pool else pool)

pub mix_purge_conn : MixPool → ℕ → MixPool
unfolding purge_loop
mix_purge_conn pool conn = purge_loop mix_pool_size 0 conn pool
