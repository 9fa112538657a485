-- ===== src/Queue.antt =====
-- src/scheduler.c: the queue of frames that a connection could not send, and the queue of cells of a
-- circuit. A linked list is a list here, from `head` on; its last element is `tail`. `has_memory` says
-- whether `malloc` gave memory.
pub mod Stream
pub mod Frame
mod Tests
use moor_pq.Base.{
  ℕ, zero, suc, ◌+◌, ◌-◌, Bool, true, false, ◌||◌, not, Option, none, some, List, [], ◌∷◌, ◌++◌,
  length, take, drop, ltb, leb, ◌==◌, if◌then◌else◌,
}
use moor_pq.Cell.{Cell}

abbrev pub global_queue_hard_limit : ℕ
global_queue_hard_limit = 65536

abbrev pub cell_wire_size : ℕ
cell_wire_size = 532

-- `moor_queued_cell_t`; `len` is the length of `bytes`.
pub record QueuedCell : Type 0 where
  pub bytes : List ℕ
  pub circuit_id : ℕ

-- `moor_cell_queue_t`
pub record CellQueue : Type 0 where
  pub cells : List QueuedCell
  pub count : ℕ

-- `moor_queue_init`
pub queue_init : CellQueue
queue_init = record { cells = []; count = 0 }

-- `moor_queue_clear`, and what it leaves of `g_global_queued`.
pub queue_clear : ℕ → CellQueue → ℕ × CellQueue
queue_clear global_queued q = (global_queued - length q.cells, record { cells = []; count = 0 })

-- `moor_queue_push`; `true` stands for 0 and `false` for -1.
pub queue_push : Bool → ℕ → CellQueue → List ℕ → ℕ → ℕ → Bool × ℕ × CellQueue
queue_push has_memory global_queued q wire_data wire_len circuit_id =
    let len = if ltb cell_wire_size wire_len then cell_wire_size else wire_len in
    if leb global_queue_hard_limit global_queued || not has_memory
    then (false, global_queued, q)
    else (
      true,
      global_queued + 1,
      record {
        cells = q.cells ++ (record { bytes = take len wire_data; circuit_id = circuit_id } ∷ []);
        count = q.count + 1;
      },
    )

-- `moor_queue_pop`: the bytes of the first cell.
pub queue_pop : ℕ → CellQueue → Option (List ℕ) × ℕ × CellQueue
queue_pop global_queued q = elim q.cells [
  | [] ↦ (none, global_queued, q)
  | cell ∷ cells ↦
      (some cell.bytes, global_queued - 1, record { cells = cells; count = q.count - 1 })
]

-- What a call of `moor_connection_send_raw` does: it takes some bytes, none for now (0, or EAGAIN), or
-- fails.
pub data Outcome : Type 0 where
  taken : ℕ → Outcome
  busy : Outcome
  failed : Outcome

-- The state of a flush: `wire` are the bytes that `moor_connection_send_raw` took, and `outq_stuck_since` the
-- watchdog of the connection.
pub record Flush : Type 0 where
  pub queue : CellQueue
  pub write_off : ℕ
  pub global_queued : ℕ
  pub outq_stuck_since : ℕ
  pub wire : List ℕ

-- The state after `n` bytes of the first cell were sent; `cells` are those after it.
pub after_bytes : ℕ → ℕ → QueuedCell → List QueuedCell → Flush → Flush
after_bytes now n cell cells s =
    let off = s.write_off + n in
    let wire = s.wire ++ take n (drop s.write_off cell.bytes) in
    if leb (length cell.bytes) off
    then record {
      queue = record { cells = cells; count = s.queue.count - 1 };
      write_off = 0;
      global_queued = s.global_queued - 1;
      outq_stuck_since = elim cells [ [] ↦ 0 | next ∷ rest ↦ now ];
      wire = wire;
    }
    else record s { write_off = off; wire = wire }

-- The loop of `moor_queue_flush`, on the cells that are left; call `k` of `moor_connection_send_raw` does
-- what `send` says. `none` stands for -1, with the state that is left.
pub flush_loop : (ℕ → List ℕ → Outcome) → ℕ → ℕ → ℕ → List QueuedCell → Flush → Option ℕ × Flush
unfolding after_bytes
flush_loop send now k flushed [] s = (some flushed, s)
flush_loop send now k flushed (cell ∷ cells) s = elim (send k (drop s.write_off cell.bytes)) [
  | failed ↦ (none, s)
  | busy ↦ (some flushed, s)
  | taken n ↦
      let s' = after_bytes now n cell cells s in
      let rest = flush_loop send now (k + 1) (flushed + 1) cells s' in
      if leb (length cell.bytes) (s.write_off + n) then rest else (some flushed, s')
]

-- `moor_queue_flush`
pub queue_flush : (ℕ → List ℕ → Outcome) → ℕ → Flush → Option ℕ × Flush
unfolding flush_loop
queue_flush send now s = flush_loop send now 0 0 s.queue.cells s

-- What is left of a frame is queued, and the watchdog started.
pub queue_left : Bool → ℕ → ℕ → List ℕ → Flush → Bool × Flush
unfolding queue_push
queue_left has_memory now circuit_id bytes s =
    let (pushed, global_queued, queue) =
      queue_push has_memory s.global_queued s.queue bytes (length bytes) circuit_id in
    if pushed
    then (
      true,
      record s {
        queue = queue;
        global_queued = global_queued;
        outq_stuck_since = if s.outq_stuck_since == 0 then now else s.outq_stuck_since;
      },
    )
    else (false, s)

-- The bytes of a frame that `moor_connection_send_cell` of src/connection.c has still to send, on a connection
-- without a transport: what `send` does not take at once is queued. `false` stands for a connection that is
-- given up. Every round sends a byte or is the last.
pub send_rest : (ℕ → List ℕ → Outcome) → Bool → ℕ → ℕ → ℕ → ℕ → List ℕ → Flush → Bool × Flush
unfolding queue_left
send_rest send has_memory now circuit_id fuel k [] s = (true, s)
send_rest send has_memory now circuit_id zero k (b ∷ bytes) s = (false, s)
send_rest send has_memory now circuit_id (suc fuel) k (b ∷ bytes) s = elim (send k (b ∷ bytes)) [
  | failed ↦ (false, s)
  | busy ↦ queue_left has_memory now circuit_id (b ∷ bytes) s
  | taken n ↦
      send_rest send has_memory now circuit_id fuel (k + 1) (drop n (b ∷ bytes))
        (record s { wire = s.wire ++ take n (b ∷ bytes) })
]

-- The call of a transport's `transport_send`: the bytes that it takes of a frame, or none for a result below 0.
abbrev pub Transport : Type 0
Transport = List ℕ → Option ℕ

-- A frame, as `moor_connection_send_cell` sends it: a transport, if the connection has one, is called once, and
-- nothing is queued.
pub send_frame :
    Option Transport → (ℕ → List ℕ → Outcome) → Bool → ℕ → ℕ → List ℕ → Flush → Bool × Flush
unfolding send_rest
send_frame none send has_memory now circuit_id frame s =
    send_rest send has_memory now circuit_id (length frame) 0 frame s
send_frame (some transport) send has_memory now circuit_id frame s = elim (transport frame) [
  | none ↦ (false, s)
  | some n ↦ (true, record s { wire = s.wire ++ take n frame })
]

-- `moor_circ_cell_queue_t`
pub record CircCellQueue : Type 0 where
  pub circ_cells : List Cell
  pub circ_count : ℕ

-- `moor_circ_queue_push`
pub circ_queue_push : Bool → ℕ → CircCellQueue → Cell → Bool × ℕ × CircCellQueue
circ_queue_push has_memory global_queued q cell =
    if leb global_queue_hard_limit global_queued || not has_memory
    then (false, global_queued, q)
    else (
      true,
      global_queued + 1,
      record { circ_cells = q.circ_cells ++ (cell ∷ []); circ_count = q.circ_count + 1 },
    )

-- `moor_circ_queue_pop`
pub circ_queue_pop : ℕ → CircCellQueue → Option Cell × ℕ × CircCellQueue
circ_queue_pop global_queued q = elim q.circ_cells [
  | [] ↦ (none, global_queued, q)
  | cell ∷ cells ↦
      (some cell, global_queued - 1, record { circ_cells = cells; circ_count = q.circ_count - 1 })
]
