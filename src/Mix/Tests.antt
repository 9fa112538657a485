-- ===== src/Mix/Tests.antt =====
-- A pool of two circuits, and instances of the theorems on src/mix.c.
use moor_pq.Base.{ℕ, ◌≡◌, ◌<◌, ◌++◌, ◌==◌, true, false, List, [], ◌∷◌, All, arith, zeros}
use moor_pq.Mix.{Fds, Stays, Net, MixPool, mix_init, mix_enqueue, mix_drain, mix_pool_size, is_due}
use moor_pq.Mix.Scans.{at_slot}
use moor_pq.Mix.Queue.{Queued}
use moor_pq.Mix.Pool.{IsPool}
use moor_pq.Mix.Pending.{gone, pending, sent_of}
use moor_pq.Mix.Enqueue.{mix_enqueue-IsPool}
use moor_pq.Mix.Handed.{WasHanded}
use moor_pq.Mix.Drain.{mix_drain-none_due}
use moor_pq.Mix.Fifo.{mix_fifo}
use moor_pq.Mix.Run.{Op, enqueue, drain, flush, give_up, run, all_accepted, mix_init-IsPool}

-- The descriptor of a connection is its number.
abbrev some_fds : Fds
some_fds = λ c. c

-- Every connection is open, and nothing was sent.
abbrev all_open : Net
all_open = record { is_open = λ c. true; calls = 0 }

-- The first cell goes out; the second send fails.
abbrev one_good : Stays
one_good = λ n. n == 0

abbrev cell_a : List ℕ
cell_a = 1 ∷ zeros 508

abbrev cell_b : List ℕ
cell_b = 2 ∷ zeros 508

-- Two cells of circuit 7 on connection 3, the second with the shorter delay, and one of circuit 8.
abbrev some_ops : List Op
some_ops =
    enqueue 3 7 3 cell_a 1000 1000 90
    ∷ enqueue 3 7 3 cell_b 1001 1001 5
    ∷ enqueue 3 8 3 cell_b 1002 1002 0
    ∷ drain 1050
    ∷ flush 3 7
    ∷ give_up 3
    ∷ []

mix_fifo_example :
    let (after, left, net') = run some_fds one_good some_ops (mix_init 20) all_open in
    ((rest : List ℕ) × Queued 3 7 after.entries rest
      × sent_of 3 7 (all_accepted some_fds one_good some_ops (mix_init 20) all_open)
        ≡ sent_of 3 7 (gone left) ++ pending after.entries rest)
    × All (WasHanded net') left
mix_fifo_example =
    mix_fifo some_fds one_good all_open 3 7 20 2000 some_ops
      (
        (omega arith, omega arith),
        ((omega arith, omega arith), ((omega arith, omega arith), (tt, (tt, (tt, tt))))),
      )
      (omega arith)

-- The pool after one cell was put in.
abbrev one_cell : MixPool
one_cell = (mix_enqueue some_fds one_good (mix_init 20) 3 7 3 cell_a 1000 1000 90 all_open).1

one_cell-IsPool : IsPool 2001 one_cell
one_cell-IsPool =
    mix_enqueue-IsPool some_fds one_good all_open 3 7 3 cell_a 1000 1000 90 2000 (omega arith)
      (omega arith) (omega arith) (mix_init 20) (mix_init-IsPool 2000 20)

mix_enqueue-IsPool_example :
    IsPool 2002 (mix_enqueue some_fds one_good one_cell 3 8 3 cell_b 1010 1010 0 all_open).1
mix_enqueue-IsPool_example =
    mix_enqueue-IsPool some_fds one_good all_open 3 8 3 cell_b 1010 1010 0 2001 (omega arith)
      (omega arith) (omega arith) one_cell one_cell-IsPool

mix_drain-none_due_example :
    IsPool 2001 (mix_drain some_fds one_good one_cell 1200 all_open).0
    × ((j : ℕ)
        → j < mix_pool_size
        → is_due 1200 (at_slot (mix_drain some_fds one_good one_cell 1200 all_open).0.entries j)
          ≡ false)
mix_drain-none_due_example =
    mix_drain-none_due some_fds one_good all_open 2001 1200 one_cell one_cell-IsPool (omega arith)
