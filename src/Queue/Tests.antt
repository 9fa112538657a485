-- ===== src/Queue/Tests.antt =====
-- A queue of two frames, and instances of the theorems on src/scheduler.c.
use moor_pq.Base.{
  ℕ, zero, suc, ◌+◌, ◌≡◌, ◌++◌, true, none, some, refl, List, [], ◌∷◌, length, arith,
}
use moor_pq.Queue.{Transport, Outcome, taken, busy, Flush, queue_flush, send_frame}
use moor_pq.Queue.Stream.{stream, IsFlush, IsSender, queue_flush_lem}
use moor_pq.Queue.Frame.{Sent, send_frame_lem}

-- A socket that takes one byte of the first call, two of the second, and then no more.
abbrev slow : ℕ → List ℕ → Outcome
slow k [] = busy
slow zero (b ∷ bytes) = taken 1
slow (suc zero) (b ∷ []) = taken 1
slow (suc zero) (b ∷ c ∷ bytes) = taken 2
slow (suc (suc k)) (b ∷ bytes) = busy

slow-IsSender : IsSender slow
slow-IsSender k [] n e = absurd (ground (arith, e))
slow-IsSender zero (b ∷ bytes) n e =
    let one : 1 ≡ n = ground (arith, e) in (omega arith, omega arith)
slow-IsSender (suc zero) (b ∷ []) n e =
    let one : 1 ≡ n = ground (arith, e) in (omega arith, omega arith)
slow-IsSender (suc zero) (b ∷ c ∷ bytes) n e =
    let two : 2 ≡ n = ground (arith, e) in (omega arith, omega arith)
slow-IsSender (suc (suc k)) (b ∷ bytes) n e = absurd (ground (arith, e))

-- Two frames are queued, and a byte of the first has gone out.
abbrev two_frames : Flush
two_frames = record {
  queue = record {
    cells =
        record { bytes = 1 ∷ 2 ∷ []; circuit_id = 7 }
        ∷ record { bytes = 3 ∷ 4 ∷ 5 ∷ []; circuit_id = 7 }
        ∷ [];
    count = 2;
  };
  write_off = 1;
  global_queued = 6;
  outq_stuck_since = 100;
  wire = 1 ∷ [];
}

two_frames-IsFlush : IsFlush 4 two_frames
two_frames-IsFlush = record {
  counted = refl;
  filled = (omega arith, (omega arith, tt));
  offset = omega arith;
  global = refl;
}

queue_flush_lem_example :
    IsFlush 4 (queue_flush slow 105 two_frames).1
    × two_frames.wire ++ stream two_frames
      ≡ (queue_flush slow 105 two_frames).1.wire ++ stream (queue_flush slow 105 two_frames).1
    × ((n : ℕ)
        → (queue_flush slow 105 two_frames).0 ≡ some n
        → length two_frames.queue.cells
          ≡ n + length (queue_flush slow 105 two_frames).1.queue.cells)
queue_flush_lem_example = queue_flush_lem slow 4 105 two_frames slow-IsSender two_frames-IsFlush

-- Nothing is queued.
abbrev idle : Flush
idle = record {
  queue = record { cells = []; count = 0 };
  write_off = 0;
  global_queued = 4;
  outq_stuck_since = 0;
  wire = [];
}

idle-IsFlush : IsFlush 4 idle
idle-IsFlush = record { counted = refl; filled = tt; offset = refl; global = refl }

send_frame_lem_example :
    Sent 4 (1 ∷ 2 ∷ 3 ∷ 4 ∷ []) idle (send_frame none slow true 100 7 (1 ∷ 2 ∷ 3 ∷ 4 ∷ []) idle)
send_frame_lem_example =
    send_frame_lem none slow true 4 100 7 (1 ∷ 2 ∷ 3 ∷ 4 ∷ []) idle tt slow-IsSender (omega arith)
      idle-IsFlush refl

-- A transport that takes every frame.
abbrev open_transport : Transport
open_transport = λ bytes. some (length bytes)

wrapped_run :
    (send_frame (some open_transport) slow true 100 7 (1 ∷ 2 ∷ []) idle).1.wire
    ≡ idle.wire ++ (1 ∷ 2 ∷ [])
unfolding send_frame
wrapped_run = refl

-- A frame that is sent while others are queued overtakes them.
overtaken : (send_frame none slow true 100 7 (9 ∷ []) two_frames).1.wire ≡ 1 ∷ 9 ∷ []
unfolding send_frame
overtaken = refl
