-- ===== src/Queue/Frame.antt =====
-- How `moor_connection_send_cell` of src/connection.c sends a frame, and queues what is left of it.
use mathlib.Core.Path.{subst}
use moor_pq.Base.{
  ℕ, zero, suc, ◌+◌, ◌≡◌, ◌<◌, ◌≤◌, ◌∙◌, refl, sym, ap, ap₂, append-nil, Option, none, some,
  Option-cases, Bool, true, false, ◌||◌, not, List, [], ◌∷◌, ◌++◌, append_assoc, length,
  length-drop, take, drop, take-append-drop, take_all, ltb, leb, ◌==◌, arith, inl, inr, Bool-cases,
  if◌then◌else◌,
}
use moor_pq.Queue.{
  Transport, QueuedCell, Outcome, taken, busy, failed, Flush, queue_push, queue_left, send_rest,
  send_frame,
}
use moor_pq.Queue.Stream.{
  all_bytes, all_bytes_none, all_bytes_one, stream, IsFlush, IsSender, FitsIn, outcome_of,
}

-- A frame that was sent: its bytes went out, or are to be sent.
abbrev pub Sent : ℕ → List ℕ → Flush → Bool × Flush → Type 0
Sent others bytes s (ok, after) =
    ok ≡ true → IsFlush others after × after.wire ++ stream after ≡ s.wire ++ bytes

-- Nothing is left of a frame.
empty_stream : (others : ℕ) (s : Flush) → IsFlush others s → s.queue.cells ≡ [] → stream s ≡ []
empty_stream others s v nothing =
    let start : s.write_off ≡ 0 = subst (FitsIn s.write_off) nothing v.offset in
    ap (λ cs. drop s.write_off (all_bytes cs)) nothing
    ∙ ap (λ n. drop n (all_bytes [])) start
    ∙ all_bytes_none

-- What is left of a frame goes into the empty queue.
only_cell : ℕ → ℕ → List ℕ → Flush → Flush
only_cell now circuit_id bytes s = record s {
  queue = record {
    cells = record { bytes = bytes; circuit_id = circuit_id } ∷ [];
    count = s.queue.count + 1;
  };
  global_queued = s.global_queued + 1;
  outq_stuck_since = if s.outq_stuck_since == 0 then now else s.outq_stuck_since;
}

queue_left-only_cell :
    (has_memory : Bool) (now circuit_id : ℕ) (bytes : List ℕ) (s : Flush)
    → length bytes ≤ 532
    → s.queue.cells ≡ []
    → (leb 65536 s.global_queued || not has_memory) ≡ false
    → queue_left has_memory now circuit_id bytes s ≡ (true, only_cell now circuit_id bytes s)
unfolding queue_left queue_push only_cell
queue_left-only_cell has_memory now circuit_id bytes s few nothing room =
    let fits : ltb 532 (length bytes) ≡ false = ground arith in
    rw (room, fits, nothing, take_all (length bytes) bytes (omega arith)) refl

only_cell_lem :
    (others now circuit_id : ℕ) (bytes : List ℕ) (s : Flush)
    → 0 < length bytes
    → IsFlush others s
    → s.queue.cells ≡ []
    → IsFlush others (only_cell now circuit_id bytes s)
      × (only_cell now circuit_id bytes s).wire ++ stream (only_cell now circuit_id bytes s)
        ≡ s.wire ++ bytes
unfolding only_cell
only_cell_lem others now circuit_id bytes s some_bytes v nothing =
    let start : s.write_off ≡ 0 = subst (FitsIn s.write_off) nothing v.offset in
    let empty : length s.queue.cells ≡ 0 = ap length nothing in
    let cell : QueuedCell = record { bytes = bytes; circuit_id = circuit_id } in
    (
      record {
        counted = omega (arith, v.counted, empty);
        filled = (some_bytes, tt);
        offset = omega (arith, start, some_bytes);
        global = omega (arith, v.global, empty);
      },
      ap (λ n. s.wire ++ drop n (all_bytes (cell ∷ []))) start
          ∙ ap (λ bs. s.wire ++ bs) (all_bytes_one cell),
    )

queue_left-refused :
    (has_memory : Bool) (now circuit_id : ℕ) (bytes : List ℕ) (s : Flush)
    → (leb 65536 s.global_queued || not has_memory) ≡ true
    → queue_left has_memory now circuit_id bytes s ≡ (false, s)
unfolding queue_left queue_push
queue_left-refused has_memory now circuit_id bytes s full = rw (full) refl

queue_left_lem :
    (has_memory : Bool) (others now circuit_id : ℕ) (bytes : List ℕ) (s : Flush)
    → 0 < length bytes
    → length bytes ≤ 532
    → IsFlush others s
    → s.queue.cells ≡ []
    → Sent others bytes s (queue_left has_memory now circuit_id bytes s)
queue_left_lem has_memory others now circuit_id bytes s some_bytes few v nothing =
    elim (Bool-cases (leb 65536 s.global_queued || not has_memory)) [
      | inl full ↦
          subst (Sent others bytes s)
            (sym (queue_left-refused has_memory now circuit_id bytes s full))
            (λ ok. absurd (ground (arith, ok)))
      | inr room ↦
          subst (Sent others bytes s)
            (sym (queue_left-only_cell has_memory now circuit_id bytes s few nothing room))
            (λ ok. only_cell_lem others now circuit_id bytes s some_bytes v nothing)
    ]

module _ (send : ℕ → List ℕ → Outcome) (sender : IsSender send) (has_memory : Bool)
    (others now circuit_id : ℕ) where
  send_rest-failed :
      (fuel k b : ℕ) (bytes : List ℕ) (s : Flush)
      → send k (b ∷ bytes) ≡ failed
      → send_rest send has_memory now circuit_id (suc fuel) k (b ∷ bytes) s ≡ (false, s)
  unfolding send_rest
  send_rest-failed fuel k b bytes s e = rw (e, send_rest) refl

  send_rest-busy :
      (fuel k b : ℕ) (bytes : List ℕ) (s : Flush)
      → send k (b ∷ bytes) ≡ busy
      → send_rest send has_memory now circuit_id (suc fuel) k (b ∷ bytes) s
        ≡ queue_left has_memory now circuit_id (b ∷ bytes) s
  unfolding send_rest
  send_rest-busy fuel k b bytes s e = rw (e, send_rest) refl

  send_rest-taken :
      (fuel k b n : ℕ) (bytes : List ℕ) (s : Flush)
      → send k (b ∷ bytes) ≡ taken n
      → send_rest send has_memory now circuit_id (suc fuel) k (b ∷ bytes) s
        ≡ send_rest send has_memory now circuit_id fuel
            (k + 1)
            (drop n (b ∷ bytes))
            (record s { wire = s.wire ++ take n (b ∷ bytes) })
  unfolding send_rest
  send_rest-taken fuel k b n bytes s e = rw (e, send_rest) refl

  send_rest_lem :
      (fuel k : ℕ) (bytes : List ℕ) (s : Flush)
      → length bytes ≤ fuel
      → length bytes ≤ 532
      → IsFlush others s
      → s.queue.cells ≡ []
      → Sent others bytes s (send_rest send has_memory now circuit_id fuel k bytes s)
  unfolding send_rest
  send_rest_lem fuel k [] s enough few v nothing =
      λ ok. (v, ap (λ bs. s.wire ++ bs) (empty_stream others s v nothing))
  send_rest_lem zero k (b ∷ bytes) s enough few v nothing = absurd (omega arith)
  send_rest_lem (suc fuel) k (b ∷ bytes) s enough few v nothing =
      elim (outcome_of (send k (b ∷ bytes))) [
        | inl broken ↦
            subst (Sent others (b ∷ bytes) s) (sym (send_rest-failed fuel k b bytes s broken))
              (λ ok. absurd (ground (arith, ok)))
        | inr (inl wait) ↦
            subst (Sent others (b ∷ bytes) s) (sym (send_rest-busy fuel k b bytes s wait)) (
              queue_left_lem has_memory others now circuit_id (b ∷ bytes) s (omega arith) few v
                nothing)
        | inr (inr (n, took)) ↦
            let (some_bytes, low) = sender k (b ∷ bytes) n took in
            let s' : Flush = record s { wire = s.wire ++ take n (b ∷ bytes) } in
            let next =
              send_rest_lem fuel (k + 1) (drop n (b ∷ bytes)) s'
                (omega (arith, length-drop n (b ∷ bytes), some_bytes))
                (omega (arith, length-drop n (b ∷ bytes)))
                (record {
                  counted = v.counted;
                  filled = v.filled;
                  offset = v.offset;
                  global = v.global;
                })
                nothing in
            subst (Sent others (b ∷ bytes) s) (sym (send_rest-taken fuel k b n bytes s took)) (λ ok.
              (
                (next ok).0,
                (next ok).1
                    ∙ append_assoc s.wire (take n (b ∷ bytes)) (drop n (b ∷ bytes))
                    ∙ ap (λ bs. s.wire ++ bs) (take-append-drop n (b ∷ bytes)),
              ))
      ]

-- A transport that does not fail takes the whole frame.
abbrev pub TakesWhole : Option Transport → Type 0
TakesWhole none = Unit {0}
TakesWhole (some transport) = (bytes : List ℕ) (n : ℕ) → transport bytes ≡ some n → n ≡ length bytes

module _ (transport : Transport) (send : ℕ → List ℕ → Outcome) (has_memory : Bool)
    (now circuit_id : ℕ) (frame : List ℕ) (s : Flush) where
  wrapped_failed :
      transport frame ≡ none
      → send_frame (some transport) send has_memory now circuit_id frame s ≡ (false, s)
  unfolding send_frame
  wrapped_failed e = rw (e, send_frame) refl

  wrapped_whole :
      transport frame ≡ some (length frame)
      → send_frame (some transport) send has_memory now circuit_id frame s
        ≡ (true, record s { wire = s.wire ++ take (length frame) frame })
  unfolding send_frame
  wrapped_whole e = rw (e, send_frame) refl

transport_sent :
    (others : ℕ) (frame : List ℕ) (s : Flush)
    → IsFlush others s
    → s.queue.cells ≡ []
    → Sent others frame s (true, record s { wire = s.wire ++ take (length frame) frame })
transport_sent others frame s v nothing ok = (
  record { counted = v.counted; filled = v.filled; offset = v.offset; global = v.global },
  ap₂ (λ bs left. (s.wire ++ bs) ++ left) (take_all (length frame) frame (omega arith))
        (empty_stream others s v nothing)
      ∙ append-nil (s.wire ++ frame),
)

-- A frame of at most 532 bytes that `moor_connection_send_cell` sends while nothing is queued, on a connection
-- without a transport or with one that takes a frame whole when it does not fail: unless the connection is
-- given up, what had gone out and then the frame is what has gone out now and then what is queued, in this
-- order, and the queue is well-formed.
pub send_frame_lem :
    (wrapped : Option Transport) (send : ℕ → List ℕ → Outcome) (has_memory : Bool)
    (others now circuit_id : ℕ) (frame : List ℕ) (s : Flush)
    → TakesWhole wrapped
    → IsSender send
    → length frame ≤ 532
    → IsFlush others s
    → s.queue.cells ≡ []
    → Sent others frame s (send_frame wrapped send has_memory now circuit_id frame s)
unfolding send_frame
send_frame_lem none send has_memory others now circuit_id frame s takes sender few v nothing =
    send_rest_lem send sender has_memory others now circuit_id (length frame) 0 frame s
      (omega arith) few v nothing
send_frame_lem (some transport) send has_memory others now circuit_id frame s takes sender few v
      nothing =
    elim (Option-cases (transport frame)) [
      | inl refuses ↦
          subst (Sent others frame s)
            (sym (wrapped_failed transport send has_memory now circuit_id frame s refuses))
            (λ ok. absurd (ground (arith, ok)))
      | inr (n, took) ↦
          subst (Sent others frame s)
            (sym (
              wrapped_whole transport send has_memory now circuit_id frame s
                (took ∙ ap some (takes frame n took))))
            (transport_sent others frame s v nothing)
    ]
