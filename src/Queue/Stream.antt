-- ===== src/Queue/Stream.antt =====
-- `moor_queue_push` and `moor_queue_flush` of src/scheduler.c as a stream of bytes: what is sent is what was
-- pushed, in that order, however the writes are cut.
use moor_pq.Base.{
  ℕ, zero, suc, ◌+◌, ◌-◌, ◌≡◌, ◌<◌, ◌≤◌, ◌∙◌, refl, sym, ap, true, false, Option, none, some, List,
  [], ◌∷◌, ◌++◌, append-nil, append_assoc, length, length-drop, take, drop, take-append-drop,
  drop-drop, take_all, leb, leb→le, arith, All, inl, inr, ◌⊎◌, Bool-cases, if◌then◌else◌,
}
use mathlib.Core.Path.{subst}
use moor_pq.Queue.{
  QueuedCell, Outcome, taken, busy, failed, Flush, after_bytes, flush_loop, queue_flush,
}

-- The bytes of all cells.
pub all_bytes : List QueuedCell → List ℕ
all_bytes [] = []
all_bytes (cell ∷ cells) = cell.bytes ++ all_bytes cells

pub all_bytes_none : all_bytes [] ≡ []
unfolding all_bytes
all_bytes_none = refl

pub all_bytes_one : (cell : QueuedCell) → all_bytes (cell ∷ []) ≡ cell.bytes
unfolding all_bytes
all_bytes_one cell = append-nil cell.bytes

-- What there is still to send.
abbrev pub stream : Flush → List ℕ
stream s = drop s.write_off (all_bytes s.queue.cells)

abbrev pub FitsIn : ℕ → List QueuedCell → Type 0
FitsIn off [] = off ≡ 0
FitsIn off (cell ∷ cells) = off < length cell.bytes

abbrev pub HasBytes : QueuedCell → Type 0
HasBytes cell = 0 < length cell.bytes

-- The queue counts its cells, each has bytes, and the offset is in the first of them; the global count is
-- that of this queue and of `others`.
pub record IsFlush (others : ℕ) (s : Flush) : Type 0 where
  pub counted : s.queue.count ≡ length s.queue.cells
  pub filled : All HasBytes s.queue.cells
  pub offset : FitsIn s.write_off s.queue.cells
  pub global : s.global_queued ≡ others + length s.queue.cells

-- `moor_connection_send_raw` takes no more than it is given, and 0 bytes are not some.
abbrev pub IsSender : (ℕ → List ℕ → Outcome) → Type 0
IsSender send =
    (k : ℕ) (bytes : List ℕ) (n : ℕ) → send k bytes ≡ taken n → (0 < n) × (n ≤ length bytes)

pub outcome_of : (o : Outcome) → (o ≡ failed) ⊎ ((o ≡ busy) ⊎ ((n : ℕ) × o ≡ taken n))
outcome_of failed = inl refl
outcome_of busy = inr (inl refl)
outcome_of (taken n) = inr (inr (n, refl))

drop-append_left : (n : ℕ) (xs ys : List ℕ) → n ≤ length xs → drop n (xs ++ ys) ≡ drop n xs ++ ys
drop-append_left zero xs ys h = refl
drop-append_left (suc n) [] ys h = absurd (omega arith)
drop-append_left (suc n) (x ∷ xs) ys h = drop-append_left n xs ys (omega arith)

FitsIn-start : (cells : List QueuedCell) → All HasBytes cells → FitsIn 0 cells
FitsIn-start [] filled = refl
FitsIn-start (cell ∷ cells) filled = filled.0

-- Bytes of the first cell are sent: the stream loses them, and the state stays well-formed.
after_bytes_lem :
    (others now n : ℕ) (cell : QueuedCell) (cells : List QueuedCell) (s : Flush)
    → s.queue.cells ≡ cell ∷ cells
    → IsFlush others s
    → 0 < n
    → n ≤ length cell.bytes - s.write_off
    → IsFlush others (after_bytes now n cell cells s)
      × s.wire ++ stream s
        ≡ (after_bytes now n cell cells s).wire ++ stream (after_bytes now n cell cells s)
unfolding after_bytes all_bytes
after_bytes_lem others now n cell cells s first v some_bytes low =
    let off = s.write_off in
    let rest = all_bytes cells in
    let left = drop off cell.bytes in
    let filled : All HasBytes (cell ∷ cells) = subst (All HasBytes) first v.filled in
    let inside : off < length cell.bytes = subst (FitsIn off) first v.offset in
    let counted : s.queue.count ≡ suc (length cells) = v.counted ∙ ap length first in
    let global : s.global_queued ≡ others + suc (length cells) =
      v.global ∙ ap (λ cs. others + length cs) first in
    let parts : stream s ≡ left ++ rest =
      ap (λ cs. drop off (all_bytes cs)) first
      ∙ drop-append_left off cell.bytes rest (omega arith) in
    elim (Bool-cases (leb (length cell.bytes) (off + n))) [
      | inl whole ↦
          let enough : length cell.bytes ≤ off + n = leb→le (length cell.bytes) (off + n) whole in
          let all_left : take n left ≡ left =
            take_all n left (omega (arith, length-drop off cell.bytes)) in
          rw (whole) (
            record {
              counted = omega (arith, counted);
              filled = filled.1;
              offset = FitsIn-start cells filled.1;
              global = omega (arith, global);
            },
            ap (λ bs. s.wire ++ bs) parts
                ∙ sym (append_assoc s.wire left rest)
                ∙ ap (λ bs. (s.wire ++ bs) ++ rest) (sym all_left),
          )
      | inr part ↦
          let more : off + n < length cell.bytes = ground (arith, part) in
          let cut : left ++ rest ≡ take n left ++ (drop (off + n) cell.bytes ++ rest) =
            ap (λ bs. bs ++ rest)
              (sym (take-append-drop n left)
                ∙ ap (λ bs. take n left ++ bs) (drop-drop n off (off + n) cell.bytes refl))
            ∙ append_assoc (take n left) (drop (off + n) cell.bytes) rest in
          let after : drop (off + n) (all_bytes s.queue.cells) ≡ drop (off + n) cell.bytes ++ rest =
            ap (λ cs. drop (off + n) (all_bytes cs)) first
            ∙ drop-append_left (off + n) cell.bytes rest (omega arith) in
          rw (part) (
            record {
              counted = v.counted;
              filled = v.filled;
              offset = subst (FitsIn (off + n)) (sym first) more;
              global = v.global;
            },
            ap (λ bs. s.wire ++ bs) (parts ∙ cut ∙ ap (λ bs. take n left ++ bs) (sym after))
                ∙ sym
                    (append_assoc s.wire (take n left) (drop (off + n) (all_bytes s.queue.cells))),
          )
    ]

-- What the loop leaves: a well-formed state, with the bytes of before.
abbrev pub Flushed : ℕ → ℕ → Flush → Option ℕ × Flush → Type 0
Flushed others flushed s (status, after) =
    IsFlush others after
    × s.wire ++ stream s ≡ after.wire ++ stream after
    × ((n : ℕ) → status ≡ some n → flushed + length s.queue.cells ≡ n + length after.queue.cells)

module _ (send : ℕ → List ℕ → Outcome) (sender : IsSender send) (others now : ℕ) where
  flush_loop-failed :
      (k flushed : ℕ) (cell : QueuedCell) (cells : List QueuedCell) (s : Flush)
      → send k (drop s.write_off cell.bytes) ≡ failed
      → flush_loop send now k flushed (cell ∷ cells) s ≡ (none, s)
  unfolding flush_loop
  flush_loop-failed k flushed cell cells s e = rw (e, flush_loop) refl

  flush_loop-busy :
      (k flushed : ℕ) (cell : QueuedCell) (cells : List QueuedCell) (s : Flush)
      → send k (drop s.write_off cell.bytes) ≡ busy
      → flush_loop send now k flushed (cell ∷ cells) s ≡ (some flushed, s)
  unfolding flush_loop
  flush_loop-busy k flushed cell cells s e = rw (e, flush_loop) refl

  flush_loop-taken :
      (k flushed n : ℕ) (cell : QueuedCell) (cells : List QueuedCell) (s : Flush)
      → send k (drop s.write_off cell.bytes) ≡ taken n
      → flush_loop send now k flushed (cell ∷ cells) s ≡ (
          if leb (length cell.bytes) (s.write_off + n)
          then flush_loop send now (k + 1) (flushed + 1) cells (after_bytes now n cell cells s)
          else (some flushed, after_bytes now n cell cells s))
  unfolding flush_loop
  flush_loop-taken k flushed n cell cells s e = rw (e, flush_loop) refl

  after_bytes-whole :
      (n : ℕ) (cell : QueuedCell) (cells : List QueuedCell) (s : Flush)
      → leb (length cell.bytes) (s.write_off + n) ≡ true
      → (after_bytes now n cell cells s).queue.cells ≡ cells
  unfolding after_bytes
  after_bytes-whole n cell cells s whole = rw (whole) refl

  after_bytes-part :
      (n : ℕ) (cell : QueuedCell) (cells : List QueuedCell) (s : Flush)
      → leb (length cell.bytes) (s.write_off + n) ≡ false
      → (after_bytes now n cell cells s).queue.cells ≡ s.queue.cells
  unfolding after_bytes
  after_bytes-part n cell cells s part = rw (part) refl

  flush_loop_lem :
      (k flushed : ℕ) (cells : List QueuedCell) (s : Flush)
      → s.queue.cells ≡ cells
      → IsFlush others s
      → Flushed others flushed s (flush_loop send now k flushed cells s)
  unfolding flush_loop
  flush_loop_lem k flushed [] s first v =
      (v, refl, λ n e. (let same : flushed ≡ n = ground (arith, e) in omega arith))
  flush_loop_lem k flushed (cell ∷ cells) s first v =
      elim (outcome_of (send k (drop s.write_off cell.bytes))) [
        | inl broken ↦
            rw (flush_loop-failed k flushed cell cells s broken)
              (v, refl, λ n e. absurd (ground (arith, e)))
        | inr (inl wait) ↦
            rw (flush_loop-busy k flushed cell cells s wait)
              (v, refl, λ n e. (let same : flushed ≡ n = ground (arith, e) in omega arith))
        | inr (inr (n, took)) ↦
            let off = s.write_off in
            let s' = after_bytes now n cell cells s in
            let (some_bytes, low) = sender k (drop off cell.bytes) n took in
            let (v', kept) =
              after_bytes_lem others now n cell cells s first v some_bytes
                (omega (arith, low, length-drop off cell.bytes)) in
            let rest = flush_loop send now (k + 1) (flushed + 1) cells s' in
            let went : flush_loop send now k flushed (cell ∷ cells) s
                ≡ (if leb (length cell.bytes) (off + n) then rest else (some flushed, s')) =
              flush_loop-taken k flushed n cell cells s took in
            elim (Bool-cases (leb (length cell.bytes) (off + n))) [
              | inr part ↦
                  let same_cells : s'.queue.cells ≡ s.queue.cells =
                    after_bytes-part n cell cells s part in
                  subst (Flushed others flushed s)
                    (sym (went ∙ ap (λ b. if b then rest else (some flushed, s')) part))
                    (
                      v',
                      kept,
                      λ m e.
                          let same : flushed ≡ m = ground (arith, e) in
                          omega (arith, ap length same_cells, same),
                    )
              | inl whole ↦
                  let next : s'.queue.cells ≡ cells = after_bytes-whole n cell cells s whole in
                  let (v'', kept', few) = flush_loop_lem (k + 1) (flushed + 1) cells s' next v' in
                  subst (Flushed others flushed s)
                    (sym (went ∙ ap (λ b. if b then rest else (some flushed, s')) whole))
                    (
                      v'',
                      kept ∙ kept',
                      λ m e. omega (arith, few m e, ap length next, ap length first),
                    )
            ]
      ]

-- What `moor_queue_flush` does to a well-formed queue, whatever `moor_connection_send_raw` takes of it: the
-- bytes that went out before and those that were to be sent are those that have gone out now and those still
-- to be sent, in the same order; the queue, its count, its offset and the count of all queues stay
-- well-formed; and if it does not fail, the number that it returns is that of the cells that are gone.
pub queue_flush_lem :
    (send : ℕ → List ℕ → Outcome) (others now : ℕ) (s : Flush)
    → IsSender send
    → IsFlush others s
    → IsFlush others (queue_flush send now s).1
      × s.wire ++ stream s ≡ (queue_flush send now s).1.wire ++ stream (queue_flush send now s).1
      × ((n : ℕ)
          → (queue_flush send now s).0 ≡ some n
          → length s.queue.cells ≡ n + length (queue_flush send now s).1.queue.cells)
unfolding queue_flush
queue_flush_lem send others now s sender v =
    let (v', kept, few) = flush_loop_lem send sender others now 0 0 s.queue.cells s refl v in
    (v', kept, λ n e. omega (arith, few n e))
