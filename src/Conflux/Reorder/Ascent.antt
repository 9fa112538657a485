-- ===== src/Conflux/Reorder/Ascent.antt =====
-- The sequence numbers that a conflux set passes on only ever ascend.
use moor_pq.Base.{ℕ, suc, ◌+◌, ◌≤◌, ◌≡◌, Option, List, [], ◌∷◌, ◌++◌, arith, Option-cases}
use moor_pq.Sodium.{Sodium}
use moor_pq.Conflux.{ConfluxSet}
use moor_pq.Conflux.Feistel.{feistel_decrypt}
use moor_pq.Conflux.Reorder.{
  buffer_entry, accept_seq, conflux_receive, conflux_deliver, find_seq, find_invalid, Arrival,
  refused, buffered, available, Delivery, nothing, exhausted, delivered,
}

-- Where a call that passes a number on, or does not, leaves the next number.
abbrev Advances : ConfluxSet → ℕ → Arrival × ConfluxSet → Type 0
Advances cset seq r =
    (cset.next_recv_seq ≤ r.1.next_recv_seq)
    × (r.0 ≡ available → (cset.next_recv_seq ≤ seq) × (r.1.next_recv_seq ≡ seq + 1))

buffer_entry-Advances :
    (cset : ConfluxSet) (seq stream_id : ℕ) (bytes : List ℕ) (len later : ℕ)
    → Advances cset seq (buffer_entry cset seq stream_id bytes len later)
unfolding buffer_entry
buffer_entry-Advances cset seq stream_id bytes len later =
    ground (arith, Option-cases (find_invalid cset.reorder))

pub accept_seq-Advances :
    (cset : ConfluxSet) (seq stream_id : ℕ) (bytes : List ℕ) (len later : ℕ)
    → Advances cset seq (accept_seq cset seq stream_id bytes len later)
unfolding accept_seq
accept_seq-Advances cset seq stream_id bytes len later =
    ground (arith, buffer_entry-Advances cset seq stream_id bytes len later)

pub deliver_lem :
    (cset : ConfluxSet) (room : ℕ)
    → let r = conflux_deliver cset room in
      (cset.next_recv_seq ≤ r.1.next_recv_seq)
      × (r.1.seq_key ≡ cset.seq_key)
      × ((stream_id : ℕ) (bytes : List ℕ) (len : ℕ)
          → r.0 ≡ delivered stream_id bytes len
          → r.1.next_recv_seq ≡ cset.next_recv_seq + 1)
unfolding conflux_deliver
deliver_lem cset room = ground (arith, Option-cases (find_seq cset.next_recv_seq cset.reorder))

-- Numbers that ascend from `low` on.
abbrev pub Ascends : ℕ → List ℕ → Type 0
Ascends low [] = Unit {0}
Ascends low (x ∷ xs) = (low ≤ x) × Ascends (suc x) xs

-- What happens to a receiver: a cell comes in, or the caller asks for the next that waits.
pub data Event : Type 0 where
  arrives :
      (from_circuit : Option ℕ) (enc_seq stream_id : ℕ) (bytes : List ℕ) (len now later : ℕ) → Event
  asks : (room : ℕ) → Event

-- The number of a cell that is passed on at once, and of one that is handed out of the buffer.
abbrev pub heard : Arrival → ℕ → List ℕ
heard available n = n ∷ []
heard refused n = []
heard buffered n = []

abbrev pub handed : Delivery → ℕ → List ℕ
handed (delivered stream_id bytes len) n = n ∷ []
handed nothing n = []
handed exhausted n = []

module _ (na : Sodium) where
  passed_on : ConfluxSet → Event → List ℕ × ConfluxSet
  passed_on cset (arrives from enc_seq stream_id bytes len now later) =
      let (a, cset') = conflux_receive na cset from enc_seq stream_id bytes len now later in
      (heard a (feistel_decrypt na cset.seq_key enc_seq), cset')
  passed_on cset (asks room) =
      let (d, cset') = conflux_deliver cset room in (handed d cset.next_recv_seq, cset')

  -- The sequence numbers whose data is passed on in a run.
  pub numbers : ConfluxSet → List Event → List ℕ
  unfolding passed_on
  numbers cset [] = []
  numbers cset (e ∷ es) = let (out, cset') = passed_on cset e in out ++ numbers cset' es
