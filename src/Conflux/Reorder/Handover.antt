-- ===== src/Conflux/Reorder/Handover.antt =====
-- A cell that was buffered is handed out whole.
use moor_pq.Base.{
  ◌^◌, ◌∙◌, ap, ℕ, ◌+◌, ◌≤◌, ◌<◌, ◌≡◌, refl, true, false, Option, some, List, length, length-take,
  get_or, set, take, take-append, write_at, write_at-zero, drop, arith,
}
use moor_pq.Sodium.{Sodium}
use moor_pq.Conflux.{Buffered, ConfluxSet, reorder_buf, entry_data, uint64_max, blank_reorder}
use moor_pq.Conflux.Feistel.{feistel_decrypt, feistel_encrypt}
use moor_pq.Conflux.Feistel.Roundtrip.{feistel_permutation}
use moor_pq.Conflux.Reorder.{
  find_seq, is_buffered, expire_reorder, buffer_entry, accept_seq, from_leg, conflux_receive,
  conflux_encrypt_seq, conflux_deliver, find_invalid, buffered, delivered,
}
use moor_pq.Conflux.Reorder.Buffer.{find_invalid_bound, kept, buffer_entry_room}
use moor_pq.Conflux.Reorder.Ascent.{Event}
use moor_pq.Conflux.Reorder.Waiting.{
  look, look-open, look-find_seq, NoneLost, set_after, set_after-Waits,
}
use moor_pq.Conflux.Reorder.Bounds.{deliver_more}

receive_known :
    (na : Sodium) (cset : ConfluxSet) (from : Option ℕ) (enc_seq stream_id : ℕ) (bytes : List ℕ)
    (len now later : ℕ)
    → from_leg from (expire_reorder cset now).legs ≡ true
    → conflux_receive na cset from enc_seq stream_id bytes len now later
      ≡ accept_seq
          (expire_reorder cset now)
          (feistel_decrypt na cset.seq_key enc_seq)
          stream_id
          bytes
          len
          later
unfolding conflux_receive
receive_known na cset from enc_seq stream_id bytes len now later known = ground arith

-- A cell that a sender numbered is taken by its number.
pub receive_numbered :
    (na : Sodium) (cset : ConfluxSet) (from : Option ℕ) (seq stream_id : ℕ) (bytes : List ℕ)
    (len now later : ℕ)
    → from_leg from (expire_reorder cset now).legs ≡ true
    → seq < 2 ^ 64
    → conflux_receive na cset from (conflux_encrypt_seq na cset seq) stream_id bytes len now later
      ≡ accept_seq (expire_reorder cset now) seq stream_id bytes len later
unfolding conflux_encrypt_seq
receive_numbered na cset from seq stream_id bytes len now later known small =
    receive_known na cset from (feistel_encrypt na cset.seq_key seq) stream_id bytes len now later
      known
    ∙ ap (λ n. accept_seq (expire_reorder cset now) n stream_id bytes len later)
        (feistel_permutation na cset.seq_key seq small).0

accept_early :
    (cset : ConfluxSet) (seq stream_id : ℕ) (bytes : List ℕ) (len later : ℕ)
    → cset.next_recv_seq < seq
    → seq < cset.next_recv_seq + reorder_buf
    → is_buffered seq cset.reorder ≡ false
    → accept_seq cset seq stream_id bytes len later
      ≡ buffer_entry cset seq stream_id bytes len later
unfolding accept_seq
accept_early cset seq stream_id bytes len later ahead near fresh = ground arith

-- The first `len` bytes of an array into which they were copied.
copied :
    (len : ℕ) (bytes old : List ℕ)
    → len ≤ length bytes
    → take len (write_at 0 (take len bytes) old) ≡ take len bytes
copied len bytes old h = rw (write_at-zero (take len bytes) old) (
    take-append len (take len bytes) (drop (length (take len bytes)) old)
      (omega (arith, length-take len bytes)))

-- A buffered cell that is still there is handed out when the set waits for its number.
deliver-waiting :
    (cset : ConfluxSet) (e : Buffered) (seq room : ℕ)
    → cset.next_recv_seq ≡ seq
    → seq < uint64_max
    → look seq cset.reorder ≡ some e
    → e.data_len ≤ room
    → (conflux_deliver cset room).0 ≡ delivered e.stream_id (take e.data_len e.bytes) e.data_len
deliver-waiting cset e seq room turn small there enough =
    let (i, found, here) = look-find_seq seq cset.reorder e there in
    ap (λ r. r.0)
      (deliver_more cset room i (ap (λ n. find_seq n cset.reorder) turn ∙ found) (rw here enough)
        (λ last. absurd (omega arith)))
    ∙ ap (λ x. delivered x.stream_id (take x.data_len x.bytes) x.data_len) here

-- A cell that a sender numbered `seq` and that comes in early is buffered, where it comes from a leg of the
-- set, is less than 32 numbers ahead and not there already, has a number below the last and at most 490
-- bytes, and an entry is free. Whatever comes in after it and is handed out, while no entry of the buffer
-- runs out: when the set then waits for `seq`, a delivery hands the cell out with its stream and its data, if
-- the caller has room.
pub deliver-receive :
    (na : Sodium) (cset : ConfluxSet) (from : Option ℕ) (seq stream_id : ℕ) (bytes : List ℕ)
    (len now later room i : ℕ) (events : List Event)
    → let cset' = expire_reorder cset now in
      let received =
        conflux_receive na cset from
          (conflux_encrypt_seq na cset seq)
          stream_id
          bytes
          len
          now
          later in
      from_leg from cset'.legs ≡ true
      → cset'.next_recv_seq < seq
      → seq < cset'.next_recv_seq + reorder_buf
      → seq < uint64_max
      → is_buffered seq cset'.reorder ≡ false
      → find_invalid cset'.reorder ≡ some i
      → len ≤ length bytes
      → len ≤ entry_data
      → len ≤ room
      → NoneLost na received.1 events
      → (set_after na received.1 events).next_recv_seq ≡ seq
      → (received.0 ≡ buffered)
        × ((conflux_deliver (set_after na received.1 events) room).0
            ≡ delivered stream_id (take len bytes) len)
deliver-receive na cset from seq stream_id bytes len now later room i events known ahead near small
      fresh free whole fits enough none_lost turn =
    let c = expire_reorder cset now in
    let e = kept c i seq stream_id bytes len later in
    let r =
      conflux_receive na cset from (conflux_encrypt_seq na cset seq) stream_id bytes len now
        later in
    let called : r ≡ (buffered, record c { reorder = set c.reorder i e }) =
      receive_numbered na cset from seq stream_id bytes len now later known (omega arith)
      ∙ accept_early c seq stream_id bytes len later ahead near fresh
      ∙ buffer_entry_room c seq stream_id bytes len later i free fits in
    let there : look seq r.1.reorder ≡ some e =
      ap (λ x. look seq x.1.reorder) called
      ∙ look-open seq c.reorder i e fresh (find_invalid_bound c.reorder i free) refl refl in
    let last = set_after na r.1 events in
    let still =
      set_after-Waits seq e small na r.1 events none_lost (λ low. there) (omega (arith, turn)) in
    (
      ap (λ x. x.0) called,
      deliver-waiting last e seq room turn small still enough
          ∙ ap (λ bs. delivered stream_id bs len)
              (copied len bytes (get_or c.reorder i blank_reorder).bytes whole),
    )
