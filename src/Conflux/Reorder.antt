-- ===== src/Conflux/Reorder.antt =====
-- The receiving side of src/conflux.c: cells in order are passed on, others wait in a buffer.
pub mod Ascent
pub mod Buffer
pub mod Bounds
pub mod Waiting
pub mod Handover
use moor_pq.Base.{
  ℕ, zero, suc, ◌+◌, ◌-◌, ◌*◌, ◌/◌, ◌%◌, ◌^◌, Bool, true, false, not, ◌&&◌, ◌||◌, Option, none,
  some, List, [], ◌∷◌, ◌++◌, map, length, get_or, set, take, zeros, write_at, replicate, ltb, leb,
  ◌==◌, if◌then◌else◌, u64, sub_u64,
}
use mathlib.Core.Option
use moor_pq.Sodium.{Sodium}
use moor_pq.Conflux.{
  Leg, Buffered, ConfluxSet, reorder_buf, entry_data, uint64_max, blank_reorder, same_circuit,
}
use moor_pq.Conflux.Feistel.{feistel_decrypt, feistel_encrypt}

-- A reorder entry past its time is dropped.
unfoldable pub is_expired : ℕ → ℕ → Buffered → Bool
is_expired timeout now e = e.valid && ltb timeout (sub_u64 now e.buffered_at)

unfoldable pub expire_entry : ℕ → ℕ → Buffered → Buffered
unfolding is_expired
expire_entry timeout now e = if is_expired timeout now e then record e { valid = false } else e

unfoldable pub expired_any : ℕ → ℕ → List Buffered → Bool
unfolding is_expired
expired_any timeout now [] = false
expired_any timeout now (e ∷ es) = is_expired timeout now e || expired_any timeout now es

-- Whether a valid entry has the number `seq`.
unfoldable pub is_buffered : ℕ → List Buffered → Bool
is_buffered seq [] = false
is_buffered seq (e ∷ es) = e.valid && e.seq == seq || is_buffered seq es

-- The least number of a valid entry, if below `least`.
pub min_seq : ℕ → List Buffered → ℕ
min_seq least [] = least
min_seq least (e ∷ es) = if e.valid && ltb e.seq least then min_seq e.seq es else min_seq least es

-- `next_recv_seq` after an expiry: past a gap that nobody will fill.
unfoldable pub skip_lost : ℕ → List Buffered → ℕ
unfolding is_buffered min_seq
skip_lost next reorder =
    if is_buffered next reorder
    then next
    else let least = min_seq uint64_max reorder in
      if not (least == uint64_max) && ltb next least then least else next

-- The first part of `moor_conflux_receive`.
unfoldable pub expire_reorder : ConfluxSet → ℕ → ConfluxSet
unfolding expire_entry expired_any skip_lost
expire_reorder cset now =
    let timeout = if ltb 0 cset.reorder_timeout_ms then cset.reorder_timeout_ms else 10000 in
    let reorder' = map (expire_entry timeout now) cset.reorder in
    record cset {
      reorder = reorder';
      next_recv_seq =
          if expired_any timeout now cset.reorder
          then skip_lost cset.next_recv_seq reorder'
          else cset.next_recv_seq;
    }

unfoldable pub leg_found : ℕ → List Leg → Bool
leg_found circuit [] = false
leg_found circuit (l ∷ legs) = same_circuit l.circuit circuit && l.active || leg_found circuit legs

unfoldable pub find_invalid : List Buffered → Option ℕ
find_invalid [] = none
find_invalid (e ∷ es) = if e.valid then Option.map suc (find_invalid es) else some 0

-- What `moor_conflux_receive` returns: -1, 0 or 1.
pub data Arrival : Type 0 where
  refused buffered available : Arrival

-- The last loop of `moor_conflux_receive`, for a free entry.
unfoldable pub buffer_entry : ConfluxSet → ℕ → ℕ → List ℕ → ℕ → ℕ → Arrival × ConfluxSet
unfolding find_invalid
buffer_entry cset seq stream_id bytes data_len later = elim (find_invalid cset.reorder) [
  | none ↦ (refused, cset)
  | some i ↦
      let e : Buffered = record (get_or cset.reorder i blank_reorder) {
        seq = seq;
        stream_id = stream_id;
      } in
      if ltb entry_data data_len
      then (refused, record cset { reorder = set cset.reorder i e })
      else (
        buffered,
        record cset {
          reorder = set cset.reorder i (record e {
            bytes = write_at 0 (take data_len bytes) e.bytes;
            data_len = data_len;
            valid = true;
            buffered_at = later;
          });
        },
      )
]

-- `moor_conflux_receive` once the leg is known: in order, a duplicate, too far ahead, or to be kept.
unfoldable pub accept_seq : ConfluxSet → ℕ → ℕ → List ℕ → ℕ → ℕ → Arrival × ConfluxSet
accept_seq cset seq stream_id bytes data_len later =
    if seq == cset.next_recv_seq
    then if cset.next_recv_seq == uint64_max
      then (refused, cset)
      else (available, record cset { next_recv_seq = cset.next_recv_seq + 1 })
    else if ltb seq cset.next_recv_seq
    then (refused, cset)
    else if leb reorder_buf (seq - cset.next_recv_seq)
    then (refused, cset)
    else if is_buffered seq cset.reorder
    then (refused, cset)
    else buffer_entry cset seq stream_id bytes data_len later

abbrev pub from_leg : Option ℕ → List Leg → Bool
from_leg none legs = true
from_leg (some circuit) legs = leg_found circuit legs

-- What `moor_conflux_deliver` returns: 0, -1, or 1 with `*stream_id_out`, `data_out` and `*len_out`.
pub data Delivery : Type 0 where
  nothing exhausted : Delivery
  delivered : ℕ → List ℕ → ℕ → Delivery

pub find_seq : ℕ → List Buffered → Option ℕ
find_seq seq [] = none
find_seq seq (e ∷ es) = if e.valid && e.seq == seq then some 0 else Option.map suc (find_seq seq es)

-- `moor_conflux_deliver`; `room` is `*len_out` at the call.
pub conflux_deliver : ConfluxSet → ℕ → Delivery × ConfluxSet
conflux_deliver cset room = elim (find_seq cset.next_recv_seq cset.reorder) [
  | none ↦ (nothing, cset)
  | some i ↦
      let e = get_or cset.reorder i blank_reorder in
      let freed = set cset.reorder i (record e { valid = false }) in
      if ltb room e.data_len
      then (nothing, cset)
      else if cset.next_recv_seq == uint64_max
      then (exhausted, record cset { reorder = freed })
      else (
        delivered e.stream_id (take e.data_len e.bytes) e.data_len,
        record cset { reorder = freed; next_recv_seq = cset.next_recv_seq + 1 },
      )
]

module _ (na : Sodium) where
  -- `moor_conflux_receive`; `now` and `later` are what its two calls of `moor_time_ms` return.
  pub conflux_receive : ConfluxSet → Option ℕ → ℕ → ℕ → List ℕ → ℕ → ℕ → ℕ → Arrival × ConfluxSet
  conflux_receive cset from_circuit enc_seq stream_id bytes data_len now later =
      let seq = feistel_decrypt na cset.seq_key enc_seq in
      let cset' = expire_reorder cset now in
      if not (from_leg from_circuit cset'.legs)
      then (refused, cset')
      else accept_seq cset' seq stream_id bytes data_len later

  -- `moor_conflux_encrypt_seq`
  unfoldable pub conflux_encrypt_seq : ConfluxSet → ℕ → ℕ
  conflux_encrypt_seq cset seq = feistel_encrypt na cset.seq_key seq
