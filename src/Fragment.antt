-- ===== src/Fragment.antt =====
-- src/fragment.c and include/moor/fragment.h: a payload larger than a cell travels as a sequence of
-- RELAY_FRAGMENT cells, and is put together again in one of eight slots of a circuit.
pub mod Send
pub mod Slots
pub mod Tracking
pub mod Invariant
pub mod Carried
pub mod Roundtrip
mod Tests
use moor_pq.Base.{
  ℕ, zero, suc, ◌+◌, ◌-◌, ◌≡◌, Bool, true, false, not, ◌&&◌, ◌||◌, Option, none, some, List, [],
  ◌∷◌, ◌++◌, map, length, get_or, set, take, drop, replicate, zeros, write_at, ltb, ◌==◌,
  if◌then◌else◌, u8, u16, sub_u64, ◌>>>◌, put16, be16,
}
use mathlib.Core.Option
use moor_pq.Cell.{relay_data}

abbrev pub fragment_header : ℕ
fragment_header = 7

abbrev pub fragment_data : ℕ
fragment_data = 491

abbrev pub max_reassembly : ℕ
max_reassembly = 4096

abbrev pub max_pending : ℕ
max_pending = 8

abbrev pub fragment_timeout_ms : ℕ
fragment_timeout_ms = 30000

-- RELAY_FRAGMENT and RELAY_FRAGMENT_END of `moor_relay_cmd_t`.
abbrev pub relay_fragment : ℕ
relay_fragment = 40

abbrev pub relay_fragment_end : ℕ
relay_fragment_end = 41

-- `moor_fragment_gen_id`; the argument is what `moor_crypto_random` draws.
pub fragment_gen_id : ℕ → ℕ
fragment_gen_id random = if random == 0 then 1 else random

-- The arguments of one call of `send_cb`: `bytes` are the `len` bytes at its `data`.
pub record Call : Type 0 where
  pub circuit_id : ℕ
  pub relay_cmd : ℕ
  pub stream_id : ℕ
  pub bytes : List ℕ
  pub len : ℕ

-- A callback takes its context and returns the new one; `true` stands for the return value 0.
abbrev pub Callback : Type 0 → Type 0
Callback S = S → Call → Bool × S

-- The arguments of `moor_fragment_send` but for the callback: `bytes` are `data[0 .. len)`.
pub record Message : Type 0 where
  pub circuit_id : ℕ
  pub relay_cmd : ℕ
  pub stream_id : ℕ
  pub bytes : List ℕ
  pub fragment_id : ℕ

module _ (m : Message) where
  open m use {circuit_id, relay_cmd, stream_id, bytes, fragment_id}

  pub chunk_size : ℕ → ℕ
  chunk_size offset =
      let remaining = length bytes - offset in
      if ltb fragment_data remaining then fragment_data else remaining

  -- The cell that one round of the loop builds.
  pub fragment_call : ℕ → ℕ → Call
  unfolding chunk_size
  fragment_call offset seq =
      let chunk = chunk_size offset in
      record {
        circuit_id = circuit_id;
        relay_cmd =
            if ltb (offset + chunk) (length bytes) then relay_fragment else relay_fragment_end;
        stream_id = stream_id;
        bytes =
            put16 fragment_id
            ++ (put16 seq
                ++ (put16 (u16 (length bytes)) ++ (u8 relay_cmd ∷ take chunk (drop offset bytes))));
        len = u16 (fragment_header + chunk);
      }

  -- `while (offset < len)`; `none` stands for fuel that has run out.
  pub send_loop : {S : Type 0} → Callback S → ℕ → ℕ → ℕ → S → Option (Bool × S)
  unfolding chunk_size fragment_call
  send_loop send_cb zero offset seq ctx = none
  send_loop send_cb (suc fuel) offset seq ctx =
      let (sent, ctx') = send_cb ctx (fragment_call offset seq) in
      let rest = send_loop send_cb fuel (offset + chunk_size offset) (u16 (seq + 1)) ctx' in
      if ltb offset (length bytes)
      then (if sent then rest else some (false, ctx'))
      else some (true, ctx)

  -- `moor_fragment_send`; `false` stands for -1, or for a callback's own failure.
  pub fragment_send : {S : Type 0} → Callback S → S → Option (Bool × S)
  unfolding send_loop
  fragment_send send_cb ctx =
      if length bytes == 0 || ltb max_reassembly (length bytes)
      then some (false, ctx)
      else if ltb relay_data (length bytes)
      then send_loop send_cb (suc (length bytes)) 0 0 ctx
      else some (
          send_cb ctx (record {
            circuit_id = circuit_id;
            relay_cmd = relay_cmd;
            stream_id = stream_id;
            bytes = bytes;
            len = u16 (length bytes);
          }))

-- `moor_reassembly_t`
pub record Slot : Type 0 where
  pub fragment_id : ℕ
  pub expected_total : ℕ
  pub inner_relay_cmd : ℕ
  pub stream_id : ℕ
  pub buffer : List ℕ
  pub received : ℕ
  pub next_seq : ℕ
  pub active : Bool
  pub started_at : ℕ

-- `memset(slot, 0, sizeof(*slot))`
abbrev pub blank_slot : Slot
blank_slot = record {
  fragment_id = 0;
  expected_total = 0;
  inner_relay_cmd = 0;
  stream_id = 0;
  buffer = zeros max_reassembly;
  received = 0;
  next_seq = 0;
  active = false;
  started_at = 0;
}

-- `moor_reassembly_state_t`: an array of eight slots.
abbrev pub State : Type 0
State = List Slot

pub reassembly_init : State
reassembly_init = replicate max_pending blank_slot

-- What `moor_fragment_receive` returns: -1, 0, or 1 with `*out_cmd`, `out_data` and `*out_len`.
pub data Verdict : Type 0 where
  refused waiting : Verdict
  complete : ℕ → List ℕ → ℕ → Verdict

pub expire_slot : ℕ → Slot → Slot
expire_slot now s =
    if s.active && ltb fragment_timeout_ms (sub_u64 now s.started_at)
    then record s { active = false }
    else s

pub find_active : ℕ → State → Option ℕ
find_active frag_id [] = none
find_active frag_id (s ∷ slots) =
    if s.active && s.fragment_id == frag_id
    then some 0
    else Option.map suc (find_active frag_id slots)

pub find_free : State → Option ℕ
find_free [] = none
find_free (s ∷ slots) = if s.active then Option.map suc (find_free slots) else some 0

-- The fields of a fragment cell.
pub record Fragment : Type 0 where
  pub frag_id : ℕ
  pub seq : ℕ
  pub total_len : ℕ
  pub inner_cmd : ℕ
  pub payload : List ℕ
  pub payload_len : ℕ

pub parse_fragment : List ℕ → ℕ → Fragment
parse_fragment d d_len = record {
  frag_id = be16 (get_or d 0 0) (get_or d 1 0);
  seq = be16 (get_or d 2 0) (get_or d 3 0);
  total_len = be16 (get_or d 4 0) (get_or d 5 0);
  inner_cmd = get_or d 6 0;
  payload = take (d_len - fragment_header) (drop fragment_header d);
  payload_len = d_len - fragment_header;
}

pub open_slot : Fragment → ℕ → ℕ → Slot
open_slot f stream_id now = record {
  fragment_id = f.frag_id;
  expected_total = f.total_len;
  inner_relay_cmd = f.inner_cmd;
  stream_id = stream_id;
  buffer = zeros max_reassembly;
  received = 0;
  next_seq = 0;
  active = true;
  started_at = now;
}

-- The slot after `memcpy`, `received += payload_len` and `next_seq++`.
pub append_payload : Slot → Fragment → Slot
append_payload s f = record s {
  buffer = write_at s.received f.payload s.buffer;
  received = s.received + f.payload_len;
  next_seq = u16 (s.next_seq + 1);
}

-- The last part of `moor_fragment_receive`, for the slot `s` that stands at index `i`.
pub accept : State → ℕ → Slot → Fragment → ℕ → Verdict × State
accept slots i s f frag_cmd =
    if not (f.seq == s.next_seq)
    then (refused, slots)
    else if not (f.total_len == s.expected_total) || not (f.inner_cmd == s.inner_relay_cmd)
    then (refused, slots)
    else if ltb (sub_u64 max_reassembly s.received) f.payload_len
    then (refused, slots)
    else let s' = append_payload s f in
      if not (frag_cmd == relay_fragment_end)
      then (waiting, set slots i s')
      else let closed = set slots i (record s' { active = false }) in
        if not (s'.received == s'.expected_total)
        then (refused, closed)
        else (complete s'.inner_relay_cmd (take s'.received s'.buffer) s'.received, closed)

-- What is left to do once the slots have been expired and the header has been read.
pub receive_fragment : State → Fragment → ℕ → ℕ → ℕ → Verdict × State
receive_fragment slots f stream_id frag_cmd now =
    if ltb max_reassembly f.total_len || f.total_len == 0
    then (refused, slots)
    else elim (find_active f.frag_id slots) [
      | some i ↦ accept slots i (get_or slots i blank_slot) f frag_cmd
      | none ↦ if not (f.seq == 0) then (refused, slots) else elim (find_free slots) [
        | none ↦ (refused, slots)
        | some i ↦ let s = open_slot f stream_id now in accept (set slots i s) i s f frag_cmd
      ]
    ]

-- `moor_fragment_receive`; `now` and `later` are what its two calls of `moor_time_ms` return.
pub fragment_receive : State → List ℕ → ℕ → ℕ → ℕ → ℕ → ℕ → Verdict × State
fragment_receive slots d d_len stream_id frag_cmd now later =
    if ltb d_len fragment_header
    then (refused, slots)
    else receive_fragment (map (expire_slot now) slots) (parse_fragment d d_len) stream_id frag_cmd
        later
