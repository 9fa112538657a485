-- ===== src/Conflux.antt =====
-- src/conflux.c and include/moor/conflux.h: one stream over several circuits ("legs"), with hidden
-- sequence numbers and a reorder buffer. The sequence numbers' cipher is in Feistel.
pub mod Feistel
pub mod Legs
pub mod Reorder
mod Tests
use moor_pq.Base.{
  ℕ, zero, suc, ◌+◌, ◌-◌, ◌*◌, ◌/◌, ◌%◌, ◌^◌, Bool, true, false, not, ◌&&◌, ◌||◌, Option, none,
  some, List, [], ◌∷◌, ◌++◌, map, length, get_or, set, take, zeros, write_at, replicate, ltb, leb,
  ◌==◌, if◌then◌else◌, u64, sub_u64,
}
use mathlib.Core.Option
use moor_pq.Sodium.{Sodium}
use moor_pq.Conflux.Feistel.{feistel_decrypt, feistel_encrypt}

abbrev pub max_legs : ℕ
max_legs = 4

abbrev pub reorder_buf : ℕ
reorder_buf = 32

abbrev pub entry_data : ℕ
entry_data = 490

abbrev pub uint64_max : ℕ
uint64_max = 2 ^ 64 - 1

-- `moor_conflux_leg_t`; a circuit is named by a number, its address.
pub record Leg : Type 0 where
  pub circuit : Option ℕ
  pub weight : ℕ
  pub sent_count : ℕ
  pub active : Bool
  pub srtt_us : ℕ
  pub min_rtt_us : ℕ
  pub rtt_initialized : Bool

-- `moor_conflux_reorder_entry_t`; `bytes` is its array of 490.
pub record Buffered : Type 0 where
  pub seq : ℕ
  pub stream_id : ℕ
  pub bytes : List ℕ
  pub data_len : ℕ
  pub valid : Bool
  pub buffered_at : ℕ

-- `moor_conflux_set_t`: `legs` is `legs[0 .. num_legs)`.
pub record ConfluxSet : Type 0 where
  pub legs : List Leg
  pub next_send_seq : ℕ
  pub next_recv_seq : ℕ
  pub reorder : List Buffered
  pub seq_key : List ℕ
  pub reorder_timeout_ms : ℕ

-- What a leg takes from a circuit: its address, and `circ_package_window` where that is positive.
pub record Circuit : Type 0 where
  pub address : ℕ
  pub circ_package_window : ℕ

abbrev pub weight_of : Circuit → ℕ
weight_of c = if ltb 0 c.circ_package_window then c.circ_package_window else 1000

abbrev pub new_leg : Circuit → Leg
new_leg c = record {
  circuit = some c.address;
  weight = weight_of c;
  sent_count = 0;
  active = true;
  srtt_us = 0;
  min_rtt_us = 0;
  rtt_initialized = false;
}

abbrev pub blank_reorder : Buffered
blank_reorder = record {
  seq = 0;
  stream_id = 0;
  bytes = zeros entry_data;
  data_len = 0;
  valid = false;
  buffered_at = 0;
}

-- `moor_conflux_create`, past the allocation; `key` is the derived or drawn key, and `random` what
-- is drawn for the timeout.
unfoldable pub conflux_create : Circuit → List ℕ → ℕ → ConfluxSet
conflux_create first key random = record {
  legs = new_leg first ∷ [];
  next_send_seq = 0;
  next_recv_seq = 0;
  reorder = replicate reorder_buf blank_reorder;
  seq_key = key;
  reorder_timeout_ms = 8000 + random % 4001;
}

-- Whether a leg's circuit is the one at `a`.
abbrev pub same_circuit : Option ℕ → ℕ → Bool
same_circuit none a = false
same_circuit (some b) a = b == a
