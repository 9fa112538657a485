-- ===== src/Flow.antt =====
-- src/circuit.c, the flow control of a circuit: `moor_circuit_send_data`, SENDME cells with their
-- authentication, and the congestion window.
pub mod Sendme
pub mod Fifo
pub mod Window
pub mod Accept
pub mod Progress
pub mod Deliver
mod Tests
use moor_pq.Base.{
  ℕ, zero, suc, ◌+◌, ◌-◌, ◌*◌, ◌/◌, ◌%◌, ◌^◌, Bool, true, false, not, ◌&&◌, ◌||◌, Option, none,
  some, List, [], ◌∷◌, length, get_or, set, take, drop, ltb, leb, ◌==◌, if◌then◌else◌, replicate,
}
use mathlib.Core.Option
use moor_pq.Cell.{Cell, cell_relay, relay_data}

abbrev pub sendme_increment : ℕ
sendme_increment = 100

abbrev pub circuit_window : ℕ
circuit_window = 1000

abbrev pub stream_window : ℕ
stream_window = 100

abbrev pub sendme_auth_max : ℕ
sendme_auth_max = 10

abbrev pub sendme_auth_len : ℕ
sendme_auth_len = 20

abbrev pub sendme_ts_max : ℕ
sendme_ts_max = 20

-- RELAY_DATA of `moor_relay_cmd_t`.
abbrev pub relay_data_cmd : ℕ
relay_data_cmd = 2

-- A FIFO in an array: the place of the next write, and how many wait.
pub record Ring {ℓ} (A : Type ℓ) : Type ℓ where
  pub slots : List A
  pub head : ℕ
  pub count : ℕ

module _ {ℓ} {A : Type ℓ} where
  -- The place of the oldest item, in a ring of `max` places.
  abbrev pub tail_of : ℕ → Ring A → ℕ
  tail_of max r = (r.head + max - r.count) % max

  pub push : ℕ → A → Ring A → Ring A
  push max a r =
      if ltb r.count max
      then record { slots = set r.slots r.head a; head = (r.head + 1) % max; count = r.count + 1 }
      else r

  abbrev pub pop : Ring A → Ring A
  pop r = record r { count = r.count - 1 }

-- `moor_stream_t`, its windows.
pub record Stream : Type 0 where
  pub stream_id : ℕ
  pub package_window : ℕ
  pub deliver_window : ℕ

abbrev pub blank_stream : Stream
blank_stream = record { stream_id = 0; package_window = 0; deliver_window = 0 }

-- The flow control of `moor_circuit_t`. A window is an int of the C that no operation takes below 0.
pub record Flow : Type 0 where
  pub circuit_id : ℕ
  pub has_hops : Bool
  pub streams : List Stream
  pub circ_package_window : ℕ
  pub circ_deliver_window : ℕ
  pub inflight : ℕ
  pub cwnd : ℕ
  pub ssthresh : ℕ
  pub cwnd_full : Bool
  pub in_slow_start : Bool
  pub path_type : ℕ
  pub rtt_initialized : Bool
  pub srtt_us : ℕ
  pub rtt_var_us : ℕ
  pub min_rtt_us : ℕ
  pub bdp : ℕ
  pub sendme_ack_count : ℕ
  pub sendme_timestamps : Ring ℕ
  pub sendme_auth : Ring (List ℕ)

-- `circ_init_fields` on a zeroed circuit, the fields of the flow control.
pub init_fields : Flow
init_fields = record {
  circuit_id = 0;
  has_hops = false;
  streams = replicate 64 blank_stream;
  circ_package_window = circuit_window;
  circ_deliver_window = circuit_window;
  inflight = 0;
  cwnd = 124;
  ssthresh = 1000;
  cwnd_full = false;
  in_slow_start = true;
  path_type = 0;
  rtt_initialized = false;
  srtt_us = 0;
  rtt_var_us = 0;
  min_rtt_us = 2 ^ 64 - 1;
  bdp = 0;
  sendme_ack_count = 0;
  sendme_timestamps = record { slots = replicate sendme_ts_max 0; head = 0; count = 0 };
  sendme_auth = record {
    slots = replicate sendme_auth_max (replicate sendme_auth_len 0);
    head = 0;
    count = 0;
  };
}

-- `moor_circuit_find_stream`
unfoldable pub find_stream : ℕ → List Stream → Option ℕ
find_stream stream_id [] = none
find_stream stream_id (s ∷ streams) =
    let rest = find_stream stream_id streams in
    if stream_id == 0
    then none
    else if s.stream_id == stream_id
    then some 0
    else Option.map suc rest

-- A window after one cell, `if (w > 0) w--`.
abbrev pub spend_window : ℕ → ℕ
spend_window w = if ltb 0 w then w - 1 else w

abbrev pub spend_stream : Option ℕ → List Stream → List Stream
spend_stream none streams = streams
spend_stream (some i) streams =
    let s = get_or streams i blank_stream in
    set streams i (record s { package_window = spend_window s.package_window })

-- What one cell that was sent does to the counters; `digest` is the last hop's forward digest.
pub count_cell : Flow → Option ℕ → List ℕ → ℕ → Flow
unfolding push
count_cell f stream digest now =
    let inflight = f.inflight + 1 in
    let every = inflight % sendme_increment == 0 in
    record f {
      inflight = inflight;
      cwnd_full = f.cwnd_full || leb f.cwnd inflight;
      circ_package_window = spend_window f.circ_package_window;
      streams = spend_stream stream f.streams;
      sendme_timestamps =
          if every then push sendme_ts_max now f.sendme_timestamps else f.sendme_timestamps;
      sendme_auth =
          if every && f.has_hops
          then push sendme_auth_max (take sendme_auth_len digest) f.sendme_auth
          else f.sendme_auth;
    }

-- How a cell goes out: encrypted, and put into the circuit's queue. `true` stands for 0.
pub record Link (S : Type 0) : Type 0 where
  pub transmit : S → Cell → Bool × S
  pub forward_digest : S → List ℕ
  pub backward_digest : S → List ℕ

-- What `moor_circuit_send_data` returns: -1, 0, or the bytes that were sent before a window closed.
pub data Sent : Type 0 where
  failed whole : Sent
  partly : ℕ → Sent

-- Whether a window keeps the next cell back.
abbrev pub is_blocked : Flow → Option ℕ → Bool
is_blocked f none = f.circ_package_window == 0
is_blocked f (some i) =
    f.circ_package_window == 0 || (get_or f.streams i blank_stream).package_window == 0

module _ {S : Type 0} (link : Link S) (clock : ℕ → ℕ) (stream_id : ℕ) where
  -- The loop of `moor_circuit_send_data`, with `sent` bytes behind it; `clock` gives the time of
  -- every cell. Each round sends at least a byte, so that `fuel` is the number of bytes.
  unfoldable pub data_loop : Option ℕ → ℕ → Flow → S → List ℕ → ℕ → Sent × Flow × S
  unfolding count_cell
  data_loop stream fuel f s [] sent = (whole, f, s)
  data_loop stream zero f s (b ∷ bytes) sent = (failed, f, s)
  data_loop stream (suc fuel) f s (b ∷ bytes) sent =
      let chunk = if ltb relay_data (suc (length bytes)) then relay_data else suc (length bytes) in
      let (ok, s') =
        link.transmit s
          (cell_relay f.circuit_id relay_data_cmd stream_id (some (b ∷ bytes)) chunk) in
      let f' = count_cell f stream (link.forward_digest s') (clock sent) in
      let rest = data_loop stream fuel f' s' (drop chunk (b ∷ bytes)) (sent + chunk) in
      if is_blocked f stream
      then (if ltb 0 sent then partly sent else failed, f, s)
      else if ok
      then rest
      else (failed, f, s')

  -- `moor_circuit_send_data`
  unfoldable pub circuit_send_data : Flow → S → List ℕ → Sent × Flow × S
  unfolding data_loop
  circuit_send_data f s bytes =
      data_loop (find_stream stream_id f.streams) (length bytes) f s bytes 0
