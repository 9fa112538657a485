-- ===== src/Flow/Sendme.antt =====
-- A SENDME cell that comes in: `moor_circuit_handle_sendme` of src/circuit.c.
use moor_pq.Base.{
  ℕ, ◌+◌, ◌-◌, ◌*◌, ◌/◌, ◌^◌, Bool, true, false, not, ◌&&◌, Option, none, some, List, [], get_or,
  set, take, ltb, leb, ◌==◌, if◌then◌else◌, u32, u64, min, max,
}
use moor_pq.Sodium.{Sodium}
use moor_pq.Flow.{
  Flow, blank_stream, tail_of, pop, find_stream, sendme_increment, circuit_window, stream_window,
  sendme_auth_max, sendme_auth_len, sendme_ts_max,
}

-- The four constants of a path type, `g_cc_params`; an unknown one counts as an exit path.
pub record Params : Type 0 where
  pub alpha : ℕ
  pub beta : ℕ
  pub gamma : ℕ
  pub delta : ℕ

unfoldable pub cc_params_for : ℕ → Params
cc_params_for path_type =
    if path_type == 1
    then record { alpha = 60; beta = 200; gamma = 100; delta = 15 }
    else if path_type == 2
    then record { alpha = 10; beta = 31; gamma = 20; delta = 5 }
    else record { alpha = 30; beta = 100; gamma = 50; delta = 10 }

abbrev pub cwnd_min : ℕ
cwnd_min = 100

abbrev pub cwnd_max : ℕ
cwnd_max = 2000

abbrev pub no_rtt : ℕ
no_rtt = 2 ^ 64 - 1

-- The digest of a SENDME against the oldest that is expected.
unfoldable pub is_authentic : Sodium → Flow → List ℕ → ℕ → Bool
is_authentic na f sendme_data sendme_len =
    if f.sendme_auth.count == 0
    then false
    else if ltb sendme_len sendme_auth_len
    then false
    else na.memcmp (take sendme_auth_len sendme_data)
        (get_or f.sendme_auth.slots (tail_of sendme_auth_max f.sendme_auth) [])

-- `inflight` and the package window after a SENDME.
unfoldable pub open_window : Flow → Flow
open_window f = record f {
  sendme_auth = pop f.sendme_auth;
  inflight = if leb sendme_increment f.inflight then f.inflight - sendme_increment else 0;
  circ_package_window =
      (if ltb circuit_window f.circ_package_window then circuit_window else f.circ_package_window)
      + sendme_increment;
}

-- The smoothed round trip after a sample; the quotient of a negative number is rounded to zero.
unfoldable pub smooth_rtt : Flow → ℕ → Flow
smooth_rtt f rtt_us =
    if not f.rtt_initialized
    then record f { srtt_us = rtt_us; rtt_var_us = rtt_us / 2; rtt_initialized = true }
    else let abs_diff = if ltb rtt_us f.srtt_us then f.srtt_us - rtt_us else rtt_us - f.srtt_us in
      record f {
        srtt_us =
            if ltb rtt_us f.srtt_us then f.srtt_us - abs_diff / 8 else f.srtt_us + abs_diff / 8;
        rtt_var_us = u64 (3 * f.rtt_var_us + abs_diff) / 4;
      }

-- The sample itself: the oldest timestamp is taken out, and used if it is within a minute.
unfoldable pub measure_rtt : Flow → ℕ → Flow
unfolding smooth_rtt
measure_rtt f now =
    if f.sendme_timestamps.count == 0
    then f
    else let sent_at =
        get_or f.sendme_timestamps.slots (tail_of sendme_ts_max f.sendme_timestamps) 0 in
      let f' : Flow = record f { sendme_timestamps = pop f.sendme_timestamps } in
      let rtt_us = u64 ((now - sent_at) * 1000) in
      if ltb sent_at now && (ltb 0 rtt_us && ltb rtt_us 60000000) then smooth_rtt f' rtt_us else f'

abbrev pub track_min : Flow → Flow
track_min f = record f {
  min_rtt_us = if f.rtt_initialized && ltb f.srtt_us f.min_rtt_us then f.srtt_us else f.min_rtt_us;
}

abbrev has_bdp : Flow → Bool
has_bdp f = f.rtt_initialized && (ltb 0 f.srtt_us && not (f.min_rtt_us == no_rtt))

-- The bandwidth-delay product, and the queue beyond it.
unfoldable pub estimate : Flow → Flow × ℕ
estimate f =
    let bdp = f.cwnd * f.min_rtt_us / f.srtt_us in
    if has_bdp f then (record f { bdp = bdp }, f.cwnd - bdp) else (f, 0)

-- Slow start: whether it ends, and the window.
unfoldable pub slow_start : Flow → ℕ → Bool × ℕ
slow_start f queue =
    let gamma = (cc_params_for f.path_type).gamma in
    if f.rtt_initialized && ltb gamma queue
    then (true, min (f.bdp + gamma) f.cwnd)
    else if f.rtt_initialized
        && (not (f.min_rtt_us == no_rtt) && ltb (u64 (f.min_rtt_us * 150) / 100) f.srtt_us)
    then (true, f.cwnd)
    else (leb f.ssthresh (f.cwnd + sendme_increment), f.cwnd + sendme_increment)

-- Congestion avoidance; what goes below 0 is raised to the least window afterwards.
pub avoid_congestion : Flow → ℕ → ℕ
avoid_congestion f queue =
    let p = cc_params_for f.path_type in
    if not f.cwnd_full
    then f.cwnd
    else if ltb queue p.alpha
    then f.cwnd + p.delta
    else if ltb p.beta queue
    then f.cwnd - p.delta
    else f.cwnd

unfoldable pub adjust : Flow → ℕ → Flow
unfolding slow_start avoid_congestion
adjust f queue =
    let (exit_ss, cwnd) = slow_start f queue in
    if f.in_slow_start
    then record f {
      cwnd = cwnd;
      in_slow_start = not exit_ss;
      ssthresh = if exit_ss then cwnd else f.ssthresh;
    }
    else record f { cwnd = avoid_congestion f queue }

-- The window between its bounds, and what is reset for the next period.
unfoldable pub settle : Flow → Flow
settle f =
    let cwnd = min cwnd_max (max cwnd_min f.cwnd) in
    record f {
      cwnd = cwnd;
      cwnd_full = false;
      min_rtt_us =
          if (cwnd == cwnd_min && not f.in_slow_start) && f.rtt_initialized
          then f.srtt_us
          else f.min_rtt_us;
    }

-- What a circuit-level SENDME does once it is authentic.
unfoldable pub acknowledge : Flow → ℕ → Flow
unfolding open_window measure_rtt estimate adjust settle
acknowledge f now =
    let (g, queue) = estimate (track_min (measure_rtt (open_window f) now)) in
    settle (adjust (record g { sendme_ack_count = u32 (g.sendme_ack_count + 1) }) queue)

-- The stream's window after a SENDME of the stream.
abbrev pub open_found : Option ℕ → Flow → Flow
open_found none f = f
open_found (some i) f =
    let s = get_or f.streams i blank_stream in
    let w = if ltb stream_window s.package_window then stream_window else s.package_window in
    record f { streams = set f.streams i (record s { package_window = w + sendme_increment }) }

unfoldable pub open_stream : Flow → ℕ → Flow
open_stream f stream_id = open_found (find_stream stream_id f.streams) f

-- `moor_circuit_handle_sendme`; `true` stands for 0 and `false` for -1.
unfoldable pub circuit_handle_sendme : Sodium → Flow → ℕ → List ℕ → ℕ → ℕ → Bool × Flow
unfolding is_authentic acknowledge open_stream
circuit_handle_sendme na f stream_id sendme_data sendme_len now =
    if stream_id == 0
    then if is_authentic na f sendme_data sendme_len then (true, acknowledge f now) else (false, f)
    else (true, open_stream f stream_id)
