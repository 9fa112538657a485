-- ===== src/Flow/Tests.antt =====
-- A circuit with 100 cells underway, and instances of the theorems on flow control.
use moor_pq.Base.{
  length, take, ◌*◌, ℕ, ◌+◌, ◌≡◌, ◌≤◌, ◌<◌, ◌⊎◌, ◌++◌, refl, true, false, List, [], ◌∷◌, arith,
  get_or, replicate,
}
use moor_pq.Cell.{relay_data}
use moor_pq.Sodium.Toy.{toy_sodium}
use moor_pq.Flow.{
  whole, partly, is_blocked, find_stream, Flow, Ring, Link, circuit_send_data, push, pop, tail_of,
  sendme_auth_max,
}
use moor_pq.Flow.Sendme.{
  circuit_handle_sendme, acknowledge, open_window, measure_rtt, smooth_rtt, estimate, adjust,
  settle, slow_start, cc_params_for,
}
use moor_pq.Flow.Fifo.{IsRing, contents, contents-push-pop}
use moor_pq.Flow.Window.{Balanced, core, send_data-Balanced}
use moor_pq.Flow.Accept.{sendme_takes_oldest, handle_sendme-Balanced, handle_sendme-cwnd}
use moor_pq.Flow.Deliver.{IsDelivering, circuit_maybe_send_sendme, maybe_send_sendme_lem}
use moor_pq.Flow.Progress.{may_start, data_cells, transmit_all, send_data_gets_on}

abbrev digest : List ℕ
digest = replicate 20 9

abbrev one_expected : Ring (List ℕ)
one_expected = record { slots = digest ∷ replicate 9 []; head = 1; count = 1 }

abbrev hundred_underway : Flow
hundred_underway = record {
  circuit_id = 7;
  has_hops = true;
  streams = record { stream_id = 3; package_window = 2; deliver_window = 100 } ∷ [];
  circ_package_window = 900;
  circ_deliver_window = 901;
  inflight = 100;
  cwnd = 200;
  ssthresh = 1000;
  cwnd_full = false;
  in_slow_start = true;
  path_type = 0;
  rtt_initialized = false;
  srtt_us = 0;
  rtt_var_us = 0;
  min_rtt_us = 18446744073709551615;
  bdp = 0;
  sendme_ack_count = 0;
  sendme_timestamps = record { slots = 5000 ∷ replicate 19 0; head = 1; count = 1 };
  sendme_auth = one_expected;
}

-- A link that takes every cell and counts them.
abbrev open_link : Link ℕ
open_link = record {
  transmit = λ n cell. (true, n + 1);
  forward_digest = λ n. replicate 64 n;
  backward_digest = λ n. replicate 64 n;
}

one_expected-IsRing : IsRing one_expected
unfolding replicate
one_expected-IsRing = record { places = refl; head_in = omega arith; count_in = omega arith }

hundred_underway-Balanced : Balanced (core hundred_underway)
hundred_underway-Balanced = record {
  whole_window = refl;
  expects = refl;
  ring = one_expected-IsRing;
  has_hop = refl;
}

acknowledged_window : (acknowledge hundred_underway 5080).cwnd ≡ 300
unfolding acknowledge open_window measure_rtt smooth_rtt estimate adjust settle slow_start
    cc_params_for
acknowledged_window = refl

contents-push-pop_example :
    (one_expected.count < sendme_auth_max
      → contents (push sendme_auth_max (1 ∷ []) one_expected)
        ≡ contents one_expected ++ ((1 ∷ []) ∷ []))
    × (0 < one_expected.count
        → contents one_expected
          ≡ get_or one_expected.slots (tail_of sendme_auth_max one_expected) []
            ∷ contents (pop one_expected))
contents-push-pop_example = contents-push-pop (1 ∷ []) one_expected one_expected-IsRing

send_data-Balanced_example :
    Balanced (core (circuit_send_data open_link (λ n. n) 3 hundred_underway 0 (replicate 600 1)).1)
send_data-Balanced_example =
    send_data-Balanced open_link (λ n. n) 3 hundred_underway 0 (replicate 600 1)
      hundred_underway-Balanced

handle_sendme-Balanced_example :
    Balanced (core (circuit_handle_sendme toy_sodium hundred_underway 0 digest 20 5080).1)
handle_sendme-Balanced_example =
    handle_sendme-Balanced toy_sodium hundred_underway 0 digest 20 5080 hundred_underway-Balanced

sendme_takes_oldest_example :
    circuit_handle_sendme toy_sodium hundred_underway 0 digest 20 5080 ≡ (false, hundred_underway)
    ⊎ (circuit_handle_sendme toy_sodium hundred_underway 0 digest 20 5080).0 ≡ true
      × contents hundred_underway.sendme_auth
        ≡ digest
          ∷ contents
              (circuit_handle_sendme toy_sodium hundred_underway 0 digest 20 5080).1.sendme_auth
unfolding replicate
sendme_takes_oldest_example =
    sendme_takes_oldest toy_sodium hundred_underway digest 20 5080 one_expected-IsRing

handle_sendme-cwnd_example :
    100 ≤ (circuit_handle_sendme toy_sodium hundred_underway 0 digest 20 5080).1.cwnd
    × (circuit_handle_sendme toy_sodium hundred_underway 0 digest 20 5080).1.cwnd ≤ 2000
handle_sendme-cwnd_example =
    handle_sendme-cwnd toy_sodium hundred_underway 0 digest 20 5080 (omega arith, omega arith)

hundred_underway_starts : may_start hundred_underway 3 ≡ true
unfolding may_start find_stream
hundred_underway_starts = refl

send_data_gets_on_example :
    let (result, f', s') =
      circuit_send_data open_link (λ n. n) 3 hundred_underway 0 (replicate 600 1) in
    let cells = data_cells 7 3 (length {A = ℕ} (replicate 600 1)) (replicate 600 1) in
    ((result ≡ whole) × (s' ≡ transmit_all open_link cells 0))
    ⊎ ((k : ℕ) × (0 < k)
        × (k < length cells)
        × (result ≡ partly (k * relay_data))
        × (is_blocked f' (find_stream 3 hundred_underway.streams) ≡ true)
        × (s' ≡ transmit_all open_link (take k cells) 0))
send_data_gets_on_example =
    send_data_gets_on open_link (λ n. n) 3 (λ s cell. refl) hundred_underway 0 (replicate 600 1)
      hundred_underway_starts

hundred_underway-IsDelivering : IsDelivering hundred_underway
unfolding IsDelivering
hundred_underway-IsDelivering = (omega arith, omega arith)

maybe_send_sendme_lem_example :
    IsDelivering (circuit_maybe_send_sendme open_link hundred_underway 0 0).1
    × (◌≡◌ {A = ℕ} 0 0 → (circuit_maybe_send_sendme open_link hundred_underway 0 0).0 ≡ true)
maybe_send_sendme_lem_example =
    maybe_send_sendme_lem open_link (λ s cell. refl) hundred_underway 0 0
      hundred_underway-IsDelivering
