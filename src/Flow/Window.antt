-- ===== src/Flow/Window.antt =====
-- The windows of src/circuit.c: what a circuit keeps of them while cells and SENDMEs go by.
use moor_pq.Base.{
  ℕ, zero, suc, ◌+◌, ◌-◌, ◌*◌, ◌/◌, ◌%◌, ◌^◌, ◌≤◌, ◌<◌, ◌≡◌, ◌≢◌, ◌∙◌, refl, sym, ap, Bool, true,
  false, Option, none, some, List, [], ◌∷◌, length, replicate, get_or, take, drop, ltb, leb, ◌==◌,
  ◌&&◌, not, u32, u64, if◌then◌else◌, arith, Bool-cases, inl, inr,
}
use moor_pq.Cell.{cell_relay, relay_data}
use moor_pq.Flow.{
  Flow, init_fields, Ring, Link, tail_of, count_cell, is_blocked, data_loop, circuit_send_data,
  spend_window, find_stream, sendme_ts_max, relay_data_cmd,
}
use moor_pq.Flow.Sendme.{
  open_window, smooth_rtt, measure_rtt, estimate, adjust, settle, acknowledge, track_min,
}
use moor_pq.Flow.Fifo.{IsRing, push-IsRing, push_room}

-- What the windows of a circuit are about: what is on its way, and what is still allowed.
pub record Core : Type 0 where
  pub window : ℕ
  pub underway : ℕ
  pub expected : Ring (List ℕ)
  pub hops : Bool

abbrev pub core : Flow → Core
core f = record {
  window = f.circ_package_window;
  underway = f.inflight;
  expected = f.sendme_auth;
  hops = f.has_hops;
}

smooth_rtt-core : (f : Flow) (rtt_us : ℕ) → core (smooth_rtt f rtt_us) ≡ core f
unfolding smooth_rtt
smooth_rtt-core f rtt_us = elim (Bool-cases f.rtt_initialized) [
  | inl known ↦ rw (known) refl
  | inr fresh ↦ rw (fresh) refl
]

measure_rtt-core : (f : Flow) (now : ℕ) → core (measure_rtt f now) ≡ core f
unfolding measure_rtt
measure_rtt-core f now = elim (Bool-cases (f.sendme_timestamps.count == 0)) [
  | inl idle ↦ rw (idle) refl
  | inr some_left ↦
      let tail = tail_of sendme_ts_max f.sendme_timestamps in
      let at = get_or f.sendme_timestamps.slots tail 0 in
      let rtt_us = u64 ((now - at) * 1000) in
      elim (Bool-cases (ltb at now && (ltb 0 rtt_us && ltb rtt_us 60000000))) [
        | inl used ↦ rw (some_left, used) (smooth_rtt-core _ rtt_us)
        | inr dropped ↦ rw (some_left, dropped) refl
      ]
]

estimate-core : (f : Flow) → core (estimate f).0 ≡ core f
unfolding estimate
estimate-core f =
    elim (Bool-cases (f.rtt_initialized && (ltb 0 f.srtt_us && not (f.min_rtt_us == 2 ^ 64 - 1)))) [
      | inl known ↦ rw (known) refl
      | inr none_yet ↦ rw (none_yet) refl
    ]

adjust-core : (f : Flow) (queue : ℕ) → core (adjust f queue) ≡ core f
unfolding adjust
adjust-core f queue = elim (Bool-cases f.in_slow_start) [
  | inl slow ↦ rw (slow) refl
  | inr fast ↦ rw (fast) refl
]

pub acknowledge-core : (f : Flow) (now : ℕ) → core (acknowledge f now) ≡ core (open_window f)
unfolding acknowledge settle
acknowledge-core f now =
    let opened = open_window f in
    let timed = track_min (measure_rtt opened now) in
    let (g, queue) = estimate timed in
    adjust-core (record g { sendme_ack_count = u32 (g.sendme_ack_count + 1) }) queue
    ∙ estimate-core timed
    ∙ measure_rtt-core opened now

-- A circuit with a hop whose window and cells underway add up to 1000, and which expects a SENDME
-- for every hundred cells underway.
pub record Balanced (c : Core) : Type 0 where
  pub whole_window : c.window + c.underway ≡ 1000
  pub expects : c.expected.count ≡ c.underway / 100
  pub ring : IsRing c.expected
  pub has_hop : c.hops ≡ true

-- A new circuit is balanced from its first hop on.
init_fields-Balanced : Balanced (core (record init_fields { has_hops = true }))
unfolding init_fields replicate
init_fields-Balanced = record {
  whole_window = refl;
  expects = refl;
  ring = record { places = refl; head_in = omega arith; count_in = omega arith };
  has_hop = refl;
}

spend_window_free : (w x : ℕ) → w + x ≡ 1000 → w ≢ 0 → spend_window w + (x + 1) ≡ 1000
spend_window_free w x e free = ground arith

hundreds_kept : (x : ℕ) → (x + 1) % 100 == 0 ≡ false → (x + 1) / 100 ≡ x / 100
hundreds_kept x between = let off : (x + 1) % 100 ≢ 0 = ground (arith, between) in omega arith

hundreds_up : (x : ℕ) → (x + 1) % 100 == 0 ≡ true → (x + 1) / 100 ≡ x / 100 + 1
hundreds_up x every = let on : (x + 1) % 100 ≡ 0 = ground (arith, every) in omega arith

few_expected : (w x c : ℕ) → w + x ≡ 1000 → c ≡ x / 100 → w ≢ 0 → c < 10
few_expected w x c e expects free = omega arith

window_after : ℕ → ℕ
window_after w = (if ltb 1000 w then 1000 else w) + 100

underway_after : ℕ → ℕ
underway_after x = if leb 100 x then x - 100 else 0

opened_window : (w x : ℕ) → w + x ≡ 1000 → 100 ≤ x → window_after w + underway_after x ≡ 1000
unfolding window_after underway_after
opened_window w x e full = ground arith

opened_expects : (x c : ℕ) → c ≡ x / 100 → 100 ≤ x → c - 1 ≡ underway_after x / 100
unfolding underway_after
opened_expects x c expects full =
    let less : (if leb 100 x then x - 100 else 0) ≡ x - 100 = ground arith in
    rw (less) (omega arith)

module _ (f : Flow) where
  pub count_cell-Balanced :
      (stream : Option ℕ) (digest : List ℕ) (now : ℕ)
      → Balanced (core f)
      → f.circ_package_window ≢ 0
      → Balanced (core (count_cell f stream digest now))
  unfolding count_cell
  count_cell-Balanced stream digest now b free =
      let spent = spend_window_free f.circ_package_window f.inflight b.whole_window free in
      elim (Bool-cases ((f.inflight + 1) % 100 == 0)) [
        | inr between ↦ rw (between) (record {
          whole_window = spent;
          expects = b.expects ∙ sym (hundreds_kept f.inflight between);
          ring = b.ring;
          has_hop = b.has_hop;
        })
        | inl every ↦
            let room : f.sendme_auth.count < 10 =
              few_expected f.circ_package_window f.inflight f.sendme_auth.count b.whole_window
                b.expects free in
            rw (every, b.has_hop)
              (record {
                whole_window = spent;
                expects =
                    ap (λ r. r.count) (push_room (take 20 digest) f.sendme_auth room)
                    ∙ ap (λ n. n + 1) b.expects
                    ∙ sym (hundreds_up f.inflight every);
                ring = push-IsRing (take 20 digest) f.sendme_auth b.ring;
                has_hop = refl;
              })
      ]

  pub open_window-Balanced :
      Balanced (core f) → f.sendme_auth.count ≢ 0 → Balanced (core (open_window f))
  unfolding open_window window_after underway_after
  open_window-Balanced b waits =
      let full : 100 ≤ f.inflight = omega arith in
      record {
        whole_window = opened_window f.circ_package_window f.inflight b.whole_window full;
        expects = opened_expects f.inflight f.sendme_auth.count b.expects full;
        ring = record { places = b.ring.places; head_in = b.ring.head_in; count_in = omega arith };
        has_hop = b.has_hop;
      }

unblocked : (f : Flow) (stream : Option ℕ) → is_blocked f stream ≡ false → f.circ_package_window ≢ 0
unblocked f none open_yet e = ground (arith, open_yet, e)
unblocked f (some i) open_yet e = ground (arith, open_yet, e)

module _ {S : Type 0} (link : Link S) (clock : ℕ → ℕ) (stream_id : ℕ) where
  data_loop-Balanced :
      (stream : Option ℕ) (fuel : ℕ) (f : Flow) (s : S) (bytes : List ℕ) (sent : ℕ)
      → Balanced (core f)
      → Balanced (core (data_loop link clock stream_id stream fuel f s bytes sent).1)
  unfolding data_loop
  data_loop-Balanced stream fuel f s [] sent b = b
  data_loop-Balanced stream zero f s (c ∷ bytes) sent b = b
  data_loop-Balanced stream (suc fuel) f s (c ∷ bytes) sent b =
      let chunk = if ltb relay_data (suc (length bytes)) then relay_data else suc (length bytes) in
      let r =
        link.transmit s
          (cell_relay f.circuit_id relay_data_cmd stream_id (some (c ∷ bytes)) chunk) in
      elim (Bool-cases (is_blocked f stream)) [
        | inl blocked ↦ rw (blocked) b
        | inr open_yet ↦ elim (Bool-cases r.0) [
          | inr refused ↦ rw (open_yet, refused) b
          | inl went ↦
              rw (open_yet, went)
                (data_loop-Balanced stream fuel
                  (count_cell f stream (link.forward_digest r.1) (clock sent)) r.1
                  (drop chunk (c ∷ bytes)) (sent + chunk)
                  (count_cell-Balanced f stream (link.forward_digest r.1) (clock sent) b
                    (unblocked f stream open_yet)))
        ]
      ]

  -- What `moor_circuit_send_data` leaves of a balanced circuit is balanced, whichever way it returns:
  -- the window and the cells underway add up to 1000, so that never more than 1000 are underway, and
  -- the ring of digests holds one for every hundred cells underway.
  pub send_data-Balanced :
      (f : Flow) (s : S) (bytes : List ℕ)
      → Balanced (core f)
      → Balanced (core (circuit_send_data link clock stream_id f s bytes).1)
  unfolding circuit_send_data
  send_data-Balanced f s bytes b =
      data_loop-Balanced (find_stream stream_id f.streams) (length bytes) f s bytes 0 b
