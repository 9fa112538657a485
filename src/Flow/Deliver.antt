-- ===== src/Flow/Deliver.antt =====
-- `moor_circuit_maybe_send_sendme` of src/circuit.c: a cell is delivered, and a SENDME goes back when
-- a hundred were.
use moor_pq.Base.{
  ℕ, ◌+◌, ◌-◌, ◌≤◌, ◌<◌, ◌≡◌, refl, Bool, true, false, not, Option, none, some, get_or, set, take,
  leb, ◌==◌, if◌then◌else◌, arith, Bool-cases, inl, inr,
}
use moor_pq.Cell.{Cell, cell_relay}
use moor_pq.Flow.{
  Flow, Link, blank_stream, find_stream, circuit_window, stream_window, sendme_increment,
  sendme_auth_len,
}

-- RELAY_SENDME of `moor_relay_cmd_t`.
abbrev relay_sendme : ℕ
relay_sendme = 5

module _ {S : Type 0} (link : Link S) where
  -- A cell of the circuit itself, which has a hop.
  pub deliver_circuit : Flow → S → Bool × Flow × S
  deliver_circuit f s =
      let w = f.circ_deliver_window in
      let body = take sendme_auth_len (link.backward_digest s) in
      let (ok, s') =
        link.transmit s (cell_relay f.circuit_id relay_sendme 0 (some body) sendme_auth_len) in
      if w == 0
      then (false, f, s)
      else if not (leb (w - 1) (circuit_window - sendme_increment))
      then (true, record f { circ_deliver_window = w - 1 }, s)
      else if ok
      then (true, record f { circ_deliver_window = w - 1 + sendme_increment }, s')
      else (false, record f { circ_deliver_window = w - 1 }, s')

  -- What is left of a circuit when the stream in place `i` has another window.
  abbrev with_window : Flow → ℕ → ℕ → Flow
  with_window f i w = record f {
    streams = set f.streams i (record (get_or f.streams i blank_stream) { deliver_window = w });
  }

  pub deliver_stream : Option ℕ → ℕ → Flow → S → Bool × Flow × S
  deliver_stream none stream_id f s = (true, f, s)
  deliver_stream (some i) stream_id f s =
      let w = (get_or f.streams i blank_stream).deliver_window in
      let (ok, s') = link.transmit s (cell_relay f.circuit_id relay_sendme stream_id none 0) in
      if w == 0
      then (false, f, s)
      else if not (leb (w - 1) (stream_window - sendme_increment))
      then (true, with_window f i (w - 1), s)
      else if ok
      then (true, with_window f i (w - 1 + sendme_increment), s')
      else (false, with_window f i (w - 1), s')

  -- `moor_circuit_maybe_send_sendme`; `true` stands for 0 and `false` for -1.
  pub circuit_maybe_send_sendme : Flow → S → ℕ → Bool × Flow × S
  unfolding deliver_circuit deliver_stream
  circuit_maybe_send_sendme f s stream_id =
      if stream_id == 0
      then deliver_circuit f s
      else deliver_stream (find_stream stream_id f.streams) stream_id f s

-- A window that a working link keeps: between two SENDMEs it goes from 1000 down to 901.
unfoldable pub IsDelivering : Flow → Type 0
IsDelivering f = 900 < f.circ_deliver_window × f.circ_deliver_window ≤ 1000

module _ {S : Type 0} (link : Link S)
    (works : (s : S) (cell : Cell) → (link.transmit s cell).0 ≡ true) where
  deliver_circuit_lem :
      (f : Flow) (s : S)
      → IsDelivering f
      → (deliver_circuit link f s).0 ≡ true × IsDelivering (deliver_circuit link f s).1
  unfolding deliver_circuit IsDelivering
  deliver_circuit_lem f s (low, high) =
      let some_left : f.circ_deliver_window == 0 ≡ false = ground arith in
      let body = take 20 (link.backward_digest s) in
      let sent = works s (cell_relay f.circuit_id 5 0 (some body) 20) in
      elim (Bool-cases (leb (f.circ_deliver_window - 1) 900)) [
        | inl due ↦
            let hundredth : f.circ_deliver_window - 1 ≤ 900 = ground (arith, due) in
            rw (some_left, due, sent) (refl, (omega arith, omega arith))
        | inr later ↦
            let above : 900 < f.circ_deliver_window - 1 = ground (arith, later) in
            rw (some_left, later) (refl, (above, omega arith))
      ]

  deliver_stream-window :
      (found : Option ℕ) (stream_id : ℕ) (f : Flow) (s : S)
      → (deliver_stream link found stream_id f s).1.circ_deliver_window ≡ f.circ_deliver_window
  unfolding deliver_stream
  deliver_stream-window none stream_id f s = refl
  deliver_stream-window (some i) stream_id f s =
      let w = (get_or f.streams i blank_stream).deliver_window in
      let sent = works s (cell_relay f.circuit_id 5 stream_id none 0) in
      elim (Bool-cases (w == 0)) [
        | inl empty ↦ rw (empty) refl
        | inr some_left ↦ elim (Bool-cases (leb (w - 1) 0)) [
          | inl due ↦ rw (some_left, due, sent) refl
          | inr later ↦ rw (some_left, later) refl
        ]
      ]

  -- With a link that takes every cell, the circuit's delivery window stays above 900 and at most 1000,
  -- whatever cells are delivered, those of streams too; a cell of the circuit itself is then never
  -- refused.
  pub maybe_send_sendme_lem :
      (f : Flow) (s : S) (stream_id : ℕ)
      → IsDelivering f
      → IsDelivering (circuit_maybe_send_sendme link f s stream_id).1
        × (stream_id ≡ 0 → (circuit_maybe_send_sendme link f s stream_id).0 ≡ true)
  unfolding circuit_maybe_send_sendme IsDelivering
  maybe_send_sendme_lem f s stream_id d = elim (Bool-cases (stream_id == 0)) [
    | inl whole ↦ let (ok, kept) = deliver_circuit_lem f s d in rw (whole) (kept, λ e. ok)
    | inr other ↦
        let same = deliver_stream-window (find_stream stream_id f.streams) stream_id f s in
        rw (other) (
          (omega (arith, same, d.0), omega (arith, same, d.1)),
          λ e. absurd (ground (arith, other)),
        )
  ]
