-- ===== src/Flow/Progress.antt =====
-- `moor_circuit_send_data` of src/circuit.c gets on as long as a window is open.
use moor_pq.Base.{
  ℕ, zero, suc, ◌+◌, ◌≤◌, ◌<◌, ◌≡◌, refl, Bool, true, false, Option, some, List, [], ◌∷◌, length,
  drop, ltb, if◌then◌else◌, not, arith, Bool-cases, inl, inr, length-drop, ap, ◌∙◌, ◌*◌, take, ◌⊎◌,
}
use moor_pq.Cell.{Cell, cell_relay, relay_data}
use moor_pq.Flow.{
  Flow, Link, Sent, whole, partly, count_cell, is_blocked, data_loop, circuit_send_data,
  find_stream, relay_data_cmd,
}

-- As many bytes as go into the next cell.
abbrev chunk_of : List ℕ → ℕ
chunk_of bytes = if ltb relay_data (length bytes) then relay_data else length bytes

chunk_left :
    (b : ℕ) (bytes : List ℕ) (fuel : ℕ)
    → length (b ∷ bytes) ≤ suc fuel
    → length (drop (chunk_of (b ∷ bytes)) (b ∷ bytes)) ≤ fuel
chunk_left b bytes fuel enough =
    let few : 0 < chunk_of (b ∷ bytes) = ground arith in
    omega (arith, length-drop (chunk_of (b ∷ bytes)) (b ∷ bytes), few)

-- The cells of some bytes, of which `fuel` bounds the number.
unfoldable pub data_cells : ℕ → ℕ → ℕ → List ℕ → List Cell
data_cells circuit_id stream_id fuel [] = []
data_cells circuit_id stream_id zero (b ∷ bytes) = []
data_cells circuit_id stream_id (suc fuel) (b ∷ bytes) =
    cell_relay circuit_id relay_data_cmd stream_id (some (b ∷ bytes)) (chunk_of (b ∷ bytes))
    ∷ data_cells circuit_id stream_id fuel (drop (chunk_of (b ∷ bytes)) (b ∷ bytes))

some_bytes :
    (circuit_id stream_id fuel k : ℕ) (bytes : List ℕ)
    → k < length (data_cells circuit_id stream_id fuel bytes)
    → 0 < length bytes
unfolding data_cells
some_bytes circuit_id stream_id fuel k [] more = absurd (omega arith)
some_bytes circuit_id stream_id fuel k (b ∷ bytes) more = omega arith

-- A cell that is not the last is full.
full_chunk :
    (b : ℕ) (bytes : List ℕ)
    → 0 < length (drop (chunk_of (b ∷ bytes)) (b ∷ bytes))
    → chunk_of (b ∷ bytes) ≡ relay_data
full_chunk b bytes left = ground (arith, length-drop (chunk_of (b ∷ bytes)) (b ∷ bytes), left)

-- The link after some cells.
unfoldable pub transmit_all : {S : Type 0} → Link S → List Cell → S → S
transmit_all link [] s = s
transmit_all link (cell ∷ cells) s = transmit_all link cells (link.transmit s cell).1

-- Whether no window keeps the first cell back, or nothing is to be sent.
unfoldable pub may_start : Flow → ℕ → Bool
may_start f stream_id = not (is_blocked f (find_stream stream_id f.streams))

module _ {S : Type 0} (link : Link S) (clock : ℕ → ℕ) (stream_id : ℕ)
    (works : (s : S) (cell : Cell) → (link.transmit s cell).0 ≡ true) where
  -- What a call on these bytes leaves, with `sent` bytes behind it: all cells are out; or the first `k`, which
  -- are full, and a window is closed.
  abbrev pub Done : Option ℕ → ℕ → Flow → S → List ℕ → ℕ → Sent × Flow × S → Type 0
  Done stream fuel f s bytes sent r =
      let cells = data_cells f.circuit_id stream_id fuel bytes in
      ((r.0 ≡ whole) × (r.2 ≡ transmit_all link cells s))
      ⊎ ((k : ℕ) × (k < length cells)
          × (r.0 ≡ partly (sent + k * relay_data))
          × (is_blocked r.1 stream ≡ true)
          × (r.2 ≡ transmit_all link (take k cells) s))

  later_Done :
      (stream : Option ℕ) (fuel : ℕ) (f f' : Flow) (s : S) (b : ℕ) (bytes : List ℕ) (sent : ℕ)
      (r : Sent × Flow × S)
      → f'.circuit_id ≡ f.circuit_id
      → let chunk = chunk_of (b ∷ bytes) in
        let cell = cell_relay f.circuit_id relay_data_cmd stream_id (some (b ∷ bytes)) chunk in
        Done stream fuel f' (link.transmit s cell).1 (drop chunk (b ∷ bytes)) (sent + chunk) r
        → Done stream (suc fuel) f s (b ∷ bytes) sent r
  unfolding data_cells transmit_all
  later_Done stream fuel f f' s b bytes sent r same (inl (all, out)) = inl (
    all,
    out
        ∙ ap
            (λ c.
              transmit_all link
                (data_cells c stream_id fuel (drop (chunk_of (b ∷ bytes)) (b ∷ bytes)))
                (link.transmit s (
                  cell_relay f.circuit_id relay_data_cmd stream_id (some (b ∷ bytes))
                    (chunk_of (b ∷ bytes)))).1)
            same,
  )
  later_Done stream fuel f f' s b bytes sent r same (inr (k, more, part, closed, out)) =
      let rest = drop (chunk_of (b ∷ bytes)) (b ∷ bytes) in
      let full = full_chunk b bytes (some_bytes f'.circuit_id stream_id fuel k rest more) in
      inr (
        suc k,
        omega (arith, ap (λ c. length (data_cells c stream_id fuel rest)) same, more),
        part ∙ ap partly (omega (arith, full)),
        closed,
        out
            ∙ ap
                (λ c.
                  transmit_all link (take k (data_cells c stream_id fuel rest))
                    (link.transmit s (
                      cell_relay f.circuit_id relay_data_cmd stream_id (some (b ∷ bytes))
                        (chunk_of (b ∷ bytes)))).1)
                same,
      )

  loop_gets_on :
      (stream : Option ℕ) (fuel : ℕ) (f : Flow) (s : S) (bytes : List ℕ) (sent : ℕ)
      → length bytes ≤ fuel
      → 0 < sent
      → Done stream fuel f s bytes sent (data_loop link clock stream_id stream fuel f s bytes sent)
  unfolding data_loop data_cells transmit_all count_cell
  loop_gets_on stream fuel f s [] sent enough some_sent = inl (refl, refl)
  loop_gets_on stream zero f s (b ∷ bytes) sent enough some_sent = absurd (omega arith)
  loop_gets_on stream (suc fuel) f s (b ∷ bytes) sent enough some_sent =
      let chunk = chunk_of (b ∷ bytes) in
      let cell = cell_relay f.circuit_id relay_data_cmd stream_id (some (b ∷ bytes)) chunk in
      let s' = (link.transmit s cell).1 in
      let f' = count_cell f stream (link.forward_digest s') (clock sent) in
      let later : ltb 0 sent ≡ true = ground arith in
      elim (Bool-cases (is_blocked f stream)) [
        | inl blocked ↦
            rw (blocked, later) (inr (0, omega arith, ap partly (omega arith), blocked, refl))
        | inr open_yet ↦
            rw (open_yet, works s cell)
              (later_Done stream fuel f f' s b bytes sent
                (data_loop link clock stream_id stream fuel f' s' (drop chunk (b ∷ bytes))
                  (sent + chunk))
                refl
                (loop_gets_on stream fuel f' s' (drop chunk (b ∷ bytes)) (sent + chunk)
                  (chunk_left b bytes fuel enough) (omega arith)))
      ]

  -- With a link that takes every cell, and when no window keeps the first cell back: either all bytes are
  -- sent, in their cells and in order, and the result says so; or the first `k` cells of them are, at
  -- least one, a window is closed after them, and the result is the number of bytes that they carry.
  pub send_data_gets_on :
      (f : Flow) (s : S) (bytes : List ℕ)
      → may_start f stream_id ≡ true
      → let (result, f', s') = circuit_send_data link clock stream_id f s bytes in
        let cells = data_cells f.circuit_id stream_id (length bytes) bytes in
        ((result ≡ whole) × (s' ≡ transmit_all link cells s))
        ⊎ ((k : ℕ) × (0 < k)
            × (k < length cells)
            × (result ≡ partly (k * relay_data))
            × (is_blocked f' (find_stream stream_id f.streams) ≡ true)
            × (s' ≡ transmit_all link (take k cells) s))
  unfolding circuit_send_data data_loop may_start data_cells transmit_all count_cell
  send_data_gets_on f s [] start = inl (refl, refl)
  send_data_gets_on f s (b ∷ bytes) start =
      let stream = find_stream stream_id f.streams in
      let chunk = chunk_of (b ∷ bytes) in
      let cell = cell_relay f.circuit_id relay_data_cmd stream_id (some (b ∷ bytes)) chunk in
      let s' = (link.transmit s cell).1 in
      let f' = count_cell f stream (link.forward_digest s') (clock 0) in
      let free : is_blocked f stream ≡ false = ground (arith, start) in
      let rest = drop chunk (b ∷ bytes) in
      rw (free, works s cell)
        (elim (loop_gets_on stream (length bytes) f' s' rest (0 + chunk)
          (chunk_left b bytes (length bytes) (omega arith)) (ground arith)) [
            | inl (all, out) ↦ inl (all, out)
            | inr (k, more, part, closed, out) ↦
                let full =
                  full_chunk b bytes
                    (some_bytes f.circuit_id stream_id (length bytes) k rest more) in
                inr (
                  suc k,
                  omega arith,
                  omega (arith, more),
                  part ∙ ap partly (omega (arith, full)),
                  closed,
                  out,
                )
          ])
