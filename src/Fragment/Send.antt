-- ===== src/Fragment/Send.antt =====
-- What `moor_fragment_send` hands to its callback, whatever the callback does.
use moor_pq.Base.{
  ℕ, zero, suc, ◌+◌, ◌≤◌, ◌<◌, ◌≡◌, refl, Bool, true, false, ◌||◌, some, List, [], ◌∷◌, ◌++◌,
  length, take, drop, drop-drop, take-append-drop, length-take, length-drop, All, ltb, ◌==◌,
  if◌then◌else◌, u16, arith, Bool-cases, inl, inr, ltb→lt, drop_of_le,
}
use moor_pq.Cell.{relay_data}
use moor_pq.Fragment.{
  Message, Call, Callback, chunk_size, fragment_call, send_loop, fragment_send, fragment_header,
  fragment_data, max_reassembly,
}

-- Calls made in order, up to and including the first that fails.
pub run_calls : {S : Type 0} → Callback S → List Call → S → Bool × S
run_calls cb [] ctx = (true, ctx)
run_calls cb (c ∷ cs) ctx =
    let (sent, ctx') = cb ctx c in
    let rest = run_calls cb cs ctx' in if sent then rest else (false, ctx')

module _ (m : Message) where
  open m use {bytes}

  -- The cells from `offset` on, numbered from `seq`.
  pub fragments : ℕ → ℕ → ℕ → List Call
  fragments zero offset seq = []
  fragments (suc fuel) offset seq =
      let rest = fragments fuel (offset + chunk_size m offset) (u16 (seq + 1)) in
      if ltb offset (length bytes) then fragment_call m offset seq ∷ rest else []

  pub chunk_size_bounds :
      (offset : ℕ)
      → offset < length bytes
      → let chunk = chunk_size m offset in
        (0 < chunk) × (chunk ≤ fragment_data) × (offset + chunk ≤ length bytes)
  unfolding chunk_size
  chunk_size_bounds offset h = ground arith

  pub fragments_end : (fuel offset seq : ℕ) → length bytes ≤ offset → fragments fuel offset seq ≡ []
  unfolding fragments
  fragments_end zero offset seq h = refl
  fragments_end (suc fuel) offset seq h = ground arith

  pub fragments_next :
      (fuel offset seq : ℕ)
      → offset < length bytes
      → fragments (suc fuel) offset seq
        ≡ fragment_call m offset seq ∷ fragments fuel (offset + chunk_size m offset) (u16 (seq + 1))
  unfolding fragments
  fragments_next fuel offset seq h = ground arith

  send_loop_lem :
      {S : Type 0} (cb : Callback S) (fuel offset seq : ℕ) (ctx : S)
      → offset ≤ length bytes
      → length bytes < fuel + offset
      → send_loop m cb fuel offset seq ctx ≡ some (run_calls cb (fragments fuel offset seq) ctx)
  unfolding send_loop run_calls fragments
  send_loop_lem cb zero offset seq ctx g h = absurd (omega arith)
  send_loop_lem cb (suc fuel) offset seq ctx g h = ground (
    arith,
    chunk_size_bounds offset,
    send_loop_lem cb fuel (offset + chunk_size m offset) (u16 (seq + 1))
        (cb ctx (fragment_call m offset seq)).1,
  )

  -- The cells of a whole payload.
  abbrev pub all_fragments : List Call
  all_fragments = fragments (suc (length bytes)) 0 0

  abbrev pub whole_call : Call
  whole_call = record {
    circuit_id = m.circuit_id;
    relay_cmd = m.relay_cmd;
    stream_id = m.stream_id;
    bytes = m.bytes;
    len = length bytes;
  }

  -- The send always ends. It refuses an empty payload and one of more than 4096 bytes with no call;
  -- hands a payload that fits a cell over whole, in one call; and else makes the calls of
  -- `all_fragments` in order, up to the first that fails, whose failure it reports.
  pub fragment_send_lem :
      {S : Type 0} (cb : Callback S) (ctx : S)
      → fragment_send m cb ctx
        ≡ some (
            if length bytes == 0 || ltb max_reassembly (length bytes)
            then (false, ctx)
            else if ltb relay_data (length bytes)
            then run_calls cb all_fragments ctx
            else cb ctx whole_call)
  unfolding fragment_send
  fragment_send_lem cb ctx = ground (arith, send_loop_lem cb (suc (length bytes)) 0 0 ctx)

  -- The bytes of the payload that a cell carries.
  abbrev pub carried : Call → List ℕ
  carried c = drop fragment_header c.bytes

  pub carried_all : List Call → List ℕ
  carried_all [] = []
  carried_all (c ∷ cs) = carried c ++ carried_all cs

  carried-fragment_call :
      (offset seq : ℕ)
      → carried (fragment_call m offset seq) ≡ take (chunk_size m offset) (drop offset bytes)
  unfolding fragment_call
  carried-fragment_call offset seq = refl

  carried_all-fragments :
      (fuel offset seq : ℕ)
      → offset ≤ length bytes
      → length bytes < fuel + offset
      → carried_all (fragments fuel offset seq) ≡ drop offset bytes
  unfolding carried_all fragments
  carried_all-fragments zero offset seq g h = absurd (omega arith)
  carried_all-fragments (suc fuel) offset seq g h = ground (
    arith,
    chunk_size_bounds offset,
    carried-fragment_call offset seq,
    carried_all-fragments fuel (offset + chunk_size m offset) (u16 (seq + 1)),
    drop-drop (chunk_size m offset) offset (offset + chunk_size m offset) bytes,
    take-append-drop (chunk_size m offset) (drop offset bytes),
    drop_of_le offset bytes,
  )

  -- What every cell must be for the relay to take it: its length is the number of its bytes, and
  -- they fit the data array of a relay cell.
  abbrev pub Fits : Call → Type 0
  Fits c = (length c.bytes ≡ c.len) × (c.len ≤ relay_data)

  fragment_call-Fits : (offset seq : ℕ) → offset < length bytes → Fits (fragment_call m offset seq)
  unfolding fragment_call
  fragment_call-Fits offset seq h = omega (
    arith,
    chunk_size_bounds offset h,
    length-take (chunk_size m offset) (drop offset bytes),
    length-drop offset bytes,
  )

  fragments-Fits :
      (fuel offset seq : ℕ) → offset ≤ length bytes → All Fits (fragments fuel offset seq)
  unfolding fragments
  fragments-Fits zero offset seq g = tt
  fragments-Fits (suc fuel) offset seq g = elim (Bool-cases (ltb offset (length bytes))) [
    | inl more ↦
        let h = ltb→lt offset (length bytes) more in
        rw more (
          fragment_call-Fits offset seq h,
          fragments-Fits fuel (offset + chunk_size m offset) (u16 (seq + 1))
              (chunk_size_bounds offset h).2,
        )
    | inr done ↦ rw done tt
  ]

  -- The fragments of a payload carry it whole and in order, and each fits a relay cell.
  pub all_fragments_lem : (carried_all all_fragments ≡ bytes) × All Fits all_fragments
  all_fragments_lem = (
    carried_all-fragments (suc (length bytes)) 0 0 (omega arith) (omega arith),
    fragments-Fits (suc (length bytes)) 0 0 (omega arith),
  )
