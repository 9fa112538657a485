-- ===== src/Fragment/Roundtrip.antt =====
-- A payload that `moor_fragment_send` cuts up comes out of `moor_fragment_receive` whole.
use moor_pq.Base.{
  ℕ, zero, suc, ◌+◌, ◌^◌, ◌≤◌, ◌<◌, ◌≡◌, refl, ap, ◌∙◌, false, none, some, List, [], ◌∷◌, map,
  length, length-zeros, length-set, get_or, set, u16, sub_u64, ltb, arith, lt_or_le, inl, inr,
}
use moor_pq.Fragment.{
  Message, Call, State, Fragment, Verdict, refused, waiting, complete, blank_slot, expire_slot,
  find_active, find_free, accept, receive_fragment, fragment_receive, open_slot, chunk_size,
  fragment_call, max_reassembly, fragment_header, fragment_timeout_ms,
}
use moor_pq.Fragment.Send.{
  fragments, all_fragments, chunk_size_bounds, fragments_end, fragments_next,
}
use moor_pq.Fragment.Slots.{find_free_lem}
use moor_pq.Fragment.Tracking.{find_active-open}
use moor_pq.Fragment.Carried.{
  IsMessage, Goes, Holds, fragment_at, parse-fragment_call, accept-Goes, expire-Holds,
}

-- The cells of one sender as they come in, the k-th at the time `clock k`, until one is not merely
-- waited behind: what that one gives, and the cells after it.
pub receive_all : (ℕ → ℕ) → ℕ → State → List Call → Verdict × List Call
receive_all clock k slots [] = (waiting, [])
receive_all clock k slots (c ∷ cs) =
    let (v, slots') =
      fragment_receive slots c.bytes c.len c.stream_id c.relay_cmd (clock k) (clock k) in
    let rest = receive_all clock (k + 1) slots' cs in
    elim v [
      | waiting ↦ rest
      | refused ↦ (refused, cs)
      | complete cmd out len ↦ (complete cmd out len, cs)
    ]

module _ (clock : ℕ → ℕ) (k : ℕ) (slots : State) (c : Call) (cs : List Call) where
  abbrev first : Verdict × State
  first = fragment_receive slots c.bytes c.len c.stream_id c.relay_cmd (clock k) (clock k)

  go_on :
      first.0 ≡ waiting → receive_all clock k slots (c ∷ cs) ≡ receive_all clock (k + 1) first.1 cs
  unfolding receive_all
  go_on e = ground arith

  ends :
      (cmd : ℕ) (out : List ℕ) (len : ℕ)
      → first.0 ≡ complete cmd out len
      → receive_all clock k slots (c ∷ cs) ≡ (complete cmd out len, cs)
  unfolding receive_all
  ends cmd out len e = ground arith

-- A cell whose stream has a slot, and one that opens a slot, go to `accept`.
receive_known :
    (slots : State) (i : ℕ) (f : Fragment) (stream_id cmd now : ℕ)
    → 0 < f.total_len
    → f.total_len ≤ max_reassembly
    → find_active f.frag_id slots ≡ some i
    → receive_fragment slots f stream_id cmd now ≡ accept slots i (get_or slots i blank_slot) f cmd
unfolding receive_fragment
receive_known slots i f stream_id cmd now pos small found = ground arith

receive_new :
    (slots : State) (i : ℕ) (f : Fragment) (stream_id cmd now : ℕ)
    → 0 < f.total_len
    → f.total_len ≤ max_reassembly
    → f.seq ≡ 0
    → find_active f.frag_id slots ≡ none
    → find_free slots ≡ some i
    → receive_fragment slots f stream_id cmd now
      ≡ accept (set slots i (open_slot f stream_id now)) i (open_slot f stream_id now) f cmd
unfolding receive_fragment
receive_new slots i f stream_id cmd now pos small first fresh free = ground arith

module _ (m : Message) (v : IsMessage m) where
  open m use {bytes}

  -- One cell, come in at `now`.
  abbrev step : State → ℕ → ℕ → ℕ → Verdict × State
  step slots offset seq now =
      let c = fragment_call m offset seq in
      fragment_receive slots c.bytes c.len c.stream_id c.relay_cmd now now

  step_lem :
      (slots : State) (offset seq now : ℕ)
      → offset < length bytes
      → seq < 2 ^ 16
      → let c = fragment_call m offset seq in
        step slots offset seq now
        ≡ receive_fragment
            (map (expire_slot now) slots)
            (fragment_at m v offset seq)
            c.stream_id
            c.relay_cmd
            now
  unfolding fragment_receive
  step_lem slots offset seq now lt g = rw (long, parse-fragment_call m v offset seq lt g) refl
    where
      long : ltb (fragment_call m offset seq).len fragment_header ≡ false
      long = unfold fragment_call in ground (arith, chunk_size_bounds m offset lt)

  step-Goes :
      (start : ℕ) (slots : State) (i offset seq now : ℕ)
      → sub_u64 now start ≤ fragment_timeout_ms
      → Holds m v start slots i offset seq
      → offset < length bytes
      → seq < 2 ^ 16
      → Goes m v start i offset seq (step slots offset seq now)
  step-Goes start slots i offset seq now young h lt g =
      let h' = expire-Holds m v start now slots i offset seq young h in
      rw
        (
          step_lem slots offset seq now lt g,
          receive_known (map (expire_slot now) slots) i (fragment_at m v offset seq) _ _ now
              (omega arith) v.size h'.found,
        )
        (accept-Goes m v start (map (expire_slot now) slots) i offset seq _ h'.found h'.inside
          h'.carries lt)

  open-Goes :
      (slots : State) (i now : ℕ)
      → 0 < length bytes
      → find_active m.fragment_id (map (expire_slot now) slots) ≡ none
      → find_free (map (expire_slot now) slots) ≡ some i
      → Goes m v now i 0 0 (step slots 0 0 now)
  unfolding open_slot fragment_call
  open-Goes slots i now lt fresh free =
      let s = open_slot (fragment_at m v 0 0) m.stream_id now in
      let opened = rw free at (find_free_lem (map (expire_slot now) slots)) in
      rw
        (
          step_lem slots 0 0 now lt (omega arith),
          receive_new (map (expire_slot now) slots) i (fragment_at m v 0 0) _ _ now lt v.size refl
              fresh free,
        )
        (accept-Goes m v now (set (map (expire_slot now) slots) i s) i 0 0 s
          (find_active-open m.fragment_id (map (expire_slot now) slots) i s fresh opened.0
            (refl, refl))
          (omega (arith, length-set (map (expire_slot now) slots) i s, opened.0))
          (record {
            began = refl;
            active = refl;
            id = refl;
            total = refl;
            command = refl;
            next = refl;
            count = refl;
            buffer_size = length-zeros max_reassembly;
            prefix = refl;
          })
          lt)

  -- The cells of a stream from `offset` on, when the slot holds what came before.
  receive_all-fragments :
      (clock : ℕ → ℕ) (start k fuel : ℕ) (slots : State) (i offset seq : ℕ)
      → ((j : ℕ) → sub_u64 (clock j) start ≤ fragment_timeout_ms)
      → Goes m v start i offset seq (step slots offset seq (clock k))
      → offset < length bytes
      → length bytes < fuel + offset
      → receive_all clock k slots (fragments m fuel offset seq)
        ≡ (complete m.relay_cmd bytes (length bytes), [])
  receive_all-fragments clock start k zero slots i offset seq young goes lt enough =
      absurd (omega arith)
  receive_all-fragments clock start k (suc fuel) slots i offset seq young goes lt enough =
      rw (fragments_next m fuel offset seq lt)
        (elim (lt_or_le (offset + chunk_size m offset) (length bytes)) [
          | inl more ↦
              let (waits, holds) = goes.0 more in
              let slots' = (step slots offset seq (clock k)).1 in
              go_on clock k slots (fragment_call m offset seq) _ waits
              ∙ receive_all-fragments clock start (k + 1) fuel slots' i
                  (offset + chunk_size m offset) (u16 (seq + 1)) young
                  (step-Goes start slots' i (offset + chunk_size m offset) (u16 (seq + 1))
                    (clock (k + 1)) (young (k + 1)) holds more (omega arith))
                  more (omega (arith, chunk_size_bounds m offset lt))
          | inr last ↦
              ends clock k slots (fragment_call m offset seq) _ m.relay_cmd bytes (length bytes)
                (goes.1 last)
              ∙ ap (λ cs. (complete m.relay_cmd bytes (length bytes), cs))
                  (fragments_end m fuel (offset + chunk_size m offset) (u16 (seq + 1)) last)
        ])

  -- A payload that is sent in fragments comes out as it went in, with its command: when the cells
  -- arrive in order, none later than 30 seconds after the first, and when the first finds a free
  -- slot and none that serves its fragment id. It comes out at the last cell.
  pub receive_all-all_fragments :
      (clock : ℕ → ℕ) (slots : State) (i : ℕ)
      → ((j : ℕ) → sub_u64 (clock j) (clock 0) ≤ fragment_timeout_ms)
      → 0 < length bytes
      → find_active m.fragment_id (map (expire_slot (clock 0)) slots) ≡ none
      → find_free (map (expire_slot (clock 0)) slots) ≡ some i
      → receive_all clock 0 slots (all_fragments m)
        ≡ (complete m.relay_cmd bytes (length bytes), [])
  receive_all-all_fragments clock slots i young lt fresh free =
      receive_all-fragments clock (clock 0) 0 (suc (length bytes)) slots i 0 0 young
        (open-Goes slots i (clock 0) lt fresh free) lt (omega arith)
