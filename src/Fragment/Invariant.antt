-- ===== src/Fragment/Invariant.antt =====
-- No byte of a fragment cell is written outside a reassembly buffer, whatever arrives.
use moor_pq.Base.{
  ℕ, ◌+◌, ◌-◌, ◌≤◌, ◌≡◌, ◌∙◌, List, map, All, All-set, All-get_or, All-map, All-replicate,
  length-replicate, length-map, length-set, length-zeros, length, set, take, drop, length-take,
  length-write_at, ltb, arith, Bool-cases, inl, inr,
}
use moor_pq.Fragment.{
  Slot, State, Fragment, Verdict, refused, waiting, complete, blank_slot, expire_slot, accept,
  append_payload, receive_fragment, fragment_receive, parse_fragment, open_slot, reassembly_init,
  max_pending, max_reassembly, fragment_header,
}
use moor_pq.Fragment.Slots.{receive_cases, accept_cases, Takes, closed_slot}

pub record IsSlot (s : Slot) : Type 0 where
  pub buffer_size : length s.buffer ≡ max_reassembly
  pub in_buffer : s.received ≤ max_reassembly
  pub total : s.expected_total ≤ max_reassembly

pub record IsState (slots : State) : Type 0 where
  pub count : length slots ≡ max_pending
  pub each : All IsSlot slots

-- What a caller may rely on: the command and the length that the cell announced, and as many bytes.
abbrev pub Delivers : Fragment → Verdict → Type 0
Delivers f refused = Unit {0}
Delivers f waiting = Unit {0}
Delivers f (complete cmd out len) =
    (cmd ≡ f.inner_cmd) × (len ≡ f.total_len) × (length out ≡ len) × (len ≤ max_reassembly)

append_payload-IsSlot :
    (s : Slot) (f : Fragment)
    → IsSlot s
    → length f.payload ≤ f.payload_len
    → s.received + f.payload_len ≤ max_reassembly
    → IsSlot (append_payload s f)
unfolding append_payload
append_payload-IsSlot s f v h g = record {
  buffer_size = length-write_at s.received f.payload s.buffer (omega arith) ∙ v.buffer_size;
  in_buffer = g;
  total = v.total;
}

open_slot-IsSlot :
    (f : Fragment) (stream_id now : ℕ)
    → f.total_len ≤ max_reassembly
    → IsSlot (open_slot f stream_id now)
unfolding open_slot
open_slot-IsSlot f stream_id now h = record {
  buffer_size = length-zeros max_reassembly;
  in_buffer = omega arith;
  total = h;
}

set-IsState :
    (slots : State) (i : ℕ) (s : Slot) → IsState slots → IsSlot s → IsState (set slots i s)
set-IsState slots i s v w = record {
  count = length-set slots i s ∙ v.count;
  each = All-set IsSlot slots i s v.each w;
}

-- The state stays valid, and what is delivered is what was announced.
abbrev Kept : Fragment → Verdict × State → Type 0
Kept f r = Delivers f r.0 × IsState r.1

accept-Kept :
    (slots : State) (i : ℕ) (s : Slot) (f : Fragment) (cmd : ℕ)
    → IsState slots
    → IsSlot s
    → length f.payload ≤ f.payload_len
    → Kept f (accept slots i s f cmd)
unfolding append_payload
accept-Kept slots i s f cmd v w h =
    accept_cases slots i s f cmd (Kept f) w.in_buffer (tt, v)
      (λ t. (tt, set-IsState slots i _ v (grown t))) (λ t. (tt, set-IsState slots i _ v (closed t)))
      (λ t full. (done t full, set-IsState slots i _ v (closed t)))
  where
    grown : Takes s f → IsSlot (append_payload s f)
    grown t = append_payload-IsSlot s f w h t.room

    closed : Takes s f → IsSlot (closed_slot s f)
    closed t = record {
      buffer_size = (grown t).buffer_size;
      in_buffer = (grown t).in_buffer;
      total = (grown t).total;
    }

    done :
        (t : Takes s f)
        → (append_payload s f).received ≡ (append_payload s f).expected_total
        → Delivers f (
            complete
              (append_payload s f).inner_relay_cmd
              (take (append_payload s f).received (append_payload s f).buffer)
              (append_payload s f).received)
    done t full = ground (
      arith,
      length-take (append_payload s f).received (append_payload s f).buffer,
      (grown t).buffer_size,
    )

expire-IsState : (now : ℕ) (slots : State) → IsState slots → IsState (map (expire_slot now) slots)
expire-IsState now slots v = record {
  count = length-map (expire_slot now) slots ∙ v.count;
  each = All-map IsSlot IsSlot (expire_slot now) slots (kept now) v.each;
}
  where
    kept : (now : ℕ) (s : Slot) → IsSlot s → IsSlot (expire_slot now s)
    kept now s w = unfold expire_slot in ground arith

receive_fragment-Kept :
    (slots : State) (f : Fragment) (stream_id cmd now : ℕ)
    → IsState slots
    → length f.payload ≤ f.payload_len
    → Kept f (receive_fragment slots f stream_id cmd now)
receive_fragment-Kept slots f stream_id cmd now v h =
    receive_cases slots f stream_id cmd now (Kept f) (tt, v)
      (λ i lt _ _. accept-Kept slots i _ f cmd v (All-get_or IsSlot slots i blank_slot v.each lt) h)
      λ i _ _ small.
        let w = open_slot-IsSlot f stream_id now small in
        accept-Kept (set slots i (open_slot f stream_id now)) i (open_slot f stream_id now) f cmd
          (set-IsState slots i (open_slot f stream_id now) v w) w h

-- The state that `moor_reassembly_init` leaves is valid.
pub reassembly_init-IsState : IsState reassembly_init
unfolding reassembly_init
reassembly_init-IsState = record {
  count = length-replicate max_pending blank_slot;
  each = All-replicate IsSlot max_pending blank_slot (record {
    buffer_size = length-zeros max_reassembly;
    in_buffer = omega arith;
    total = omega arith;
  });
}

-- Whatever bytes arrive, with whatever length, command and times: the eight buffers keep their
-- size, no slot holds more than a buffer, and a payload that is handed out is as long as the cell
-- announced, carries the command that it announced, and is at most 4096 bytes.
pub fragment_receive-IsState :
    (slots : State) (d : List ℕ) (d_len stream_id cmd now later : ℕ)
    → IsState slots
    → let (verdict, slots') = fragment_receive slots d d_len stream_id cmd now later in
      Delivers (parse_fragment d d_len) verdict × IsState slots'
unfolding fragment_receive
fragment_receive-IsState slots d d_len stream_id cmd now later v =
    elim (Bool-cases (ltb d_len fragment_header)) [
      | inl short ↦ rw short (tt, v)
      | inr long ↦ rw long (
          receive_fragment-Kept (map (expire_slot now) slots) (parse_fragment d d_len) stream_id cmd
            later (expire-IsState now slots v) (payload d d_len))
    ]
  where
    payload :
        (d : List ℕ) (d_len : ℕ)
        → length (parse_fragment d d_len).payload ≤ (parse_fragment d d_len).payload_len
    payload d d_len =
        unfold parse_fragment in
        omega (arith, length-take (d_len - fragment_header) (drop fragment_header d))
