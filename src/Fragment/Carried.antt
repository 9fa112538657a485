-- ===== src/Fragment/Carried.antt =====
-- What a slot of src/fragment.c holds when the first fragments of one sender have come in.
use moor_pq.Base.{
  ℕ, ◌+◌, ◌-◌, ◌^◌, ◌≤◌, ◌<◌, ◌≡◌, refl, ap, ◌∙◌, true, some, map, length, length-take,
  length-write_at, length-map, length-set, get_or, get_or-set_self, set, take, drop, take_all,
  take-write_at, be16-put16, u16, sub_u64, arith,
}
use moor_pq.Fragment.{
  Message, Slot, State, Fragment, Verdict, waiting, complete, blank_slot, expire_slot, find_active,
  accept, append_payload, parse_fragment, chunk_size, fragment_call, max_reassembly,
  fragment_header, fragment_timeout_ms, relay_fragment, relay_fragment_end,
}
use moor_pq.Fragment.Send.{chunk_size_bounds}
use moor_pq.Fragment.Slots.{Takes, get_or-expire, expire_slot_fresh}
use moor_pq.Fragment.Tracking.{find_active-set, find_active-expire}

accept_waits :
    (slots : State) (i : ℕ) (s : Slot) (f : Fragment) (cmd : ℕ)
    → Takes s f
    → cmd ≡ relay_fragment
    → accept slots i s f cmd ≡ (waiting, set slots i (append_payload s f))
unfolding accept
accept_waits slots i s f cmd t e = ground arith

accept_completes :
    (slots : State) (i : ℕ) (s : Slot) (f : Fragment) (cmd : ℕ)
    → Takes s f
    → cmd ≡ relay_fragment_end
    → s.received + f.payload_len ≡ s.expected_total
    → let s' = append_payload s f in
      (accept slots i s f cmd).0
      ≡ complete s.inner_relay_cmd (take s'.received s'.buffer) s'.received
unfolding accept append_payload
accept_completes slots i s f cmd t e full = ground arith

-- What the header fields must be for the wire to hold them.
pub record IsMessage (m : Message) : Type 0 where
  pub command : m.relay_cmd < 256
  pub id : m.fragment_id < 2 ^ 16
  pub size : length m.bytes ≤ max_reassembly

module _ (m : Message) (v : IsMessage m) where
  open m use {bytes}

  -- The fragment that a receiver reads from a cell.
  abbrev pub fragment_at : ℕ → ℕ → Fragment
  fragment_at offset seq = record {
    frag_id = m.fragment_id;
    seq = seq;
    total_len = length bytes;
    inner_cmd = m.relay_cmd;
    payload = take (chunk_size m offset) (drop offset bytes);
    payload_len = chunk_size m offset;
  }

  pub parse-fragment_call :
      (offset seq : ℕ)
      → offset < length bytes
      → seq < 2 ^ 16
      → let c = fragment_call m offset seq in parse_fragment c.bytes c.len ≡ fragment_at offset seq
  unfolding fragment_call parse_fragment
  parse-fragment_call offset seq h g = ground (
    arith,
    chunk_size_bounds m offset h,
    v.size,
    be16-put16 m.fragment_id v.id,
    be16-put16 seq g,
    be16-put16 (length bytes),
    take_all (u16 (fragment_header + chunk_size m offset) - fragment_header)
        (take (chunk_size m offset) (drop offset bytes)),
    length-take (chunk_size m offset) (drop offset bytes),
    v.command,
  )

  -- A slot that holds the first `offset` bytes, and expects the cell numbered `seq`.
  pub record Carries (start offset seq : ℕ) (s : Slot) : Type 0 where
    pub began : s.started_at ≡ start
    pub active : s.active ≡ true
    pub id : s.fragment_id ≡ m.fragment_id
    pub total : s.expected_total ≡ length bytes
    pub command : s.inner_relay_cmd ≡ m.relay_cmd
    pub next : s.next_seq ≡ seq
    pub count : s.received ≡ offset
    pub buffer_size : length s.buffer ≡ max_reassembly
    pub prefix : take offset s.buffer ≡ take offset bytes

  pub record Holds (start : ℕ) (slots : State) (i offset seq : ℕ) : Type 0 where
    pub found : find_active m.fragment_id slots ≡ some i
    pub inside : i < length slots
    pub carries : Carries start offset seq (get_or slots i blank_slot)

  pub expire-Holds :
      (start now : ℕ) (slots : State) (i offset seq : ℕ)
      → sub_u64 now start ≤ fragment_timeout_ms
      → Holds start slots i offset seq
      → Holds start (map (expire_slot now) slots) i offset seq
  expire-Holds start now slots i offset seq young h =
      let fresh = expire_slot_fresh now (get_or slots i blank_slot) (rw h.carries.began young) in
      record {
        found = find_active-expire m.fragment_id now slots i h.found fresh;
        inside = omega (arith, length-map (expire_slot now) slots, h.inside);
        carries = rw (get_or-expire now i slots, fresh) h.carries;
      }

  Carries-Takes :
      (start offset seq : ℕ) (s : Slot)
      → Carries start offset seq s
      → offset < length bytes
      → Takes s (fragment_at offset seq)
  Carries-Takes start offset seq s c lt =
      omega (arith, chunk_size_bounds m offset lt, v.size, c.total, c.command, c.next, c.count)

  append-Carries :
      (start offset seq : ℕ) (s : Slot)
      → Carries start offset seq s
      → offset < length bytes
      → Carries start
          (offset + chunk_size m offset)
          (u16 (seq + 1))
          (append_payload s (fragment_at offset seq))
  unfolding append_payload
  append-Carries start offset seq s c lt = record {
    began = c.began;
    active = c.active;
    id = c.id;
    total = c.total;
    command = c.command;
    next = ap (λ n. u16 (n + 1)) c.next;
    count = ap (λ n. n + chunk_size m offset) c.count;
    buffer_size = rw c.count (
        length-write_at offset (fragment_at offset seq).payload s.buffer (
          omega (
            arith,
            chunk_size_bounds m offset lt,
            length-take (chunk_size m offset) (drop offset bytes),
            c.buffer_size,
            v.size,
          ))
        ∙ c.buffer_size);
    prefix = rw c.count (
        take-write_at offset (chunk_size m offset) (offset + chunk_size m offset) s.buffer bytes
          refl (omega (arith, chunk_size_bounds m offset lt)) (omega (arith, c.buffer_size, v.size))
          c.prefix);
  }

  -- What one cell must lead to.
  abbrev pub Goes : ℕ → ℕ → ℕ → ℕ → Verdict × State → Type 0
  Goes start i offset seq r =
      (offset + chunk_size m offset < length bytes
        → (r.0 ≡ waiting) × Holds start r.1 i (offset + chunk_size m offset) (u16 (seq + 1)))
      × (length bytes ≤ offset + chunk_size m offset
          → r.0 ≡ complete m.relay_cmd bytes (length bytes))

  set-Holds :
      (start : ℕ) (slots : State) (i offset seq : ℕ) (s : Slot)
      → find_active m.fragment_id slots ≡ some i
      → i < length slots
      → Carries start offset seq s
      → Holds start (set slots i s) i offset seq
  set-Holds start slots i offset seq s found inside c = record {
    found = find_active-set m.fragment_id slots i s found (c.active, c.id);
    inside = omega (arith, length-set slots i s, inside);
    carries = rw (get_or-set_self slots i s blank_slot inside) c;
  }

  call_more :
      (offset seq : ℕ)
      → offset + chunk_size m offset < length bytes
      → (fragment_call m offset seq).relay_cmd ≡ relay_fragment
  unfolding fragment_call
  call_more offset seq h = ground arith

  call_last :
      (offset seq : ℕ)
      → length bytes ≤ offset + chunk_size m offset
      → (fragment_call m offset seq).relay_cmd ≡ relay_fragment_end
  unfolding fragment_call
  call_last offset seq h = ground arith

  pub accept-Goes :
      (start : ℕ) (slots : State) (i offset seq : ℕ) (s : Slot)
      → find_active m.fragment_id slots ≡ some i
      → i < length slots
      → Carries start offset seq s
      → offset < length bytes
      → Goes start i offset seq
          (accept slots i s (fragment_at offset seq) (fragment_call m offset seq).relay_cmd)
  accept-Goes start slots i offset seq s found inside c lt = (
    λ more.
        rw (accept_waits slots i s (fragment_at offset seq) _ takes (call_more offset seq more)) (
          refl,
          set-Holds start slots i (offset + chunk_size m offset) (u16 (seq + 1)) _ found inside
              grown,
        ),
    λ last.
        let r =
          accept_completes slots i s (fragment_at offset seq) _ takes (call_last offset seq last)
            (rw (c.count, c.total) (omega (arith, chunk_size_bounds m offset lt, last))) in
        let whole : offset + chunk_size m offset ≡ length bytes =
          omega (arith, chunk_size_bounds m offset lt) in
        r
        ∙ rw (grown.count, grown.prefix, whole, take_all (length bytes) bytes (omega arith))
            (ap (λ cmd. complete cmd bytes (length bytes)) c.command),
  )
    where
      takes : Takes s (fragment_at offset seq)
      takes = Carries-Takes start offset seq s c lt

      grown :
          Carries start
            (offset + chunk_size m offset)
            (u16 (seq + 1))
            (append_payload s (fragment_at offset seq))
      grown = append-Carries start offset seq s c lt
