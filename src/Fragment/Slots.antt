-- ===== src/Fragment/Slots.antt =====
-- What the two searches of `moor_fragment_receive` find, and which slots a call leaves alone.
use moor_pq.Base.{
  ℕ, suc, ◌+◌, ◌≤◌, ◌<◌, ◌≡◌, ◌≢◌, refl, sym, ap, ◌∙◌, true, false, Option, none, some, List, [],
  ◌∷◌, map, not, ◌&&◌, ◌||◌, length, length-set, get_or, get_or-set_ne, get_or-map, take, sub_u64,
  be16, set, ◌==◌, ltb, arith, Option-cases, Bool-cases, inl, inr,
}
use mathlib.Core.Option
use moor_pq.Fragment.{
  Slot, State, Fragment, Verdict, refused, waiting, complete, max_reassembly, relay_fragment_end,
  fragment_header, fragment_timeout_ms, blank_slot, expire_slot, find_active, find_free, accept,
  receive_fragment, fragment_receive, parse_fragment, open_slot, append_payload,
}

-- `some i` is an index at which `P` holds of the slot.
abbrev pub Finds : (Slot → Type 0) → State → Option ℕ → Type 0
Finds P slots none = Unit {0}
Finds P slots (some i) = (i < length slots) × P (get_or slots i blank_slot)

Finds-suc :
    (P : Slot → Type 0) (s : Slot) (slots : State) (o : Option ℕ)
    → Finds P slots o
    → Finds P (s ∷ slots) (Option.map suc o)
Finds-suc P s slots none h = tt
Finds-suc P s slots (some i) h = (omega arith, h.1)

abbrev pub Serves : ℕ → Slot → Type 0
Serves frag_id s = (s.active ≡ true) × (s.fragment_id ≡ frag_id)

abbrev pub IsFree : Slot → Type 0
IsFree s = s.active ≡ false

pub find_active_lem :
    (frag_id : ℕ) (slots : State) → Finds (Serves frag_id) slots (find_active frag_id slots)
unfolding find_active
find_active_lem frag_id [] = tt
find_active_lem frag_id (s ∷ slots) = elim (Bool-cases (s.active && s.fragment_id == frag_id)) [
  | inl hit ↦ rw hit (ground arith)
  | inr miss ↦ rw miss (
      Finds-suc (Serves frag_id) s slots (find_active frag_id slots)
        (find_active_lem frag_id slots))
]

pub find_free_lem : (slots : State) → Finds IsFree slots (find_free slots)
unfolding find_free
find_free_lem [] = tt
find_free_lem (s ∷ slots) = elim (Bool-cases s.active) [
  | inl busy ↦ simp busy (Finds-suc IsFree s slots (find_free slots) (find_free_lem slots))
  | inr free ↦ simp free (ground arith)
]

abbrev pub closed_slot : Slot → Fragment → Slot
closed_slot s f = record (append_payload s f) { active = false }

-- What holds where a slot takes the payload.
pub record Takes (s : Slot) (f : Fragment) : Type 0 where
  pub in_order : f.seq ≡ s.next_seq
  pub same_total : f.total_len ≡ s.expected_total
  pub same_cmd : f.inner_cmd ≡ s.inner_relay_cmd
  pub room : s.received + f.payload_len ≤ max_reassembly

-- The four ways of `accept`: it refuses with no change, waits for more, drops the slot for a length
-- that is not the announced one, or completes.
module _ (slots : State) (i : ℕ) (s : Slot) (f : Fragment) (cmd : ℕ) where
  pub accept_cases {ℓ} :
      (P : Verdict × State → Type ℓ)
      → s.received ≤ max_reassembly
      → P (refused, slots)
      → (Takes s f → P (waiting, set slots i (append_payload s f)))
      → (Takes s f → P (refused, set slots i (closed_slot s f)))
      → (Takes s f
          → (append_payload s f).received ≡ (append_payload s f).expected_total
          → P (
            complete
                (append_payload s f).inner_relay_cmd
                (take (append_payload s f).received (append_payload s f).buffer)
                (append_payload s f).received,
            set slots i (closed_slot s f),
          ))
      → P (accept slots i s f cmd)
  unfolding accept
  accept_cases P bound refuse wait drop done = elim (Bool-cases (f.seq == s.next_seq)) [
    | inr bad ↦ simp bad refuse
    | inl in_order ↦
        elim (Bool-cases
          (not (f.total_len == s.expected_total) || not (f.inner_cmd == s.inner_relay_cmd))) [
            | inl bad ↦ simp (in_order, bad) refuse
            | inr same ↦ elim (Bool-cases (ltb (sub_u64 max_reassembly s.received) f.payload_len)) [
              | inl bad ↦ simp (in_order, same, bad) refuse
              | inr room ↦
                  let takes : Takes s f = ground arith in
                  elim (Bool-cases (cmd == relay_fragment_end)) [
                    | inr more ↦ simp (in_order, same, room, more) (wait takes)
                    | inl last ↦
                        elim (Bool-cases
                          ((append_payload s f).received == (append_payload s f).expected_total)) [
                            | inr short ↦ simp (in_order, same, room, last, short) (drop takes)
                            | inl full ↦
                                simp (in_order, same, room, last, full) (done takes (ground arith))
                          ]
                  ]
            ]
          ]
  ]

-- A call writes to the slot that it was given, and to no other.
accept_others :
    (slots : State) (i j : ℕ) (s : Slot) (f : Fragment) (cmd : ℕ)
    → i ≢ j
    → get_or (accept slots i s f cmd).1 j blank_slot ≡ get_or slots j blank_slot
unfolding accept
accept_others slots i j s f cmd h = ground (
  arith,
  get_or-set_ne slots i j (append_payload s f) blank_slot h,
  get_or-set_ne slots i j (record (append_payload s f) { active = false }) blank_slot h,
)

length-accept :
    (slots : State) (i : ℕ) (s : Slot) (f : Fragment) (cmd : ℕ)
    → length (accept slots i s f cmd).1 ≡ length slots
unfolding accept
length-accept slots i s f cmd = ground (
  arith,
  length-set slots i (append_payload s f),
  length-set slots i (record (append_payload s f) { active = false }),
)

-- The three ways of `receive_fragment`: it refuses, goes on with the slot that serves the stream,
-- or opens a free slot.
module _ (slots : State) (f : Fragment) (stream_id cmd now : ℕ) where
  pub receive_cases {ℓ} :
      (P : Verdict × State → Type ℓ)
      → P (refused, slots)
      → ((i : ℕ)
          → i < length slots
          → Serves f.frag_id (get_or slots i blank_slot)
          → f.total_len ≤ max_reassembly
          → P (accept slots i (get_or slots i blank_slot) f cmd))
      → ((i : ℕ)
          → i < length slots
          → IsFree (get_or slots i blank_slot)
          → f.total_len ≤ max_reassembly
          → P (
              accept (set slots i (open_slot f stream_id now)) i (open_slot f stream_id now) f cmd))
      → P (receive_fragment slots f stream_id cmd now)
  unfolding receive_fragment
  receive_cases P refuse old new =
      elim (Bool-cases (ltb max_reassembly f.total_len || f.total_len == 0)) [
        | inl bad ↦ rw bad refuse
        | inr good ↦ elim (Option-cases (find_active f.frag_id slots)) [
          | inr (i, e) ↦
              let found = rw e at (find_active_lem f.frag_id slots) in
              rw (good, e) (old i found.0 found.1 (ground arith))
          | inl e ↦ elim (Bool-cases (f.seq == 0)) [
            | inr late ↦ rw (good, e, late) refuse
            | inl first ↦ elim (Option-cases (find_free slots)) [
              | inl full ↦ rw (good, e, first, full) refuse
              | inr (i, free) ↦
                  let found = rw free at (find_free_lem slots) in
                  rw (good, e, first, free) (new i found.0 found.1 (ground arith))
            ]
          ]
        ]
      ]

  -- A cell of one fragment stream leaves every slot in which another stream is being put together
  -- as it was.
  receive_fragment_others :
      (j : ℕ)
      → (get_or slots j blank_slot).active ≡ true
      → (get_or slots j blank_slot).fragment_id ≢ f.frag_id
      → get_or (receive_fragment slots f stream_id cmd now).1 j blank_slot
        ≡ get_or slots j blank_slot
  receive_fragment_others j busy other =
      receive_cases (λ r. get_or r.1 j blank_slot ≡ get_or slots j blank_slot) refl
        (λ i _ serves _.
          accept_others slots i j _ f cmd
            (λ e. other (ap (λ k. (get_or slots k blank_slot).fragment_id) (sym e) ∙ serves.1)))
        λ i _ free _.
          let ne : i ≢ j = λ e. cc (ap (λ k. (get_or slots k blank_slot).active) e, busy, free) in
          accept_others (set slots i (open_slot f stream_id now)) i j (open_slot f stream_id now) f
            cmd ne
          ∙ get_or-set_ne slots i j (open_slot f stream_id now) blank_slot ne

pub get_or-expire :
    (now j : ℕ) (slots : State)
    → get_or (map (expire_slot now) slots) j blank_slot
      ≡ expire_slot now (get_or slots j blank_slot)
unfolding expire_slot
get_or-expire now j slots = get_or-map (expire_slot now) slots j blank_slot

pub expire_slot_fresh :
    (now : ℕ) (s : Slot) → sub_u64 now s.started_at ≤ fragment_timeout_ms → expire_slot now s ≡ s
unfolding expire_slot
expire_slot_fresh now s h = ground arith

-- Whatever cell comes in, it changes nothing in a slot that is in use for another fragment stream
-- and has not timed out: streams may be interleaved.
pub fragment_receive_others :
    (slots : State) (d : List ℕ) (d_len stream_id cmd now later j : ℕ)
    → (get_or slots j blank_slot).active ≡ true
    → sub_u64 now (get_or slots j blank_slot).started_at ≤ fragment_timeout_ms
    → (get_or slots j blank_slot).fragment_id ≢ be16 (get_or d 0 0) (get_or d 1 0)
    → get_or (fragment_receive slots d d_len stream_id cmd now later).1 j blank_slot
      ≡ get_or slots j blank_slot
unfolding fragment_receive parse_fragment
fragment_receive_others slots d d_len stream_id cmd now later j busy young other =
    let same =
      get_or-expire now j slots ∙ expire_slot_fresh now (get_or slots j blank_slot) young in
    elim (Bool-cases (ltb d_len fragment_header)) [
      | inl short ↦ rw short refl
      | inr long ↦ rw long (
          receive_fragment_others (map (expire_slot now) slots) (parse_fragment d d_len) stream_id
            cmd later j (rw same busy) (rw same other)
          ∙ same)
    ]
