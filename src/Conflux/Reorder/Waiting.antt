-- ===== src/Conflux/Reorder/Waiting.antt =====
-- A cell in the reorder buffer of src/conflux.c waits there until the set waits for its number.
use moor_pq.Base.{
  ℕ, zero, suc, ◌+◌, ◌≤◌, ◌<◌, ◌≡◌, ◌≢◌, ◌⊎◌, ◌∙◌, refl, sym, ap, Bool, true, false, ◌&&◌, Option,
  none, some, List, [], ◌∷◌, map, length, get_or, set, ltb, ◌==◌, if◌then◌else◌, arith, lt_or_le,
  Bool-cases, Option-cases, inl, inr,
}
use mathlib.Core.Path.{subst}
use moor_pq.Sodium.{Sodium}
use moor_pq.Conflux.{ConfluxSet, Buffered, entry_data, blank_reorder, uint64_max}
use moor_pq.Conflux.Feistel.{feistel_decrypt}
use moor_pq.Conflux.Reorder.{
  is_buffered, expire_entry, expired_any, expire_reorder, buffer_entry, accept_seq, conflux_receive,
  from_leg, conflux_deliver, find_seq, find_invalid,
}
use moor_pq.Conflux.Reorder.Buffer.{kept, buffer_entry_room, buffer_entry_full, buffer_entry_long}
use moor_pq.Conflux.Reorder.Bounds.{deliver_none, deliver_tight, deliver_more}
use moor_pq.Conflux.Reorder.Ascent.{Event, arrives, asks, accept_seq-Advances, deliver_lem}

abbrev is_cell : ℕ → Buffered → Bool
is_cell seq e = e.valid && e.seq == seq

-- The first valid entry with a number.
unfoldable pub look : ℕ → List Buffered → Option Buffered
look seq [] = none
look seq (e ∷ es) = if e.valid && e.seq == seq then some e else look seq es

pub look-find_seq :
    (seq : ℕ) (es : List Buffered) (e : Buffered)
    → look seq es ≡ some e
    → (i : ℕ) × (find_seq seq es ≡ some i) × (get_or es i blank_reorder ≡ e)
unfolding look find_seq
look-find_seq seq [] e h = absurd (ground (arith, h))
look-find_seq seq (x ∷ es) e h = elim (Bool-cases (is_cell seq x)) [
  | inl same ↦ (0, rw (same) refl, ground (arith, h, same))
  | inr other ↦
      let (i, found, there) = look-find_seq seq es e (rw (other) at h) in
      (suc i, rw (other, found) refl, there)
]

pub look-open :
    (seq : ℕ) (es : List Buffered) (i : ℕ) (e : Buffered)
    → is_buffered seq es ≡ false
    → i < length es
    → e.valid ≡ true
    → e.seq ≡ seq
    → look seq (set es i e) ≡ some e
unfolding look is_buffered
look-open seq [] i e fresh lt v s = absurd (omega arith)
look-open seq (x ∷ es) zero e fresh lt v s = ground arith
look-open seq (x ∷ es) (suc i) e fresh lt v s =
    let ih = look-open seq es i e (ground arith) (omega arith) v s in ground arith

look-is_buffered :
    (seq : ℕ) (es : List Buffered) (e : Buffered) → look seq es ≡ some e → is_buffered seq es ≡ true
unfolding look is_buffered
look-is_buffered seq [] e h = absurd (ground (arith, h))
look-is_buffered seq (x ∷ es) e h = elim (Bool-cases (is_cell seq x)) [
  | inl same ↦ rw (same) refl
  | inr other ↦ rw (other) (look-is_buffered seq es e (rw (other) at h))
]

look-set :
    (seq : ℕ) (es : List Buffered) (j : ℕ) (x : Buffered)
    → is_cell seq (get_or es j blank_reorder) ≡ false
    → is_cell seq x ≡ false
    → look seq (set es j x) ≡ look seq es
unfolding look
look-set seq [] j x old new = refl
look-set seq (y ∷ es) zero x old new = rw (old, new) refl
look-set seq (y ∷ es) (suc j) x old new = rw (look-set seq es j x old new) refl

find_invalid-valid :
    (es : List Buffered) (i : ℕ)
    → find_invalid es ≡ some i
    → (get_or es i blank_reorder).valid ≡ false
unfolding find_invalid
find_invalid-valid [] i h = absurd (ground (arith, h))
find_invalid-valid (e ∷ es) i h = elim (Option-cases (find_invalid es)) [
  | inl full ↦ ground arith
  | inr (j, found) ↦ let ih = find_invalid-valid es j found in ground arith
]

find_seq-is_cell :
    (seq : ℕ) (es : List Buffered) (i : ℕ)
    → find_seq seq es ≡ some i
    → is_cell seq (get_or es i blank_reorder) ≡ true
unfolding find_seq
find_seq-is_cell seq [] i h = absurd (ground (arith, h))
find_seq-is_cell seq (e ∷ es) i h = elim (Option-cases (find_seq seq es)) [
  | inl full ↦ ground arith
  | inr (j, found) ↦ let ih = find_seq-is_cell seq es j found in ground arith
]

-- No entry of the buffer has been in it for too long.
abbrev pub NothingLost : ConfluxSet → ℕ → Type 0
NothingLost cset now =
    expired_any (if ltb 0 cset.reorder_timeout_ms then cset.reorder_timeout_ms else 10000) now
      cset.reorder
    ≡ false

map-expire_entry :
    (timeout now : ℕ) (es : List Buffered)
    → expired_any timeout now es ≡ false
    → map (expire_entry timeout now) es ≡ es
unfolding expired_any expire_entry
map-expire_entry timeout now [] h = refl
map-expire_entry timeout now (e ∷ es) h =
    let ih = map-expire_entry timeout now es (ground arith) in ground (arith, ih)

expire_reorder-kept :
    (cset : ConfluxSet) (now : ℕ) → NothingLost cset now → expire_reorder cset now ≡ cset
unfolding expire_reorder
expire_reorder-kept cset now h =
    rw
      (
        h,
        map-expire_entry (if ltb 0 cset.reorder_timeout_ms then cset.reorder_timeout_ms else 10000)
            now cset.reorder h,
      )
      refl

module _ (na : Sodium) where
  -- The set after some events.
  unfoldable pub set_after : ConfluxSet → List Event → ConfluxSet
  set_after cset [] = cset
  set_after cset (arrives from enc_seq stream_id bytes len now later ∷ events) =
      set_after (conflux_receive na cset from enc_seq stream_id bytes len now later).1 events
  set_after cset (asks room ∷ events) = set_after (conflux_deliver cset room).1 events

  -- At none of the events an entry of the buffer is lost.
  unfoldable pub NoneLost : ConfluxSet → List Event → Type 0
  NoneLost cset [] = Unit {0}
  NoneLost cset (arrives from enc_seq stream_id bytes len now later ∷ events) =
      NothingLost cset now
      × NoneLost (conflux_receive na cset from enc_seq stream_id bytes len now later).1 events
  NoneLost cset (asks room ∷ events) = NoneLost (conflux_deliver cset room).1 events

module _ (seq : ℕ) (e : Buffered) (small : seq < uint64_max) where
  -- The cell is there as long as the set does not wait for a later one.
  abbrev pub Waits : ConfluxSet → Type 0
  Waits cset = cset.next_recv_seq ≤ seq → look seq cset.reorder ≡ some e

  buffer_entry-Waits :
      (cset : ConfluxSet) (n stream_id : ℕ) (bytes : List ℕ) (len later : ℕ)
      → is_buffered n cset.reorder ≡ false
      → look seq cset.reorder ≡ some e
      → look seq (buffer_entry cset n stream_id bytes len later).1.reorder ≡ some e
  buffer_entry-Waits cset n stream_id bytes len later fresh there =
      let apart : n ≢ seq = λ same. absurd (
        ground (
          arith,
          fresh,
          look-is_buffered n cset.reorder e (ap (λ m. look m cset.reorder) same ∙ there),
        )) in
      elim (Option-cases (find_invalid cset.reorder)) [
        | inl full ↦ rw (buffer_entry_full cset n stream_id bytes len later full) there
        | inr (i, free) ↦
            let unused = find_invalid-valid cset.reorder i free in
            let old : is_cell seq (get_or cset.reorder i blank_reorder) ≡ false = rw unused refl in
            elim (lt_or_le entry_data len) [
              | inl long ↦
                  rw (buffer_entry_long cset n stream_id bytes len later i free long)
                    (look-set seq cset.reorder i _ old (rw unused refl) ∙ there)
              | inr fits ↦ rw (buffer_entry_room cset n stream_id bytes len later i free fits) (
                  look-set seq cset.reorder i (kept cset i n stream_id bytes len later) old
                    (ground (arith, apart))
                  ∙ there)
            ]
      ]

  accept_cases :
      (cset : ConfluxSet) (n stream_id : ℕ) (bytes : List ℕ) (len later : ℕ)
      → let r = accept_seq cset n stream_id bytes len later in
        ((r.1.reorder ≡ cset.reorder) × (cset.next_recv_seq ≤ r.1.next_recv_seq))
        ⊎ ((is_buffered n cset.reorder ≡ false)
            × (r ≡ buffer_entry cset n stream_id bytes len later))
  unfolding accept_seq
  accept_cases cset n stream_id bytes len later = ground arith

  accept_seq-Waits :
      (cset : ConfluxSet) (n stream_id : ℕ) (bytes : List ℕ) (len later : ℕ)
      → Waits cset
      → Waits (accept_seq cset n stream_id bytes len later).1
  accept_seq-Waits cset n stream_id bytes len later waits low =
      let onward = (accept_seq-Advances cset n stream_id bytes len later).0 in
      let there = waits (omega arith) in
      elim (accept_cases cset n stream_id bytes len later) [
        | inl (same, _) ↦ ap (look seq) same ∙ there
        | inr (fresh, called) ↦
            ap (λ r. look seq r.1.reorder) called
            ∙ buffer_entry-Waits cset n stream_id bytes len later fresh there
      ]

  receive-Waits :
      (na : Sodium) (cset : ConfluxSet) (from : Option ℕ) (enc_seq stream_id : ℕ) (bytes : List ℕ)
      (len now later : ℕ)
      → NothingLost cset now
      → Waits cset
      → Waits (conflux_receive na cset from enc_seq stream_id bytes len now later).1
  unfolding conflux_receive
  receive-Waits na cset from enc_seq stream_id bytes len now later kept waits =
      let same = expire_reorder-kept cset now kept in
      elim (Bool-cases (from_leg from (expire_reorder cset now).legs)) [
        | inr stranger ↦ rw (stranger) (subst Waits (sym same) waits)
        | inl known ↦ rw (known) (
            accept_seq-Waits (expire_reorder cset now) (feistel_decrypt na cset.seq_key enc_seq)
              stream_id bytes len later (subst Waits (sym same) waits))
      ]

  deliver-Waits : (cset : ConfluxSet) (room : ℕ) → Waits cset → Waits (conflux_deliver cset room).1
  deliver-Waits cset room waits low =
      let onward = (deliver_lem cset room).0 in
      let there = waits (omega arith) in
      elim (Option-cases (find_seq cset.next_recv_seq cset.reorder)) [
        | inl missing ↦ ap (λ r. look seq r.1.reorder) (deliver_none cset room missing) ∙ there
        | inr (i, found) ↦
            let x = get_or cset.reorder i blank_reorder in
            elim (lt_or_le room x.data_len) [
              | inl tight ↦
                  ap (λ r. look seq r.1.reorder) (deliver_tight cset room i found tight) ∙ there
              | inr fits ↦
                  let more : cset.next_recv_seq ≢ uint64_max = λ last. absurd (omega arith) in
                  let called = deliver_more cset room i found fits more in
                  let next : (conflux_deliver cset room).1.next_recv_seq ≡ cset.next_recv_seq + 1 =
                    ap (λ r. r.1.next_recv_seq) called in
                  let apart : cset.next_recv_seq ≢ seq = λ same. absurd (omega arith) in
                  let its_own = find_seq-is_cell cset.next_recv_seq cset.reorder i found in
                  ap (λ r. look seq r.1.reorder) called
                  ∙ look-set seq cset.reorder i (record x { valid = false })
                      (ground (arith, its_own, apart)) refl
                  ∙ there
            ]
      ]

  pub set_after-Waits :
      (na : Sodium) (cset : ConfluxSet) (events : List Event)
      → NoneLost na cset events
      → Waits cset
      → Waits (set_after na cset events)
  unfolding set_after NoneLost
  set_after-Waits na cset [] kept waits = waits
  set_after-Waits na cset (arrives from enc_seq stream_id bytes len now later ∷ events)
        (kept, later_kept) waits =
      set_after-Waits na (conflux_receive na cset from enc_seq stream_id bytes len now later).1
        events later_kept
        (receive-Waits na cset from enc_seq stream_id bytes len now later kept waits)
  set_after-Waits na cset (asks room ∷ events) kept waits =
      set_after-Waits na (conflux_deliver cset room).1 events kept (deliver-Waits cset room waits)
