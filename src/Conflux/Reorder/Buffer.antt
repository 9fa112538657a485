-- ===== src/Conflux/Reorder/Buffer.antt =====
-- The reorder buffer keeps its bounds, and hands out what was put into it.
use moor_pq.Base.{
  ℕ, zero, suc, ◌≤◌, ◌<◌, ◌≡◌, ◌∙◌, true, false, none, some, List, [], ◌∷◌, length, length-set,
  length-take, length-write_at, get_or, set, take, write_at, All, All-set, All-get_or, arith,
  lt_or_le, Option-cases, inl, inr,
}
use moor_pq.Conflux.{ConfluxSet, Buffered, reorder_buf, entry_data, blank_reorder}
use moor_pq.Conflux.Reorder.{is_buffered, buffer_entry, find_seq, find_invalid, refused, buffered}

pub record IsEntry (e : Buffered) : Type 0 where
  pub array : length e.bytes ≡ entry_data
  pub count : e.data_len ≤ entry_data

pub record IsBuffer (cset : ConfluxSet) : Type 0 where
  pub size : length cset.reorder ≡ reorder_buf
  pub each : All IsEntry cset.reorder

pub find_invalid_bound : (es : List Buffered) (i : ℕ) → find_invalid es ≡ some i → i < length es
unfolding find_invalid
find_invalid_bound [] i h = cc
find_invalid_bound (e ∷ es) i h = elim (Option-cases (find_invalid es)) [
  | inl full ↦ ground arith
  | inr (j, found) ↦ let ih = find_invalid_bound es j found in ground arith
]

pub find_seq_bound :
    (seq : ℕ) (es : List Buffered) (i : ℕ) → find_seq seq es ≡ some i → i < length es
unfolding find_seq
find_seq_bound seq [] i h = cc
find_seq_bound seq (e ∷ es) i h = elim (Option-cases (find_seq seq es)) [
  | inl full ↦ ground arith
  | inr (j, found) ↦ let ih = find_seq_bound seq es j found in ground arith
]

-- A number that stands nowhere else is found where it is written.
pub find_seq-open :
    (seq : ℕ) (es : List Buffered) (i : ℕ) (e : Buffered)
    → is_buffered seq es ≡ false
    → i < length es
    → e.valid ≡ true
    → e.seq ≡ seq
    → find_seq seq (set es i e) ≡ some i
unfolding find_seq is_buffered
find_seq-open seq [] i e fresh lt v s = absurd (omega arith)
find_seq-open seq (x ∷ es) zero e fresh lt v s = ground arith
find_seq-open seq (x ∷ es) (suc i) e fresh lt v s =
    let ih = find_seq-open seq es i e (ground arith) (omega arith) v s in ground arith

-- The two ways in which a cell is put into the buffer, or not.
pub buffer_entry_full :
    (cset : ConfluxSet) (seq stream_id : ℕ) (bytes : List ℕ) (len later : ℕ)
    → find_invalid cset.reorder ≡ none
    → buffer_entry cset seq stream_id bytes len later ≡ (refused, cset)
unfolding buffer_entry
buffer_entry_full cset seq stream_id bytes len later full = ground arith

-- The entry that a cell leaves at `i`.
abbrev pub kept : ConfluxSet → ℕ → ℕ → ℕ → List ℕ → ℕ → ℕ → Buffered
kept cset i seq stream_id bytes len later =
    let e = get_or cset.reorder i blank_reorder in
    record {
      seq = seq;
      stream_id = stream_id;
      bytes = write_at 0 (take len bytes) e.bytes;
      data_len = len;
      valid = true;
      buffered_at = later;
    }

pub buffer_entry_room :
    (cset : ConfluxSet) (seq stream_id : ℕ) (bytes : List ℕ) (len later i : ℕ)
    → find_invalid cset.reorder ≡ some i
    → len ≤ entry_data
    → buffer_entry cset seq stream_id bytes len later ≡ (
      buffered,
      record cset { reorder = set cset.reorder i (kept cset i seq stream_id bytes len later) },
    )
unfolding buffer_entry
buffer_entry_room cset seq stream_id bytes len later i found small = ground arith

pub buffer_entry_long :
    (cset : ConfluxSet) (seq stream_id : ℕ) (bytes : List ℕ) (len later i : ℕ)
    → find_invalid cset.reorder ≡ some i
    → entry_data < len
    → buffer_entry cset seq stream_id bytes len later ≡ (
      refused,
      record cset {
        reorder =
            set cset.reorder i
              (record (get_or cset.reorder i blank_reorder) { seq = seq; stream_id = stream_id });
      },
    )
unfolding buffer_entry
buffer_entry_long cset seq stream_id bytes len later i found long = ground arith

kept-IsEntry :
    (cset : ConfluxSet) (i seq stream_id : ℕ) (bytes : List ℕ) (len later : ℕ)
    → IsBuffer cset
    → i < length cset.reorder
    → len ≤ entry_data
    → IsEntry (kept cset i seq stream_id bytes len later)
kept-IsEntry cset i seq stream_id bytes len later v lt small =
    let w = All-get_or IsEntry cset.reorder i blank_reorder v.each lt in
    record {
      array =
          length-write_at 0 (take len bytes) (get_or cset.reorder i blank_reorder).bytes
            (omega (arith, length-take len bytes, w.array))
          ∙ w.array;
      count = small;
    }

pub set-IsBuffer :
    (cset : ConfluxSet) (i next : ℕ) (e : Buffered)
    → IsBuffer cset
    → IsEntry e
    → IsBuffer (record cset { reorder = set cset.reorder i e; next_recv_seq = next })
set-IsBuffer cset i next e v w = record {
  size = length-set cset.reorder i e ∙ v.size;
  each = All-set IsEntry cset.reorder i e v.each w;
}

pub buffer_entry-IsBuffer :
    (cset : ConfluxSet) (seq stream_id : ℕ) (bytes : List ℕ) (len later : ℕ)
    → IsBuffer cset
    → IsBuffer (buffer_entry cset seq stream_id bytes len later).1
buffer_entry-IsBuffer cset seq stream_id bytes len later v =
    elim (Option-cases (find_invalid cset.reorder)) [
      | inl full ↦ rw (buffer_entry_full cset seq stream_id bytes len later full) v
      | inr (i, found) ↦
          let lt = find_invalid_bound cset.reorder i found in
          let w = All-get_or IsEntry cset.reorder i blank_reorder v.each lt in
          elim (lt_or_le entry_data len) [
            | inl long ↦ rw (buffer_entry_long cset seq stream_id bytes len later i found long) (
                set-IsBuffer cset i cset.next_recv_seq _ v
                  (record { array = w.array; count = w.count }))
            | inr small ↦ rw (buffer_entry_room cset seq stream_id bytes len later i found small) (
                set-IsBuffer cset i cset.next_recv_seq _ v
                  (kept-IsEntry cset i seq stream_id bytes len later v lt small))
          ]
    ]
