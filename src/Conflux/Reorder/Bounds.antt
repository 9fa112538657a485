-- ===== src/Conflux/Reorder/Bounds.antt =====
-- Every call of src/conflux.c keeps the bounds of the reorder buffer.
use moor_pq.Base.{
  ℕ, ◌+◌, ◌-◌, ◌≤◌, ◌<◌, ◌≡◌, ◌≢◌, ◌∙◌, false, Option, none, some, List, length, length-map,
  length-take, length-replicate, length-zeros, get_or, set, take, ltb, leb, ◌==◌, All-map,
  All-get_or, All-replicate, arith, lt_or_le, Bool-cases, Option-cases, inl, inr,
}
use moor_pq.Sodium.{Sodium}
use moor_pq.Conflux.{
  ConfluxSet, Buffered, Circuit, conflux_create, reorder_buf, entry_data, uint64_max, blank_reorder,
}
use moor_pq.Conflux.Reorder.{
  is_buffered, expire_entry, expire_reorder, accept_seq, from_leg, conflux_receive, conflux_deliver,
  find_seq, Delivery, nothing, exhausted, delivered,
}
use moor_pq.Conflux.Reorder.Buffer.{
  IsEntry, IsBuffer, find_seq_bound, buffer_entry-IsBuffer, set-IsBuffer,
}

with_next :
    (cset : ConfluxSet) (next : ℕ) → IsBuffer cset → IsBuffer (record cset { next_recv_seq = next })
with_next cset next v = record { size = v.size; each = v.each }

accept_seq-IsBuffer :
    (cset : ConfluxSet) (seq stream_id : ℕ) (bytes : List ℕ) (len later : ℕ)
    → IsBuffer cset
    → IsBuffer (accept_seq cset seq stream_id bytes len later).1
unfolding accept_seq
accept_seq-IsBuffer cset seq stream_id bytes len later v =
    elim (Bool-cases (seq == cset.next_recv_seq)) [
      | inl next ↦ elim (Bool-cases (cset.next_recv_seq == uint64_max)) [
        | inl last ↦ simp (next, last) v
        | inr more ↦ simp (next, more) (with_next cset (cset.next_recv_seq + 1) v)
      ]
      | inr other ↦ elim (Bool-cases (ltb seq cset.next_recv_seq)) [
        | inl old ↦ simp (other, old) v
        | inr ahead ↦ elim (Bool-cases (leb reorder_buf (seq - cset.next_recv_seq))) [
          | inl far ↦ simp (other, ahead, far) v
          | inr near ↦ elim (Bool-cases (is_buffered seq cset.reorder)) [
            | inl twice ↦ simp (other, ahead, near, twice) v
            | inr fresh ↦
                simp (other, ahead, near, fresh)
                  (buffer_entry-IsBuffer cset seq stream_id bytes len later v)
          ]
        ]
      ]
    ]

expire_entry-IsEntry :
    (timeout now : ℕ) (e : Buffered) → IsEntry e → IsEntry (expire_entry timeout now e)
unfolding expire_entry
expire_entry-IsEntry timeout now e w = ground arith

expire_reorder-IsBuffer :
    (cset : ConfluxSet) (now : ℕ) → IsBuffer cset → IsBuffer (expire_reorder cset now)
unfolding expire_reorder
expire_reorder-IsBuffer cset now v = record {
  size = length-map _ cset.reorder ∙ v.size;
  each = All-map IsEntry IsEntry _ cset.reorder (λ e w. expire_entry-IsEntry _ now e w) v.each;
}

-- A call that receives a cell keeps the reorder buffer of a set well-formed: 32 entries of 490 bytes each, of
-- which none claims more than its 490 bytes, whatever comes in with whatever length.
pub conflux_receive-IsBuffer :
    (na : Sodium) (cset : ConfluxSet) (from : Option ℕ) (enc_seq stream_id : ℕ) (bytes : List ℕ)
    (len now later : ℕ)
    → IsBuffer cset
    → IsBuffer (conflux_receive na cset from enc_seq stream_id bytes len now later).1
unfolding conflux_receive
conflux_receive-IsBuffer na cset from enc_seq stream_id bytes len now later v =
    let w = expire_reorder-IsBuffer cset now v in
    elim (Bool-cases (from_leg from (expire_reorder cset now).legs)) [
      | inl known ↦
          simp known (accept_seq-IsBuffer (expire_reorder cset now) _ stream_id bytes len later w)
      | inr stranger ↦ simp stranger w
    ]

pub conflux_create-IsBuffer :
    (first : Circuit) (key : List ℕ) (random : ℕ) → IsBuffer (conflux_create first key random)
unfolding conflux_create
conflux_create-IsBuffer first key random = record {
  size = length-replicate reorder_buf blank_reorder;
  each =
      All-replicate IsEntry reorder_buf blank_reorder
        (record { array = length-zeros entry_data; count = omega arith });
}

-- What a caller may rely on of a delivery into `room` bytes.
abbrev pub Within : ℕ → Delivery → Type 0
Within room nothing = Unit {0}
Within room exhausted = Unit {0}
Within room (delivered stream_id bytes len) =
    (length bytes ≡ len) × (len ≤ room) × (len ≤ entry_data)

-- The ways of `conflux_deliver`.
module _ (cset : ConfluxSet) (room : ℕ) where
  pub deliver_none :
      find_seq cset.next_recv_seq cset.reorder ≡ none → conflux_deliver cset room ≡ (nothing, cset)
  unfolding conflux_deliver
  deliver_none missing = ground arith

  module _ (i : ℕ) (found : find_seq cset.next_recv_seq cset.reorder ≡ some i) where
    abbrev here : Buffered
    here = get_or cset.reorder i blank_reorder

    abbrev freed : List Buffered
    freed = set cset.reorder i (record here { valid = false })

    pub deliver_tight : room < here.data_len → conflux_deliver cset room ≡ (nothing, cset)
    unfolding conflux_deliver
    deliver_tight tight = ground arith

    deliver_last :
        here.data_len ≤ room
        → cset.next_recv_seq ≡ uint64_max
        → conflux_deliver cset room ≡ (exhausted, record cset { reorder = freed })
    unfolding conflux_deliver
    deliver_last fits last = ground arith

    pub deliver_more :
        here.data_len ≤ room
        → cset.next_recv_seq ≢ uint64_max
        → conflux_deliver cset room ≡ (
          delivered here.stream_id (take here.data_len here.bytes) here.data_len,
          record cset { reorder = freed; next_recv_seq = cset.next_recv_seq + 1 },
        )
    unfolding conflux_deliver
    deliver_more fits more = ground arith

-- A delivery writes no more bytes than the caller has room for and no more than 490, says how many
-- they are, and keeps the buffer's bounds.
pub conflux_deliver-IsBuffer :
    (cset : ConfluxSet) (room : ℕ)
    → IsBuffer cset
    → let (d, cset') = conflux_deliver cset room in Within room d × IsBuffer cset'
conflux_deliver-IsBuffer cset room v =
    elim (Option-cases (find_seq cset.next_recv_seq cset.reorder)) [
      | inl missing ↦ rw (deliver_none cset room missing) (tt, v)
      | inr (i, found) ↦
          let e = get_or cset.reorder i blank_reorder in
          let w =
            All-get_or IsEntry cset.reorder i blank_reorder v.each
              (find_seq_bound cset.next_recv_seq cset.reorder i found) in
          let free_entry : IsEntry (record e { valid = false }) = record {
            array = w.array;
            count = w.count;
          } in
          elim (lt_or_le room e.data_len) [
            | inl tight ↦ rw (deliver_tight cset room i found tight) (tt, v)
            | inr fits ↦ elim (Bool-cases (cset.next_recv_seq == uint64_max)) [
              | inl last ↦
                  rw (deliver_last cset room i found fits (ground arith))
                    (tt, set-IsBuffer cset i cset.next_recv_seq _ v free_entry)
              | inr more ↦ rw (deliver_more cset room i found fits (ground arith)) (
                (omega (arith, length-take e.data_len e.bytes, w.array, w.count), fits, w.count),
                set-IsBuffer cset i (cset.next_recv_seq + 1) _ v free_entry,
              )
            ]
          ]
    ]
