-- ===== src/Cell/Layout.antt =====
-- Where the fields of a relay payload stand in the cell, for src/cell.c's pack and unpack.
use moor_pq.Base.{
  ℕ, min, ◌-◌, ◌^◌, ◌≤◌, ◌<◌, ◌≡◌, refl, sym, ap, ◌∙◌, List, ◌∷◌, ◌++◌, append_assoc, length,
  length-append, length-take, length-zeros, take, drop, take-append, drop-append, drop-zeros, zeros,
  take_all, write_at, write_at-append, write_at-zero, get_or-append, be16-put16, put16, u8, arith,
}
use moor_pq.Cell.{
  RelayPayload, relay_pack, relay_pack_header, relay_unpack, relay_unpack_length, relay_data,
  cell_payload,
}

-- What the C types say of the struct.
pub record IsRelay (r : RelayPayload) : Type 0 where
  pub command : r.relay_command < 256
  pub recognized : r.recognized < 2 ^ 16
  pub stream : r.stream_id < 2 ^ 16
  pub count : r.data_length < 2 ^ 16
  pub digest_size : length r.digest ≡ 4
  pub body_size : length r.body ≡ relay_data

abbrev pub head_bytes : RelayPayload → List ℕ
head_bytes r = u8 r.relay_command ∷ put16 r.recognized ++ put16 r.stream_id

-- The eleven bytes before the data.
abbrev pub header_bytes : RelayPayload → List ℕ
header_bytes r = head_bytes r ++ (r.digest ++ put16 r.data_length)

write_header :
    (head digest len : List ℕ)
    → length head ≡ 5
    → length digest ≡ 4
    → length len ≡ 2
    → write_at 9 len (write_at 5 digest (write_at 0 head (zeros 509)))
      ≡ (head ++ (digest ++ len)) ++ zeros 498
write_header head digest len hh hd hl =
    rw
      (
        write_at-zero head (zeros 509),
        drop-zeros (length head) 509 504 (omega arith),
        write_at-append 5 digest head (zeros 504) (omega arith),
        drop-zeros (length digest) 504 500 (omega arith),
        ← append_assoc head digest (zeros 500),
        write_at-append 9 len (head ++ digest) (zeros 500)
            (omega (arith, length-append head digest)),
        drop-zeros (length len) 500 498 (omega arith),
      )
      (simp append_assoc)

pub relay_pack_header_lem :
    (r : RelayPayload) → IsRelay r → relay_pack_header r ≡ header_bytes r ++ zeros 498
unfolding relay_pack_header
relay_pack_header_lem r v =
    rw (take_all 4 r.digest (omega arith))
      (write_header (head_bytes r) r.digest (put16 r.data_length) refl v.digest_size refl)

pub length-header_bytes : (r : RelayPayload) → IsRelay r → length (header_bytes r) ≡ 11
length-header_bytes r v = omega (arith, length-append r.digest (put16 r.data_length))

write_data :
    (head body : List ℕ) (len : ℕ)
    → length head ≡ 11
    → length body ≡ 498
    → len ≤ 498
    → write_at 11 (take len body) (head ++ zeros 498) ≡ head ++ (take len body ++ zeros (498 - len))
write_data head body len hh hb hl = rw (
  write_at-append 11 (take len body) head (zeros 498) (omega arith),
  drop-zeros (length (take len body)) 498 (498 - len) (omega (arith, length-take len body)),
)

-- The whole payload: the header, the data, and zeros up to the end of the cell.
pub relay_pack_lem :
    (r : RelayPayload)
    → IsRelay r
    → r.data_length ≤ relay_data
    → relay_pack r ≡ header_bytes r ++ (take r.data_length r.body ++ zeros (498 - r.data_length))
unfolding relay_pack
relay_pack_lem r v h = ground (
  arith,
  relay_pack_header_lem r v,
  write_data (header_bytes r) r.body r.data_length (length-header_bytes r v) v.body_size h,
)

pub length-relay_pack :
    (r : RelayPayload)
    → IsRelay r
    → r.data_length ≤ relay_data
    → length (relay_pack r) ≡ cell_payload
length-relay_pack r v h = omega (
  arith,
  ap length (relay_pack_lem r v h),
  length-append (header_bytes r) (take r.data_length r.body ++ zeros (498 - r.data_length)),
  length-append (take r.data_length r.body) (zeros (498 - r.data_length)),
  length-header_bytes r v,
  length-take r.data_length r.body,
  length-zeros (498 - r.data_length),
)

-- A length that the data array cannot hold is announced, and no data is copied.
pub relay_pack_oversize :
    (r : RelayPayload)
    → IsRelay r
    → relay_data < r.data_length
    → relay_pack r ≡ header_bytes r ++ zeros 498
unfolding relay_pack
relay_pack_oversize r v h = ground (arith, relay_pack_header_lem r v)

-- What `moor_relay_unpack` finds in a payload with a header of the eleven bytes.
pub relay_unpack_fields :
    (old r : RelayPayload) (rest : List ℕ)
    → IsRelay r
    → let got = relay_unpack old (header_bytes r ++ rest) in
      (got.relay_command ≡ r.relay_command)
      × (got.recognized ≡ r.recognized)
      × (got.stream_id ≡ r.stream_id)
      × (got.digest ≡ r.digest)
      × (got.data_length ≡ min r.data_length 498)
      × (got.body ≡ write_at 0 (take got.data_length rest) old.body)
unfolding relay_unpack relay_unpack_length
relay_unpack_fields old r rest v = ground (
  arith,
  be16-put16 r.recognized v.recognized,
  be16-put16 r.stream_id v.stream,
  be16-put16 r.data_length v.count,
  take-append 4 r.digest (put16 r.data_length ++ rest),
  get_or-append r.digest (put16 r.data_length ++ rest) 0 4 0,
  get_or-append r.digest (put16 r.data_length ++ rest) 1 5 0,
  append_assoc r.digest (put16 r.data_length) rest,
  drop-append 6 (r.digest ++ put16 r.data_length) rest,
  length-append r.digest (put16 r.data_length),
)

-- Data copied to the front of the array, and what stays behind it.
pub front_of_write_at :
    (src dst : List ℕ) (n : ℕ)
    → n ≡ length src
    → (take n (write_at 0 src dst) ≡ src) × (drop n (write_at 0 src dst) ≡ drop n dst)
front_of_write_at src dst n h = rw (write_at-zero src dst) (
  take-append n src (drop (length src) dst) h,
  drop-append n src (drop (length src) dst) h ∙ ap (λ k. drop k dst) (sym h),
)
