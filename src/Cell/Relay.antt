-- ===== src/Cell/Relay.antt =====
-- The relay payload is read back as it was written, for src/cell.c's pack, unpack and builder.
use moor_pq.Base.{
  ℕ, zero, suc, ◌-◌, ◌^◌, ◌≤◌, ◌<◌, ◌≡◌, refl, ◌∙◌, List, ◌++◌, length, length-take, length-zeros,
  length-write_at, take, drop, take-append, zeros, take_all, arith, some,
}
use moor_pq.Cell.{
  RelayPayload, relay_pack, relay_unpack, relay_unpack_length, relay_header, cell_relay, relay_fill,
  cell_pack, cell_unpack, cell_relay_cmd, relay_data,
}
use moor_pq.Cell.Wire.{IsCell, cell_unpack-cell_pack}
use moor_pq.Cell.Layout.{
  IsRelay, relay_pack_lem, length-relay_pack, relay_pack_oversize, relay_unpack_fields,
  front_of_write_at,
}

-- Whatever struct a received payload is read into, the fields are those that were packed, the data
-- is what was packed, and the rest of the array is as it was.
pub relay_unpack-relay_pack :
    (old r : RelayPayload)
    → IsRelay r
    → r.data_length ≤ relay_data
    → let got = relay_unpack old (relay_pack r) in
      (got.relay_command ≡ r.relay_command)
      × (got.recognized ≡ r.recognized)
      × (got.stream_id ≡ r.stream_id)
      × (got.digest ≡ r.digest)
      × (got.data_length ≡ r.data_length)
      × (take r.data_length got.body ≡ take r.data_length r.body)
      × (drop r.data_length got.body ≡ drop r.data_length old.body)
relay_unpack-relay_pack old r v h = ground (
  arith,
  relay_pack_lem r v h,
  relay_unpack_fields old r (take r.data_length r.body ++ zeros (498 - r.data_length)) v,
  length-take r.data_length r.body,
  take-append r.data_length (take r.data_length r.body) (zeros (498 - r.data_length)),
  front_of_write_at (take r.data_length r.body) old.body r.data_length,
)

-- A struct with a length field past the array is sent with no data, and is received as 498 zeros.
pub relay_unpack_oversize :
    (old r : RelayPayload)
    → IsRelay r
    → relay_data < r.data_length
    → let got = relay_unpack old (relay_pack r) in
      (got.data_length ≡ relay_data)
      × (got.stream_id ≡ r.stream_id)
      × (take relay_data got.body ≡ zeros relay_data)
relay_unpack_oversize old r v h = ground (
  arith,
  relay_pack_oversize r v h,
  relay_unpack_fields old r (zeros 498) v,
  take_all 498 (zeros 498),
  length-zeros 498,
  front_of_write_at (zeros 498) old.body 498,
)

relay_unpack_length-le : (p : List ℕ) → relay_unpack_length p ≤ relay_data
unfolding relay_unpack_length
relay_unpack_length-le p = ground arith

-- Whatever bytes arrive, the length stays within the data array, and so does what is written.
pub relay_unpack_bounds :
    (old : RelayPayload) (p : List ℕ)
    → length old.body ≡ relay_data
    → let got = relay_unpack old p in
      (got.data_length ≤ relay_data) × (length got.body ≡ relay_data)
unfolding relay_unpack
relay_unpack_bounds old p h = (
  relay_unpack_length-le p,
  length-write_at 0 _ old.body (
        omega (
          arith,
          relay_unpack_length-le p,
          length-take (relay_unpack_length p) (drop relay_header p),
        ))
      ∙ h,
)

relay_fill-IsRelay :
    (cmd stream_id : ℕ) (bytes : List ℕ) (len : ℕ)
    → cmd < 256
    → stream_id < 2 ^ 16
    → len ≤ length bytes
    → len < 2 ^ 16
    → IsRelay (relay_fill cmd stream_id (some bytes) len)
unfolding relay_fill
relay_fill-IsRelay cmd stream_id bytes len hc hs hb hl = ground (
  arith,
  length-zeros 4,
  length-zeros 498,
  length-take len bytes,
  length-write_at 0 (take len bytes) (zeros 498),
)

relay_fill_body :
    (cmd stream_id : ℕ) (bytes : List ℕ) (len : ℕ)
    → len ≤ length bytes
    → len ≤ relay_data
    → take len (relay_fill cmd stream_id (some bytes) len).body ≡ take len bytes
unfolding relay_fill
relay_fill_body cmd stream_id bytes zero hb hl = refl
relay_fill_body cmd stream_id bytes (suc n) hb hl = ground (
  arith,
  length-take (suc n) bytes,
  front_of_write_at (take (suc n) bytes) (zeros relay_data) (suc n),
)

cell_relay-IsCell :
    (circuit_id cmd stream_id : ℕ) (bytes : List ℕ) (len : ℕ)
    → circuit_id < 2 ^ 32
    → IsRelay (relay_fill cmd stream_id (some bytes) len)
    → len ≤ relay_data
    → IsCell (cell_relay circuit_id cmd stream_id (some bytes) len)
unfolding cell_relay relay_fill
cell_relay-IsCell circuit_id cmd stream_id bytes len hi v hl = record {
  id = hi;
  command = omega arith;
  size = length-relay_pack (relay_fill cmd stream_id (some bytes) len) v hl;
}

-- From end to end: a relay cell that one side builds and puts on the wire is, for the side that
-- reads it, a RELAY cell of that circuit with the command, the stream and exactly the data.
pub cell_unpack-cell_relay :
    (old : RelayPayload) (circuit_id cmd stream_id : ℕ) (bytes : List ℕ) (len : ℕ)
    → circuit_id < 2 ^ 32
    → cmd < 256
    → stream_id < 2 ^ 16
    → len ≤ length bytes
    → len ≤ relay_data
    → let c = cell_unpack (cell_pack (cell_relay circuit_id cmd stream_id (some bytes) len)) in
      let got = relay_unpack old c.payload in
      (c.circuit_id ≡ circuit_id)
      × (c.command ≡ cell_relay_cmd)
      × (got.relay_command ≡ cmd)
      × (got.stream_id ≡ stream_id)
      × (got.data_length ≡ len)
      × (take len got.body ≡ take len bytes)
unfolding cell_relay relay_fill
cell_unpack-cell_relay old circuit_id cmd stream_id bytes len hi hc hs hb hl =
    let v = relay_fill-IsRelay cmd stream_id bytes len hc hs hb (omega arith) in
    ground (
      arith,
      cell_unpack-cell_pack _ (cell_relay-IsCell circuit_id cmd stream_id bytes len hi v hl),
      relay_unpack-relay_pack old (relay_fill cmd stream_id (some bytes) len) v hl,
      relay_fill_body cmd stream_id bytes len hb hl,
    )
