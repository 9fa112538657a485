-- ===== src/Cell.antt =====
-- src/cell.c and include/moor/cell.h: the fixed-size cell of the wire, the relay payload inside it,
-- the builders of the cells that the program sends, and the running digest of a hop.
pub mod Wire
pub mod Layout
pub mod Relay
pub mod Digest
mod Tests
use moor_pq.Base.{
  ℕ, zero, suc, ◌+◌, ◌≡◌, Bool, true, false, ◌&&◌, List, [], ◌∷◌, ◌++◌, ltb, leb, if◌then◌else◌,
  Option, none, some, get_or, take, drop, zeros, write_at, u8, u16, ◌>>>◌, put16, put32, be16, be32,
}
use moor_pq.Sodium.{Sodium, crypto_hash}

abbrev pub cell_header : ℕ
cell_header = 5

abbrev pub cell_payload : ℕ
cell_payload = 509

abbrev pub relay_header : ℕ
relay_header = 11

abbrev pub relay_data : ℕ
relay_data = 498

-- Members of `moor_cell_cmd_t`.
abbrev pub cell_create_cmd : ℕ
cell_create_cmd = 1

abbrev pub cell_created_cmd : ℕ
cell_created_cmd = 2

abbrev pub cell_relay_cmd : ℕ
cell_relay_cmd = 3

abbrev pub cell_destroy_cmd : ℕ
cell_destroy_cmd = 4

-- `moor_cell_t`; the payload is an array of 509 bytes.
pub record Cell : Type 0 where
  pub circuit_id : ℕ
  pub command : ℕ
  pub payload : List ℕ

-- `moor_relay_payload_t`; `digest` has 4 bytes and `data` 498. (`data` is a keyword.)
pub record RelayPayload : Type 0 where
  pub relay_command : ℕ
  pub recognized : ℕ
  pub stream_id : ℕ
  pub digest : List ℕ
  pub data_length : ℕ
  pub body : List ℕ

pub cell_pack : Cell → List ℕ
cell_pack c = put32 c.circuit_id ++ u8 c.command ∷ take cell_payload c.payload

pub cell_unpack : List ℕ → Cell
cell_unpack w = record {
  circuit_id = be32 (get_or w 0 0) (get_or w 1 0) (get_or w 2 0) (get_or w 3 0);
  command = get_or w 4 0;
  payload = take cell_payload (drop cell_header w);
}

-- `memset` and the header bytes of `moor_relay_pack`.
pub relay_pack_header : RelayPayload → List ℕ
relay_pack_header r = write_at 9 (put16 r.data_length) (
    write_at 5 (take 4 r.digest) (
      write_at 0 (u8 r.relay_command ∷ put16 r.recognized ++ put16 r.stream_id)
        (zeros cell_payload)))

pub relay_pack : RelayPayload → List ℕ
unfolding relay_pack_header
relay_pack r =
    if ltb 0 r.data_length && leb r.data_length relay_data
    then write_at relay_header (take r.data_length r.body) (relay_pack_header r)
    else relay_pack_header r

-- The length field, cut off at the size of the array.
pub relay_unpack_length : List ℕ → ℕ
relay_unpack_length p =
    let len = be16 (get_or p 9 0) (get_or p 10 0) in if ltb relay_data len then relay_data else len

-- `moor_relay_unpack` writes into a caller's struct: `old` is what that holds before.
pub relay_unpack : RelayPayload → List ℕ → RelayPayload
relay_unpack old p = record {
  relay_command = get_or p 0 0;
  recognized = be16 (get_or p 1 0) (get_or p 2 0);
  stream_id = be16 (get_or p 3 0) (get_or p 4 0);
  digest = take 4 (drop 5 p);
  data_length = relay_unpack_length p;
  body = write_at 0 (take (relay_unpack_length p) (drop relay_header p)) old.body;
}

-- `memset(cell, 0, sizeof(*cell))` and the two assignments after it.
abbrev blank : ℕ → ℕ → Cell
blank circuit_id command = record {
  circuit_id = circuit_id;
  command = command;
  payload = zeros cell_payload;
}

-- Two keys of 32 bytes, one behind the other.
abbrev two_keys : List ℕ → List ℕ → List ℕ
two_keys a b = write_at 32 (take 32 b) (write_at 0 (take 32 a) (zeros cell_payload))

pub cell_create : ℕ → List ℕ → List ℕ → Cell
cell_create circuit_id relay_identity_pk ephemeral_pk = record (blank circuit_id cell_create_cmd) {
  payload = two_keys relay_identity_pk ephemeral_pk;
}

pub cell_created : ℕ → List ℕ → List ℕ → Cell
cell_created circuit_id relay_eph_pk auth_tag = record (blank circuit_id cell_created_cmd) {
  payload = two_keys relay_eph_pk auth_tag;
}

pub cell_destroy : ℕ → Cell
cell_destroy circuit_id = blank circuit_id cell_destroy_cmd

pub cell_destroy_reason : ℕ → ℕ → Cell
cell_destroy_reason circuit_id reason = record (blank circuit_id cell_destroy_cmd) {
  payload = write_at 0 (reason ∷ []) (zeros cell_payload);
}

-- `relay.data` as `moor_cell_relay` leaves it; a null `data` pointer is `none`.
relay_body : Option (List ℕ) → ℕ → List ℕ
relay_body none data_len = zeros relay_data
relay_body (some bytes) data_len =
    if ltb 0 data_len && leb data_len relay_data
    then write_at 0 (take data_len bytes) (zeros relay_data)
    else zeros relay_data

-- The struct that `moor_cell_relay` fills before it packs it.
pub relay_fill : ℕ → ℕ → Option (List ℕ) → ℕ → RelayPayload
unfolding relay_body
relay_fill relay_cmd stream_id bytes data_len = record {
  relay_command = relay_cmd;
  recognized = 0;
  stream_id = stream_id;
  digest = zeros 4;
  data_length = data_len;
  body = relay_body bytes data_len;
}

pub cell_relay : ℕ → ℕ → ℕ → Option (List ℕ) → ℕ → Cell
cell_relay circuit_id relay_cmd stream_id bytes data_len =
    record (blank circuit_id cell_relay_cmd) {
      payload = relay_pack (relay_fill relay_cmd stream_id bytes data_len);
    }

module _ (na : Sodium) where
  -- The payload with its digest, and the new running digest.
  pub relay_set_digest : List ℕ → List ℕ → List ℕ × List ℕ
  relay_set_digest payload running =
      let zeroed = write_at 5 (zeros 4) payload in
      let fresh = crypto_hash na (take 32 running ++ take cell_payload zeroed) in
      (write_at 5 (take 4 fresh) zeroed, take 32 fresh)

  -- `true` for the return value 0, with the running digest afterwards.
  pub relay_check_digest : List ℕ → List ℕ → Bool × List ℕ
  relay_check_digest payload running =
      let cell_digest = take 4 (drop 5 payload) in
      let hash_input = write_at 37 (zeros 4) (take 32 running ++ take cell_payload payload) in
      let expected = crypto_hash na hash_input in
      if na.memcmp cell_digest (take 4 expected) then (true, take 32 expected) else (false, running)
