-- ===== src/Cell/Tests.antt =====
-- Runs of the cell codecs, and instances of their theorems.
use moor_pq.Base.{
  ℕ, ◌≡◌, refl, true, List, [], ◌∷◌, some, take, zeros, length-zeros, replicate, length-replicate,
  arith,
}
use moor_pq.Sodium.Toy.{toy_sodium}
use moor_pq.Cell.{
  Cell, RelayPayload, cell_pack, cell_unpack, relay_unpack, cell_relay, cell_relay_cmd,
  relay_set_digest, relay_check_digest,
}
use moor_pq.Cell.Layout.{IsRelay}
use moor_pq.Cell.Relay.{cell_unpack-cell_relay}
use moor_pq.Cell.Digest.{check_digest-set_digest, check_all-stamp_all, stamp_all, check_all}

abbrev destroy_cell : Cell
destroy_cell = record { circuit_id = 66051; command = 4; payload = zeros 509 }

abbrev payload_509 : List ℕ
payload_509 = zeros 509

abbrev running_32 : List ℕ
running_32 = replicate 32 9

abbrev begin_payload : RelayPayload
begin_payload = record {
  relay_command = 1;
  recognized = 0;
  stream_id = 258;
  digest = 1 ∷ 2 ∷ 3 ∷ 4 ∷ [];
  data_length = 3;
  body = replicate 498 97;
}

abbrev stale_payload : RelayPayload
stale_payload = record begin_payload { body = replicate 498 255 }

begin_payload-IsRelay : IsRelay begin_payload
begin_payload-IsRelay = record {
  command = omega arith;
  recognized = omega arith;
  stream = omega arith;
  count = omega arith;
  digest_size = refl;
  body_size = length-replicate 498 97;
}

abbrev long_payload : RelayPayload
long_payload = record begin_payload { data_length = 499 }

long_payload-IsRelay : IsRelay long_payload
long_payload-IsRelay = record {
  command = omega arith;
  recognized = omega arith;
  stream = omega arith;
  count = omega arith;
  digest_size = refl;
  body_size = length-replicate 498 97;
}

cell_unpack-cell_relay_example :
    let c = cell_unpack (cell_pack (cell_relay 77 2 5 (some (10 ∷ 20 ∷ 30 ∷ [])) 3)) in
    let got = relay_unpack stale_payload c.payload in
    (c.circuit_id ≡ 77)
    × (c.command ≡ cell_relay_cmd)
    × (got.relay_command ≡ 2)
    × (got.stream_id ≡ 5)
    × (got.data_length ≡ 3)
    × (take 3 got.body ≡ take 3 (10 ∷ 20 ∷ 30 ∷ []))
cell_unpack-cell_relay_example =
    cell_unpack-cell_relay stale_payload 77 2 5 (10 ∷ 20 ∷ 30 ∷ []) 3 (omega arith) (omega arith)
      (omega arith) (omega arith) (omega arith)

check_digest-set_digest_example :
    relay_check_digest toy_sodium (relay_set_digest toy_sodium payload_509 running_32).0 running_32
    ≡ (true, (relay_set_digest toy_sodium payload_509 running_32).1)
check_digest-set_digest_example =
    check_digest-set_digest toy_sodium running_32 (length-replicate 32 9) payload_509
      (length-zeros 509)

abbrev two_payloads : List (List ℕ)
two_payloads = payload_509 ∷ replicate 509 1 ∷ []

check_all-stamp_all_example :
    check_all toy_sodium (stamp_all toy_sodium two_payloads running_32).0 running_32
    ≡ (true, (stamp_all toy_sodium two_payloads running_32).1)
check_all-stamp_all_example =
    check_all-stamp_all toy_sodium two_payloads running_32
      (length-zeros 509, (length-replicate 509 1, tt)) (length-replicate 32 9)
