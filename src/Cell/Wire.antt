-- ===== src/Cell/Wire.antt =====
-- The 514 bytes of a cell on the wire.
use moor_pq.Base.{
  ℕ, ◌^◌, ◌<◌, ◌≡◌, List, [], ◌∷◌, length, All, take, take_all, be32_sum, be32-put32, arith,
}
use moor_pq.Cell.{Cell, cell_pack, cell_unpack, cell_payload}

-- What the C types say of a cell.
pub record IsCell (c : Cell) : Type 0 where
  pub id : c.circuit_id < 2 ^ 32
  pub command : c.command < 256
  pub size : length c.payload ≡ cell_payload

-- A cell read back from the wire is the cell that was written.
pub cell_unpack-cell_pack : (c : Cell) → IsCell c → cell_unpack (cell_pack c) ≡ c
unfolding cell_pack cell_unpack
cell_unpack-cell_pack c v =
    ground (
      arith,
      be32-put32 c.circuit_id v.id,
      take_all 509 c.payload,
      take_all 509 (take 509 c.payload),
    )

-- Five bytes and a payload that stand on the wire are those that a cell read from it writes again.
pub cell_pack-cell_unpack :
    (a b c d command : ℕ) (payload : List ℕ)
    → All (λ x. x < 256) (a ∷ b ∷ c ∷ d ∷ command ∷ [])
    → length payload ≡ cell_payload
    → cell_pack (cell_unpack (a ∷ b ∷ c ∷ d ∷ command ∷ payload))
      ≡ a ∷ b ∷ c ∷ d ∷ command ∷ payload
unfolding cell_pack cell_unpack
cell_pack-cell_unpack a b c d command payload v h = ground (
  arith,
  be32_sum a b c d v.1.0 v.1.1.0 v.1.1.1.0,
  v.1.1.1.1.0,
  take_all 509 payload,
  take_all 509 (take 509 payload),
)
