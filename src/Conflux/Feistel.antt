-- ===== src/Conflux/Feistel.antt =====
-- src/conflux.c, the Feistel network that hides sequence numbers: what is encrypted is decrypted.
pub mod Roundtrip
use moor_pq.Base.{
  ℕ, zero, suc, ◌+◌, ◌-◌, ◌*◌, ◌/◌, List, [], ◌∷◌, ◌++◌, get_or, take, u8, u32, ◌<<<◌, ◌>>>◌, put32,
  be32, bit_or, bit_xor,
}
use moor_pq.Sodium.{Sodium}

abbrev pub halves : ℕ → ℕ × ℕ
halves seq = (u32 (seq >>> 32), u32 seq)

-- `((uint64_t)L << 32) | (uint64_t)R`
abbrev pub joined : ℕ × ℕ → ℕ
joined s = bit_or (s.0 <<< 32) s.1

module _ (na : Sodium) (key : List ℕ) where
  -- `feistel_round_fn`
  pub feistel_round_fn : ℕ → ℕ → ℕ
  feistel_round_fn round_num r_half =
      let hash = na.generichash 32 (take 32 key ++ (u8 round_num ∷ put32 r_half)) in
      be32 (get_or hash 0 0) (get_or hash 1 0) (get_or hash 2 0) (get_or hash 3 0)

  -- The loop of `feistel_encrypt`, with `n` rounds to go from round `i` on.
  pub encrypt_rounds : ℕ → ℕ → ℕ × ℕ → ℕ × ℕ
  encrypt_rounds zero i s = s
  encrypt_rounds (suc n) i s = encrypt_rounds n (i + 1) (s.1, bit_xor s.0 (feistel_round_fn i s.1))

  -- The loop of `feistel_decrypt`, from round `n - 1` down to round 0.
  pub decrypt_rounds : ℕ → ℕ × ℕ → ℕ × ℕ
  decrypt_rounds zero s = s
  decrypt_rounds (suc n) s = decrypt_rounds n (bit_xor s.1 (feistel_round_fn n s.0), s.0)

  pub feistel_encrypt : ℕ → ℕ
  unfolding encrypt_rounds
  feistel_encrypt seq = joined (encrypt_rounds 4 0 (halves seq))

  pub feistel_decrypt : ℕ → ℕ
  unfolding decrypt_rounds
  feistel_decrypt enc = joined (decrypt_rounds 4 (halves enc))
