-- ===== src/Conflux/Feistel/Roundtrip.antt =====
-- Decryption undoes encryption and encryption undoes decryption, whatever the round function is.
use moor_pq.Base.{
  ℕ, zero, suc, ◌+◌, ◌^◌, ◌<◌, ◌≡◌, ◌∙◌, ap, ap₂, refl, List, All-get_or, get_or, u32, ◌>>>◌,
  be32_sum, bit_xor, bit_xor-bit_xor_self, bit_xor-lt, bit_or_fields, arith, take, ◌∷◌, ◌++◌, u8,
  put32,
}
use moor_pq.Sodium.{Sodium}
use moor_pq.Conflux.Feistel.{
  feistel_round_fn, encrypt_rounds, decrypt_rounds, feistel_encrypt, feistel_decrypt, halves,
  joined,
}

-- Two halves of a word.
abbrev IsHalves : ℕ × ℕ → Type 0
IsHalves s = (s.0 < 2 ^ 32) × (s.1 < 2 ^ 32)

halves-joined : (s : ℕ × ℕ) → IsHalves s → halves (joined s) ≡ s
halves-joined s v =
    let e = bit_or_fields 32 s.0 s.1 v.1 in rw e (ap₂ (λ a b. (a, b)) (omega arith) (omega arith))

joined-halves : (seq : ℕ) → seq < 2 ^ 64 → joined (halves seq) ≡ seq
joined-halves seq h = omega (arith, bit_or_fields 32 (u32 (seq >>> 32)) (u32 seq) (omega arith))

halves-IsHalves : (seq : ℕ) → IsHalves (halves seq)
halves-IsHalves seq = omega arith

module _ (na : Sodium) (key : List ℕ) where
  abbrev forth : ℕ → ℕ × ℕ → ℕ × ℕ
  forth i s = (s.1, bit_xor s.0 (feistel_round_fn na key i s.1))

  abbrev back : ℕ → ℕ × ℕ → ℕ × ℕ
  back i s = (bit_xor s.1 (feistel_round_fn na key i s.0), s.0)

  decrypt-encrypt_rounds :
      (n i m : ℕ) (s : ℕ × ℕ)
      → m ≡ n + i
      → decrypt_rounds na key m (encrypt_rounds na key n i s) ≡ decrypt_rounds na key i s
  unfolding encrypt_rounds decrypt_rounds
  decrypt-encrypt_rounds zero i m s e =
      ap (λ k. decrypt_rounds na key k s) {x = m} {y = i} (omega arith)
  decrypt-encrypt_rounds (suc n) i m s e =
      decrypt-encrypt_rounds n (i + 1) m (forth i s) (omega arith)
      ∙ ap (λ k. decrypt_rounds na key k (forth i s)) {x = i + 1} {y = suc i} (omega arith)
      ∙ ap (λ l. decrypt_rounds na key i (l, s.1))
          (bit_xor-bit_xor_self s.0 (feistel_round_fn na key i s.1))

  encrypt_rounds_last :
      (n i : ℕ) (s : ℕ × ℕ)
      → encrypt_rounds na key (suc n) i s ≡ forth (n + i) (encrypt_rounds na key n i s)
  unfolding encrypt_rounds
  encrypt_rounds_last zero i s = ap (λ k. forth k s) {y = 0 + i} (omega arith)
  encrypt_rounds_last (suc n) i s =
      encrypt_rounds_last n (i + 1) (forth i s)
      ∙ ap (λ k. forth k (encrypt_rounds na key n (i + 1) (forth i s))) {y = suc n + i}
          (omega arith)

  encrypt-decrypt_rounds :
      (n : ℕ) (s : ℕ × ℕ) → encrypt_rounds na key n 0 (decrypt_rounds na key n s) ≡ s
  unfolding encrypt_rounds decrypt_rounds
  encrypt-decrypt_rounds zero s = refl
  encrypt-decrypt_rounds (suc n) s =
      encrypt_rounds_last n 0 (decrypt_rounds na key n (back n s))
      ∙ ap (λ k. forth k (encrypt_rounds na key n 0 (decrypt_rounds na key n (back n s)))) {y = n}
          (omega arith)
      ∙ ap (forth n) (encrypt-decrypt_rounds n (back n s))
      ∙ ap (λ r. (s.0, r)) (bit_xor-bit_xor_self s.1 (feistel_round_fn na key n s.0))

  round_fn_bound : (i r : ℕ) → feistel_round_fn na key i r < 2 ^ 32
  unfolding feistel_round_fn
  round_fn_bound i r = omega (
    arith,
    be32_sum (get_or hash 0 0) (get_or hash 1 0) (get_or hash 2 0) (get_or hash 3 0)
        (byte 1 (omega arith)) (byte 2 (omega arith)) (byte 3 (omega arith)),
    byte 0 (omega arith),
    byte 1 (omega arith),
    byte 2 (omega arith),
    byte 3 (omega arith),
  )
    where
      hash : List ℕ
      hash = na.generichash 32 (take 32 key ++ (u8 i ∷ put32 r))

      byte : (k : ℕ) → k < 32 → get_or hash k 0 < 256
      byte k lt =
          All-get_or (λ b. b < 256) hash k 0
            (na.generichash-bytes 32 (take 32 key ++ (u8 i ∷ put32 r)))
            (omega (arith, na.length-generichash 32 (take 32 key ++ (u8 i ∷ put32 r))))

  encrypt_rounds-IsHalves :
      (n i : ℕ) (s : ℕ × ℕ) → IsHalves s → IsHalves (encrypt_rounds na key n i s)
  unfolding encrypt_rounds
  encrypt_rounds-IsHalves zero i s v = v
  encrypt_rounds-IsHalves (suc n) i s v =
      encrypt_rounds-IsHalves n (i + 1) (forth i s)
        (v.1, bit_xor-lt 32 s.0 (feistel_round_fn na key i s.1) v.0 (round_fn_bound i s.1))

  decrypt_rounds-IsHalves : (n : ℕ) (s : ℕ × ℕ) → IsHalves s → IsHalves (decrypt_rounds na key n s)
  unfolding decrypt_rounds
  decrypt_rounds-IsHalves zero s v = v
  decrypt_rounds-IsHalves (suc n) s v =
      decrypt_rounds-IsHalves n (back n s)
        (bit_xor-lt 32 s.1 (feistel_round_fn na key n s.0) v.1 (round_fn_bound n s.0), v.0)

  -- The cipher is a permutation of the 64-bit words: decryption gives back every sequence number
  -- that was encrypted, and encryption every word that was decrypted.
  pub feistel_permutation :
      (seq : ℕ)
      → seq < 2 ^ 64
      → (feistel_decrypt na key (feistel_encrypt na key seq) ≡ seq)
        × (feistel_encrypt na key (feistel_decrypt na key seq) ≡ seq)
  unfolding feistel_encrypt feistel_decrypt
  feistel_permutation seq h = (
    ap (λ s. joined (decrypt_rounds na key 4 s))
          (halves-joined (encrypt_rounds na key 4 0 (halves seq))
            (encrypt_rounds-IsHalves 4 0 (halves seq) (halves-IsHalves seq)))
        ∙ ap joined (decrypt-encrypt_rounds 4 0 4 (halves seq) refl)
        ∙ joined-halves seq h,
    ap (λ s. joined (encrypt_rounds na key 4 0 s))
          (halves-joined (decrypt_rounds na key 4 (halves seq))
            (decrypt_rounds-IsHalves 4 (halves seq) (halves-IsHalves seq)))
        ∙ ap joined (encrypt-decrypt_rounds 4 (halves seq))
        ∙ joined-halves seq h,
  )

  -- An encrypted or decrypted word fits 64 bits.
  pub feistel_bounds :
      (seq : ℕ) → (feistel_encrypt na key seq < 2 ^ 64) × (feistel_decrypt na key seq < 2 ^ 64)
  unfolding feistel_encrypt feistel_decrypt
  feistel_bounds seq =
      let e = encrypt_rounds-IsHalves 4 0 (halves seq) (halves-IsHalves seq) in
      let d = decrypt_rounds-IsHalves 4 (halves seq) (halves-IsHalves seq) in
      (
        omega (
          arith,
          e.0,
          e.1,
          bit_or_fields 32 (encrypt_rounds na key 4 0 (halves seq)).0
              (encrypt_rounds na key 4 0 (halves seq)).1 e.1,
        ),
        omega (
          arith,
          d.0,
          d.1,
          bit_or_fields 32 (decrypt_rounds na key 4 (halves seq)).0
              (decrypt_rounds na key 4 (halves seq)).1 d.1,
        ),
      )
